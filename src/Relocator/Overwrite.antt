-- ===== src/Relocator/Overwrite.antt =====
-- HelenRuntime/HookBlobRelocator.cpp: what a `memcpy` into the blob changes.
use helen_gamehook.Common.Lists.Slices.{
  slice-append_left, slice-append_right, slice-slice, take_all, drop-drop,
}
use helen_gamehook.Common.Words.{Bytes}
use helen_gamehook.Common.{
  ℕ, ◌+◌, ◌-◌, ◌≤◌, ◌≡◌, ◌⊎◌, inl, inr, refl, ap, ◌∙◌, ◌++◌, length, take, drop, slice,
  length-append, length-take, length-drop, arith,
}
use helen_gamehook.Relocator.{overwrite}

pub length-overwrite :
    (i : ℕ) (bytes blob : Bytes)
    → i + length bytes ≤ length blob
    → length (overwrite i bytes blob) ≡ length blob
unfolding overwrite
length-overwrite i bytes blob fits = omega (
  arith,
  fits,
  length-append (take i blob) (bytes ++ drop (i + length bytes) blob),
  length-append bytes (drop (i + length bytes) blob),
  length-take i blob,
  length-drop (i + length bytes) blob,
)

-- Two fields of the blob that have no byte in common.
abbrev pub AreApart : ℕ → ℕ → ℕ → ℕ → Type 0
AreApart i m j n = (j + n ≤ i) ⊎ (i + m ≤ j)

pub slice-overwrite :
    (i : ℕ) (bytes blob : Bytes)
    → i + length bytes ≤ length blob
    → slice i (length bytes) (overwrite i bytes blob) ≡ bytes
unfolding overwrite
slice-overwrite i bytes blob fits =
    let rest = drop (i + length bytes) blob in
    let at : i ≡ length (take i blob) + 0 = omega (arith, length-take i blob, fits) in
    ap (λ (k : ℕ). slice k (length bytes) (take i blob ++ (bytes ++ rest))) at
    ∙ slice-append_right 0 (length bytes) (take i blob) (bytes ++ rest)
    ∙ slice-append_left 0 (length bytes) bytes rest (omega arith)
    ∙ unfold slice in take_all (length bytes) bytes (omega arith)

below_take : (i j n : ℕ) (blob : Bytes) → j + n ≤ i → slice j n (take i blob) ≡ slice j n blob
below_take i j n blob below =
    let cut : slice j n (take i blob) ≡ slice j n (slice 0 i blob) = unfold slice in refl in
    cut ∙ slice-slice 0 i j n blob below ∙ ap (λ (p : ℕ). slice p n blob) (omega arith)

above_drop : (m j n : ℕ) (blob : Bytes) → m ≤ j → slice (j - m) n (drop m blob) ≡ slice j n blob
unfolding slice
above_drop m j n blob above =
    ap (take n) (drop-drop m (j - m) blob ∙ ap (λ (p : ℕ). drop p blob) (omega (arith, above)))

pub slice-overwrite_apart :
    (i j n : ℕ) (bytes blob : Bytes)
    → i + length bytes ≤ length blob
    → AreApart i (length bytes) j n
    → slice j n (overwrite i bytes blob) ≡ slice j n blob
unfolding overwrite
slice-overwrite_apart i j n bytes blob fits (inl below) =
    slice-append_left j n (take i blob) (bytes ++ drop (i + length bytes) blob)
      (omega (arith, length-take i blob, below, fits))
    ∙ below_take i j n blob below
slice-overwrite_apart i j n bytes blob fits (inr above) =
    let rest = drop (i + length bytes) blob in
    let k = j - (i + length bytes) in
    let at : j ≡ length (take i blob) + (length bytes + k) =
      omega (arith, length-take i blob, fits, above) in
    ap (λ (p : ℕ). slice p n (take i blob ++ (bytes ++ rest))) at
    ∙ slice-append_right (length bytes + k) n (take i blob) (bytes ++ rest)
    ∙ slice-append_right k n bytes rest
    ∙ above_drop (i + length bytes) j n blob above
