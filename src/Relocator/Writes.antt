-- ===== src/Relocator/Writes.antt =====
-- HelenRuntime/HookBlobRelocator.cpp: `ApplyRelocations` fills every field and nothing else.
use helen_gamehook.Relocator.Overwrite.{
  AreApart, length-overwrite, slice-overwrite, slice-overwrite_apart,
}
use helen_gamehook.Common.Words.{Bytes, u32_mod, little_endian}
use helen_gamehook.Common.{
  ℕ, ◌+◌, ◌≤◌, ◌<◌, ◌≡◌, inl, inr, refl, sym, ap, ◌∙◌, subst, Bool, true, List, [], ◌∷◌, length,
  slice, Option, some, arith, Option-cases,
}
use helen_gamehook.Floats.{Floats}
use helen_gamehook.Paths.{Text}
use helen_gamehook.Relocator.Encodings.{decoded, try_encode_relocation_value-decoded}
use helen_gamehook.Relocator.{
  Relocation, Applied, Place, can_write_relocation, try_resolve_source_address,
  try_encode_relocation_value, try_add_address, word_bytes, overwrite, encoded, view,
  apply_relocations,
}
use helen_gamehook.RuntimeValues.{Store, try_get_address}

-- The addresses that a blob may ask for are those of the 32-bit process.
pub record AreAddresses (fl : Floats) (exports : Text → Text → Option ℕ) (values : Store fl)
    (place : Place) : Type 0 where
  pub base_lt : place.blob_base < u32_mod
  pub target_lt : place.hook_target < u32_mod
  pub exports_lt : (m n : Text) (a : ℕ) → exports m n ≡ some a → a < u32_mod
  pub slots_lt : (k : Text) (a : ℕ) → try_get_address fl values k ≡ some a → a < u32_mod

-- No later relocation touches the field of an earlier one.
abbrev pub AllApart : ℕ → ℕ → List Relocation → Type 0
AllApart j n [] = Unit {0}
AllApart j n (r ∷ rs) = AreApart r.offset 4 j n × AllApart j n rs

abbrev pub ArePairwiseApart : List Relocation → Type 0
ArePairwiseApart [] = Unit {0}
ArePairwiseApart (r ∷ rs) = AllApart r.offset 4 rs × ArePairwiseApart rs

-- Every field of the blob is read as the address of its view.
abbrev pub AreFilled : ℕ → Bytes → List Relocation → List Applied → Type 0
AreFilled base blob [] [] = Unit {0}
AreFilled base blob [] (a ∷ as') = ⊥
AreFilled base blob (r ∷ rs) [] = ⊥
AreFilled base blob (r ∷ rs) (a ∷ as') =
    (decoded r base (little_endian (slice r.offset 4 blob)) ≡ a.resolved_address)
    × AreFilled base blob rs as'

module _ (fl : Floats) (exports : Text → Text → Option ℕ) (shows : ℕ → Text) where
  encoded-some :
      (blob : Bytes) (r : Relocation) (place : Place) (values : Store fl) (a v : ℕ)
      → encoded fl exports shows blob r place values ≡ some (a, v)
      → (r.offset + 4 ≤ length blob)
        × (try_resolve_source_address fl exports r place values ≡ some a)
        × (try_encode_relocation_value r a place.blob_base ≡ some v)
  unfolding encoded can_write_relocation
  encoded-some blob r place values a v e = (ground (arith, e), ground (arith, e), ground (arith, e))

  resolved-lt :
      (r : Relocation) (place : Place) (values : Store fl) (a : ℕ)
      → AreAddresses fl exports values place
      → try_resolve_source_address fl exports r place values ≡ some a
      → a < u32_mod
  unfolding try_resolve_source_address try_add_address
  resolved-lt r place values a are e = ground (
    arith,
    e,
    are.base_lt,
    are.target_lt,
    are.exports_lt r.source.module_name r.source.export_name a,
    are.slots_lt r.source.slot a,
  )

  -- However the call ends, it keeps the size of the blob, and every part of the blob that no
  -- relocation touches.
  pub apply_relocations-slice :
      (rs : List Relocation) (place : Place) (values : Store fl) (blob : Bytes) (j n : ℕ)
      → AllApart j n rs
      → (length (apply_relocations fl exports shows rs place values blob).1.0 ≡ length blob)
        × (slice j n (apply_relocations fl exports shows rs place values blob).1.0 ≡ slice j n blob)
  unfolding apply_relocations
  apply_relocations-slice [] place values blob j n apart = (refl, refl)
  apply_relocations-slice (r ∷ rs) place values blob j n apart =
      elim (Option-cases (encoded fl exports shows blob r place values)) [
        | inl e ↦ (ground (arith, e), ground (arith, e))
        | inr ((a, v), e) ↦
            let (fits, _, _) = encoded-some blob r place values a v e in
            let written = overwrite r.offset (word_bytes v) blob in
            let (size, same) = apply_relocations-slice rs place values written j n apart.1 in
            (
              ground (arith, e, size, length-overwrite r.offset (word_bytes v) blob fits),
              ground (
                arith,
                e,
                same,
                slice-overwrite_apart r.offset j n (word_bytes v) blob fits apart.0,
              ),
            )
      ]

  filled_view :
      (r : Relocation) (a base : ℕ) (rs : List Relocation) (rest : Bool × (Bytes × List Applied))
      (result : Bool × (Bytes × List Applied))
      → result ≡ (rest.0, (rest.1.0, view fl exports shows r a ∷ rest.1.1))
      → decoded r base (little_endian (slice r.offset 4 rest.1.0)) ≡ a
      → AreFilled base rest.1.0 rs rest.1.1
      → AreFilled base result.1.0 (r ∷ rs) result.1.1
  unfolding view
  filled_view r a base rs rest result e this others =
      subst (λ (t : Bool × (Bytes × List Applied)). AreFilled base t.1.0 (r ∷ rs) t.1.1) (sym e)
        (this, others)

  -- `ApplyRelocations` that answers true over fields that do not overlap has filled every one: the
  -- processor reads out of it the address that its view reports.
  pub apply_relocations-AreFilled :
      (rs : List Relocation) (place : Place) (values : Store fl) (blob : Bytes)
      → AreAddresses fl exports values place
      → ArePairwiseApart rs
      → (apply_relocations fl exports shows rs place values blob).0 ≡ true
      → AreFilled place.blob_base
          (apply_relocations fl exports shows rs place values blob).1.0
          rs
          (apply_relocations fl exports shows rs place values blob).1.1
  unfolding apply_relocations
  apply_relocations-AreFilled [] place values blob are apart done = tt
  apply_relocations-AreFilled (r ∷ rs) place values blob are apart done =
      elim (Option-cases (encoded fl exports shows blob r place values)) [
        | inl e ↦ ground (arith, e, done)
        | inr ((a, v), e) ↦
            let (fits, resolves, encodes) = encoded-some blob r place values a v e in
            let written = overwrite r.offset (word_bytes v) blob in
            let (_, kept) = apply_relocations-slice rs place values written r.offset 4 apart.0 in
            let field : slice r.offset 4
                  (apply_relocations fl exports shows rs place values written).1.0
                ≡ word_bytes v =
              kept ∙ slice-overwrite r.offset (word_bytes v) blob fits in
            let read =
              try_encode_relocation_value-decoded r a place.blob_base v
                (resolved-lt r place values a are resolves) are.base_lt encodes in
            filled_view r a place.blob_base rs
              (apply_relocations fl exports shows rs place values written)
              (apply_relocations fl exports shows (r ∷ rs) place values blob) (ground (arith, e))
              (ap (λ t. decoded r place.blob_base (little_endian t)) field ∙ read)
              (apply_relocations-AreFilled rs place values written are apart.1
                (ground (arith, e, done)))
      ]
