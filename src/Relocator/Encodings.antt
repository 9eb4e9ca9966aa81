-- ===== src/Relocator/Encodings.antt =====
-- HelenRuntime/HookBlobRelocator.cpp: the fields mean the addresses that they were made for.
use helen_gamehook.Common.Int.{ℤ, pos, negsuc, ◌-ℤ◌}
use helen_gamehook.Common.Words.{u32_mod, little_endian}
use helen_gamehook.Common.{
  ℕ, ◌+◌, ◌%◌, ◌<◌, ◌≡◌, inl, inr, false, some, arith, if◌then◌else◌, Bool-cases, Option-cases,
}
use helen_gamehook.Paths.Keys.{text_key}
use helen_gamehook.Paths.{codes, text_eq}
use helen_gamehook.Relocator.{
  Relocation, try_add_address, u32_of_int, try_encode_relocation_value, word_bytes,
}

-- What the processor reads out of a field: an absolute address, or one that is relative to the end of
-- the field.
unfoldable pub decoded : Relocation → ℕ → ℕ → ℕ
decoded r blob_base field =
    if text_eq r.encoding (codes "abs32")
    then field
    else (blob_base + r.offset + 4 + field) % u32_mod

little_endian-word_bytes : (n : ℕ) → n < u32_mod → little_endian (word_bytes n) ≡ n
little_endian-word_bytes n h = omega (arith, h)

relative : (a n : ℕ) → a < u32_mod → n < u32_mod → (n + u32_of_int (pos a -ℤ pos n)) % u32_mod ≡ a
unfolding u32_of_int ◌-ℤ◌
relative a n h l = ground (arith, h, l)

next_address-lt :
    (base offset m : ℕ)
    → base < u32_mod
    → try_add_address base offset ≡ some m
    → (m ≡ base + offset) × (m < u32_mod)
unfolding try_add_address
next_address-lt base offset m h e = ground (arith, h, e)

u32_of_int-lt : (i : ℤ) → u32_of_int i < u32_mod
unfolding u32_of_int
u32_of_int-lt (pos n) = omega arith
u32_of_int-lt (negsuc n) = omega arith

rel32-decoded :
    (r : Relocation) (a base v : ℕ)
    → text_eq r.encoding (codes "abs32") ≡ false
    → a < u32_mod
    → base < u32_mod
    → try_encode_relocation_value r a base ≡ some v
    → ((base + r.offset + 4 + v) % u32_mod ≡ a) × (v < u32_mod)
unfolding try_encode_relocation_value
rel32-decoded r a base v other h b e = elim (Option-cases (try_add_address base r.offset)) [
  | inl m ↦ ground (arith, other, e, m)
  | inr (p, m) ↦ elim (Option-cases (try_add_address p 4)) [
    | inl m' ↦ ground (arith, other, e, m, m')
    | inr (n, m') ↦
        let (sum, lt) = next_address-lt base r.offset p b m in
        let (sum', lt') = next_address-lt p 4 n lt m' in
        let i = pos a -ℤ pos n in
        let value : v ≡ u32_of_int i = ground (arith, other, e, m, m') in
        let at : base + r.offset + 4 ≡ n = omega (arith, sum, sum') in
        (rw (at, value) (relative a n h lt'), rw (value) (u32_of_int-lt i))
  ]
]

-- A field that `TryEncodeRelocationValue` has encoded, little-endian in the blob, is read by the
-- processor as the address it was made for, absolute or relative to the end of the field.
pub try_encode_relocation_value-decoded :
    (r : Relocation) (a base v : ℕ)
    → a < u32_mod
    → base < u32_mod
    → try_encode_relocation_value r a base ≡ some v
    → decoded r base (little_endian (word_bytes v)) ≡ a
unfolding decoded
try_encode_relocation_value-decoded r a base v h b e =
    elim (Bool-cases (text_eq r.encoding (codes "abs32"))) [
      | inl t ↦
          let same : v ≡ a = unfold try_encode_relocation_value in ground (arith, t, e) in
          let read = little_endian-word_bytes v (omega (arith, same, h)) in
          ground (arith, t, read, same)
      | inr f ↦
          let (read, lt) = rel32-decoded r a base v f h b e in
          let field = little_endian-word_bytes v lt in ground (arith, f, read, field)
    ]
