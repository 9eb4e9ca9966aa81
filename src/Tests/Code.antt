-- ===== src/Tests/Code.antt =====
-- Byte patterns and relocated blobs.
use helen_gamehook.Common.Maps.{find}
use helen_gamehook.Common.Words.{Bytes, little_endian}
use helen_gamehook.Common.{
  ℕ, ◌≡◌, refl, true, false, List, [], ◌∷◌, length, slice, Option, none, some, arith, inl, inr,
}
use helen_gamehook.Paths.{Text, codes, text_eq}
use helen_gamehook.Pattern.RoundTrip.{notation, parse-notation}
use helen_gamehook.Pattern.Search.{IsFirstFrom, find_first-IsFirstFrom}
use helen_gamehook.Pattern.{Token, parse, find_first, find_from, matches_at}
use helen_gamehook.Relocator.Encodings.{decoded, try_encode_relocation_value-decoded}
use helen_gamehook.Relocator.Writes.{
  AreAddresses, AreFilled, apply_relocations-AreFilled, apply_relocations-slice,
}
use helen_gamehook.Relocator.{
  Relocation, RelocationSource, Place, try_add_address, can_write_relocation,
  try_resolve_source_address, try_encode_relocation_value, u32_of_int, word_bytes, overwrite,
  encoded, view, apply_relocations,
}
use helen_gamehook.RuntimeValues.{new_store, try_get_address}
use helen_gamehook.Tests.Machine.{naturals}
use helen_gamehook.Common.Int.{◌-ℤ◌}

-- `0F ??`
abbrev tokens : List Token
tokens = record { value = 15; wildcard = false } ∷ record { value = 0; wildcard = true } ∷ []

find_first-IsFirstFrom_example :
    IsFirstFrom 0 tokens
      (1 ∷ 15 ∷ 2 ∷ 15 ∷ 3 ∷ [])
      (find_first tokens (some (1 ∷ 15 ∷ 2 ∷ 15 ∷ 3 ∷ [])))
find_first-IsFirstFrom_example = find_first-IsFirstFrom tokens (1 ∷ 15 ∷ 2 ∷ 15 ∷ 3 ∷ []) (λ e. cc)

found_at_one : find_first tokens (some (1 ∷ 15 ∷ 2 ∷ 15 ∷ 3 ∷ [])) ≡ some 1
unfolding find_first find_from matches_at
found_at_one = refl

parse-notation_example : parse (notation tokens) ≡ some tokens
parse-notation_example =
    parse-notation tokens (λ e. cc) (inr (refl, omega arith), (inl (refl, refl), tt))

abbrev no_source : RelocationSource
no_source = record { kind = []; slot = []; module_name = []; export_name = []; blob_offset = none }

-- An absolute field with the address of the blob's byte 8, and a jump back behind the hook.
abbrev to_blob : Relocation
to_blob = record {
  offset = 0;
  encoding = codes "abs32";
  source = record no_source { kind = codes "blob-offsetof"; blob_offset = some 8 };
}

abbrev back : Relocation
back = record {
  offset = 4;
  encoding = codes "rel32";
  source = record no_source { kind = codes "hook-resume" };
}

abbrev place : Place
place = record { hook_target = 4096; blob_base = 65536; resume_offset = 5 }

abbrev exports : Text → Text → Option ℕ
exports m n = none

abbrev shows : ℕ → Text
shows n = []

abbrev blob : Bytes
blob = 0 ∷ 0 ∷ 0 ∷ 0 ∷ 0 ∷ 0 ∷ 0 ∷ 0 ∷ 144 ∷ []

place-AreAddresses : AreAddresses naturals exports (new_store naturals) place
unfolding try_get_address find
place-AreAddresses = record {
  base_lt = omega arith;
  target_lt = omega arith;
  exports_lt = λ m n a h. cc;
  slots_lt = λ k a h. cc;
}

applied :
    (apply_relocations naturals exports shows
      (to_blob ∷ back ∷ [])
      place
      (new_store naturals)
      blob).0
    ≡ true
unfolding apply_relocations encoded can_write_relocation try_resolve_source_address
    try_encode_relocation_value try_add_address u32_of_int overwrite view text_eq ◌-ℤ◌
applied = refl

apply_relocations-AreFilled_example :
    AreFilled 65536
      (apply_relocations naturals exports shows
        (to_blob ∷ back ∷ [])
        place
        (new_store naturals)
        blob).1.0
      (to_blob ∷ back ∷ [])
      (apply_relocations naturals exports shows
        (to_blob ∷ back ∷ [])
        place
        (new_store naturals)
        blob).1.1
apply_relocations-AreFilled_example =
    apply_relocations-AreFilled naturals exports shows (to_blob ∷ back ∷ []) place
      (new_store naturals) blob place-AreAddresses ((inl (omega arith), tt), (tt, tt)) applied

apply_relocations-slice_example :
    (length
        (apply_relocations naturals exports shows
          (to_blob ∷ back ∷ [])
          place
          (new_store naturals)
          blob).1.0
      ≡ 9)
    × (slice 8 1
          (apply_relocations naturals exports shows
            (to_blob ∷ back ∷ [])
            place
            (new_store naturals)
            blob).1.0
        ≡ slice 8 1 blob)
apply_relocations-slice_example =
    apply_relocations-slice naturals exports shows (to_blob ∷ back ∷ []) place (new_store naturals)
      blob 8 1 (inr (omega arith), (inr (omega arith), tt))

encodes : try_encode_relocation_value back 4101 65536 ≡ some 4294905853
unfolding try_encode_relocation_value try_add_address u32_of_int text_eq ◌-ℤ◌
encodes = refl

try_encode_relocation_value-decoded_example :
    decoded back 65536 (little_endian (word_bytes 4294905853)) ≡ 4101
try_encode_relocation_value-decoded_example =
    try_encode_relocation_value-decoded back 4101 65536 4294905853 (omega arith) (omega arith)
      encodes
