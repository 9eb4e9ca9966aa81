-- ===== src/Relocator.antt =====
-- HelenRuntime/HookBlobRelocator.cpp: machine code blobs whose address fields are filled in. The
-- modules of the process are a parameter: `exports module name` is what `GetModuleHandleW` and
-- `GetProcAddress` find. Addresses have 32 bits.
pub mod Encodings
pub mod Overwrite
pub mod Writes
use helen_gamehook.Common.Int.{ℤ, pos, negsuc, ◌-ℤ◌, ltb_ℤ}
use helen_gamehook.Common.Words.{Bytes, u32_mod}
use helen_gamehook.Common.{
  ℕ, ◌+◌, ◌-◌, ◌/◌, ◌%◌, ◌^◌, Bool, true, false, not, ◌||◌, ◌&&◌, ltb, leb, List, [], ◌∷◌, ◌++◌,
  length, take, drop, Option, none, some, if◌then◌else◌,
}
use helen_gamehook.Floats.{Floats}
use helen_gamehook.Paths.{Text, codes, text_eq}
use helen_gamehook.RuntimeValues.{Store, try_get_address}

-- `HookBlobRelocationSourceDefinition`
pub record RelocationSource : Type 0 where
  pub kind : Text
  pub slot : Text
  pub module_name : Text
  pub export_name : Text
  pub blob_offset : Option ℕ

-- `HookBlobRelocationDefinition`
pub record Relocation : Type 0 where
  pub offset : ℕ
  pub encoding : Text
  pub source : RelocationSource

-- `AppliedRelocationView`
pub record Applied : Type 0 where
  pub offset : ℕ
  pub encoding : Text
  pub source_kind : Text
  pub source_label : Text
  pub resolved_address : ℕ

-- Where the blob runs: the hook's target, the blob's base, and the hook's `ResumeOffsetFromTarget`.
pub record Place : Type 0 where
  pub hook_target : ℕ
  pub blob_base : ℕ
  pub resume_offset : ℕ

-- `TryAddAddress`
unfoldable pub try_add_address : ℕ → ℕ → Option ℕ
try_add_address base offset = if ltb (u32_mod - 1 - base) offset then none else some (base + offset)

-- `CanWriteRelocation`
unfoldable pub can_write_relocation : Bytes → Relocation → Bool
can_write_relocation blob r = leb r.offset (length blob) && leb 4 (length blob - r.offset)

-- `TryResolveSourceAddress`
unfoldable pub try_resolve_source_address :
    (fl : Floats) → (Text → Text → Option ℕ) → Relocation → Place → Store fl → Option ℕ
unfolding try_add_address
try_resolve_source_address fl exports r place values =
    if text_eq r.source.kind (codes "runtime-slot")
    then try_get_address fl values r.source.slot
    else if text_eq r.source.kind (codes "hook-target")
    then some place.hook_target
    else if text_eq r.source.kind (codes "hook-resume")
    then try_add_address place.hook_target place.resume_offset
    else if text_eq r.source.kind (codes "module-export")
    then exports r.source.module_name r.source.export_name
    else if text_eq r.source.kind (codes "blob-offsetof")
    then elim r.source.blob_offset [
      | none ↦ none
      | some offset ↦ try_add_address place.blob_base offset
    ]
    else none

-- `BuildSourceLabel`; `shows` is `std::to_string`.
unfoldable pub build_source_label : (ℕ → Text) → Relocation → Text
build_source_label shows r =
    if text_eq r.source.kind (codes "runtime-slot")
    then r.source.slot
    else if text_eq r.source.kind (codes "module-export")
    then r.source.module_name ++ (codes "!" ++ r.source.export_name)
    else if text_eq r.source.kind (codes "blob-offsetof")
    then elim r.source.blob_offset [ none ↦ [] | some offset ↦ shows offset ]
    else []

-- `static_cast<std::uint32_t>` of an `int32_t`.
unfoldable pub u32_of_int : ℤ → ℕ
u32_of_int (pos n) = n % u32_mod
u32_of_int (negsuc n) = u32_mod - 1 - n % u32_mod

-- `TryEncodeRelocationValue`
unfoldable pub try_encode_relocation_value : Relocation → ℕ → ℕ → Option ℕ
unfolding try_add_address u32_of_int
try_encode_relocation_value r absolute_value blob_base =
    if text_eq r.encoding (codes "abs32")
    then (if ltb (u32_mod - 1) absolute_value then none else some absolute_value)
    else if text_eq r.encoding (codes "rel32")
    then elim (try_add_address blob_base r.offset) [
      | none ↦ none
      | some patch_address ↦ elim (try_add_address patch_address 4) [
        | none ↦ none
        | some next_address ↦
            let displacement = pos absolute_value -ℤ pos next_address in
            if ltb_ℤ displacement (negsuc (2 ^ 31 - 1)) || ltb_ℤ (pos (2 ^ 31 - 1)) displacement
            then none
            else some (u32_of_int displacement)
      ]
    ]
    else none

-- The bytes of a word, the lowest first.
abbrev pub word_bytes : ℕ → Bytes
word_bytes n = n % 256 ∷ n / 256 % 256 ∷ n / 65536 % 256 ∷ n / 16777216 % 256 ∷ []

-- `memcpy` into the blob.
unfoldable pub overwrite : ℕ → Bytes → Bytes → Bytes
overwrite i bytes blob = take i blob ++ (bytes ++ drop (i + length bytes) blob)

module _ (fl : Floats) (exports : Text → Text → Option ℕ) (shows : ℕ → Text) where
  -- One round of the loop of `ApplyRelocations`: the value to write, if the round goes through.
  unfoldable pub encoded : Bytes → Relocation → Place → Store fl → Option (ℕ × ℕ)
  unfolding can_write_relocation try_resolve_source_address try_encode_relocation_value
  encoded blob r place values =
      if not (can_write_relocation blob r)
      then none
      else elim (try_resolve_source_address fl exports r place values) [
        | none ↦ none
        | some absolute_value ↦
            elim (try_encode_relocation_value r absolute_value place.blob_base) [
              | none ↦ none
              | some encoded_value ↦ some (absolute_value, encoded_value)
            ]
      ]

  unfoldable pub view : Relocation → ℕ → Applied
  unfolding build_source_label
  view r absolute_value = record {
    offset = r.offset;
    encoding = r.encoding;
    source_kind = r.source.kind;
    source_label = build_source_label shows r;
    resolved_address = absolute_value;
  }

  -- `ApplyRelocations`, with the views of the relocations that it has applied. Where it answers false,
  -- the blob keeps what was written before.
  unfoldable pub apply_relocations :
      List Relocation → Place → Store fl → Bytes → Bool × (Bytes × List Applied)
  unfolding encoded overwrite view
  apply_relocations [] place values blob = (true, (blob, []))
  apply_relocations (r ∷ rs) place values blob = elim (encoded blob r place values) [
    | none ↦ (false, (blob, []))
    | some (absolute_value, encoded_value) ↦
        let rest =
          apply_relocations rs place values (overwrite r.offset (word_bytes encoded_value) blob) in
        (rest.0, (rest.1.0, view r absolute_value ∷ rest.1.1))
  ]
