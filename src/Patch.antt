-- ===== src/Patch.antt =====
-- HelenRuntime/MemoryPatch.cpp: bytes written over read-only code, and taken back.
pub mod Operations
pub mod Protection
pub mod Kept
pub mod Laws
pub mod Memory
pub mod Collected
pub mod Applied
pub mod Holding
pub mod Restored
use helen_gamehook.Common.Words.{Bytes, u32_mod}
use helen_gamehook.Common.{
  ℕ, zero, suc, ◌+◌, ◌-◌, ◌/◌, ◌%◌, ◌≡◌, ◌≢◌, ◌≤◌, ◌<◌, min, Bool, true, false, not, ◌||◌, ◌&&◌,
  ltb, leb, ◌==◌, List, [], ◌∷◌, length, Option, none, some, if◌then◌else◌,
}
use helen_gamehook.Common.Results.{Result, ok, err}

-- `MEMORY_BASIC_INFORMATION`
pub record Info : Type 0 where
  pub base_address : ℕ
  pub region_size : ℕ
  pub state : ℕ
  pub protect : ℕ

-- The calls into Windows, over its page tables `K`. A failed call gives what `GetLastError`
-- returns behind it. Pages have 4096 bytes.
pub record Windows : Type 1 where
  pub K : Type 0
  pub protection : K → ℕ → ℕ
  pub virtual_query : K → ℕ → Result ℕ Info
  pub virtual_protect : K → ℕ → ℕ → ℕ → Option ℕ × K
  pub flush_instruction_cache : K → ℕ → ℕ → Option ℕ × K

-- The page `p` holds one of the `n` bytes from `a` on.
abbrev pub touches : ℕ → ℕ → ℕ → Bool
touches a n p = leb (a / 4096) p && leb p ((a + n - 1) / 4096)

-- `MemoryPatchResult`
pub record PatchResult : Type 0 where
  pub completed : Bool
  pub bytes_written : Bool
  pub access_error : ℕ
  pub flush_error : ℕ
  pub protection_error : ℕ

abbrev pub no_result : PatchResult
no_result = record {
  completed = false;
  bytes_written = false;
  access_error = 0;
  flush_error = 0;
  protection_error = 0;
}

-- `MemoryProtectionRegion`
pub record Region : Type 0 where
  pub address : ℕ
  pub size : ℕ
  pub protection : ℕ
  pub changed : Bool

-- `MemoryPatch`; the null address is 0.
pub record Patch : Type 0 where
  pub address : ℕ
  pub original_bytes : Bytes
  pub regions : List Region
  pub last_result : PatchResult
  pub applied : Bool

abbrev pub new_patch : Patch
new_patch = record {
  address = 0;
  original_bytes = [];
  regions = [];
  last_result = no_result;
  applied = false;
}

unfoldable pub has_ownership : Patch → Bool
has_ownership p = not (p.address == 0)

unfoldable pub clear : Patch → Patch
clear p = record p { address = 0; applied = false; original_bytes = []; regions = [] }

abbrev pub error_busy : ℕ
error_busy = 170

abbrev pub error_invalid_parameter : ℕ
error_invalid_parameter = 87

abbrev pub error_noaccess : ℕ
error_noaccess = 998

abbrev pub page_execute_readwrite : ℕ
page_execute_readwrite = 0x40

-- The access test of the loop of `Apply`: committed, no guard page, and a readable protection.
unfoldable pub is_accessible : Info → Bool
is_accessible info =
    let access = info.protect % 256 in
    info.state == 0x1000
    && info.protect / 256 % 2 == 0
    && (access == 0x02
        || access == 0x04
        || access == 0x08
        || access == 0x20
        || access == 0x40
        || access == 0x80)

-- `count` bytes of memory from an address on, and memory with bytes copied to an address
unfoldable pub read_memory : (ℕ → ℕ) → ℕ → ℕ → Bytes
read_memory memory a zero = []
read_memory memory a (suc count) = memory a ∷ read_memory memory (a + 1) count

unfoldable pub write_memory : (ℕ → ℕ) → ℕ → Bytes → ℕ → ℕ
write_memory memory a [] x = memory x
write_memory memory a (b ∷ bytes) x = if x == a then b else write_memory memory (a + 1) bytes x

-- The first error is the one that the result reports.
abbrev pub note_error : Option ℕ → PatchResult → PatchResult
note_error none result = result
note_error (some e) result = record result {
  protection_error = if result.protection_error == 0 then e else result.protection_error;
}

abbrev pub is_none : Option ℕ → Bool
is_none none = true
is_none (some _) = false

abbrev pub is_bad_range : ℕ → Option Bytes → Bool
is_bad_range address none = true
is_bad_range address (some bytes) =
    address == 0 || length bytes == 0 || ltb (u32_mod - 1 - address) (length bytes)

abbrev pub bytes_of : Option Bytes → Bytes
bytes_of none = []
bytes_of (some bytes) = bytes

unfoldable pub commit : Patch → Bool × Patch
unfolding has_ownership clear
commit p = if not (has_ownership p) || not p.applied then (false, p) else (true, clear p)

module _ (w : Windows) where
  open w use {K}

  -- The process: its memory, and the page tables behind the calls.
  pub record Process : Type 0 where
    pub memory : ℕ → ℕ
    pub pages : K

  -- The loop of `Apply` that collects the regions, and the error that ends it. Each round leaves
  -- the cursor further on, since a region that `VirtualQuery` describes holds the cursor.
  unfoldable pub collect_regions : (fuel : ℕ) → K → (cursor end : ℕ) → List Region × Option ℕ
  unfolding is_accessible
  collect_regions zero k cursor end = ([], none)
  collect_regions (suc fuel) k cursor end = elim (ltb cursor end) [
    | false ↦ ([], none)
    | true ↦ elim (w.virtual_query k cursor) [
      | err e ↦ ([], some e)
      | ok info ↦ elim (is_accessible info) [
        | false ↦ ([], some error_noaccess)
        | true ↦
            let available = info.region_size - (cursor - info.base_address) in
            let count = min available (end - cursor) in
            let rest = collect_regions fuel k (cursor + count) end in
            (
              record { address = cursor; size = count; protection = info.protect; changed = false }
                  ∷ rest.0,
              rest.1,
            )
      ]
    ]
  ]

  -- the first loop of `Write`, up to the first refusal
  unfoldable pub unprotect : K → List Region → K × List Region × Option ℕ
  unprotect k [] = (k, [], none)
  unprotect k (r ∷ rs) =
      let answer = w.virtual_protect k r.address r.size page_execute_readwrite in
      elim answer.0 [
        | some e ↦ (answer.1, r ∷ rs, some e)
        | none ↦
            let rest = unprotect answer.1 rs in
            (rest.0, record r { changed = true } ∷ rest.1, rest.2)
      ]

  unfoldable pub restore_protections : K → List Region → PatchResult → K × List Region × PatchResult
  restore_protections k [] result = (k, [], result)
  restore_protections k (r ∷ rs) result = elim r.changed [
    | false ↦ let rest = restore_protections k rs result in (rest.0, r ∷ rest.1, rest.2)
    | true ↦
        let answer = w.virtual_protect k r.address r.size r.protection in
        let rest = restore_protections answer.1 rs (note_error answer.0 result) in
        (rest.0, record r { changed = not (is_none answer.0) } ∷ rest.1, rest.2)
  ]
