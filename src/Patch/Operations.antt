-- ===== src/Patch/Operations.antt =====
-- HelenRuntime/MemoryPatch.cpp: the operations of a patch.
use helen_gamehook.Common.Words.{Bytes}
use helen_gamehook.Common.{
  ℕ, ◌+◌, true, false, not, ◌&&◌, ◌==◌, length, Option, none, some, if◌then◌else◌,
}
use helen_gamehook.Patch.{
  Windows, no_result, Patch, has_ownership, clear, error_busy, error_invalid_parameter, read_memory,
  write_memory, is_bad_range, bytes_of, Process, collect_regions, unprotect, restore_protections,
}

module _ (w : Windows) where
  open w use {K}

  -- What a call leaves behind: the process and the patch, whose `last_result` it returns.
  pub record After : Type 0 where
    pub process : Process w
    pub patch : Patch

  -- the rest of `Write` once every region is writable
  unfoldable pub copy_and_restore : Process w → Patch → Bytes → After
  unfolding write_memory
  copy_and_restore m p bytes =
      let memory = write_memory m.memory p.address bytes in
      let flushed = w.flush_instruction_cache m.pages p.address (length p.original_bytes) in
      let flush_error : ℕ = elim flushed.0 [ none ↦ 0 | some e ↦ e ] in
      let restored =
        restore_protections w flushed.1 p.regions
          (record no_result { bytes_written = true; flush_error = flush_error }) in
      let result = restored.2 in
      record {
        process = record { memory = memory; pages = restored.0 };
        patch = record p {
          regions = restored.1;
          last_result = record result {
            completed = result.flush_error == 0 && result.protection_error == 0;
          };
        };
      }

  -- `Write`, whose result is stored as the last one by both callers
  unfoldable pub write : Process w → Patch → Bytes → After
  unfolding unprotect restore_protections copy_and_restore
  write m p bytes =
      let (k, rs, refused) = unprotect w m.pages p.regions in
      elim refused [
        | some e ↦
            let restored = restore_protections w k rs (record no_result { access_error = e }) in
            record {
              process = record m { pages = restored.0 };
              patch = record p { regions = restored.1; last_result = restored.2 };
            }
        | none ↦ copy_and_restore (record m { pages = k }) (record p { regions = rs }) bytes
      ]

  abbrev refuse : Process w → Patch → ℕ → After
  refuse m p e = record {
    process = m;
    patch = record p { last_result = record no_result { access_error = e } };
  }

  -- the end of `Apply`: the write, and a patch that owns nothing where nothing was changed
  unfoldable pub apply_write : Process w → Patch → Bytes → After
  unfolding write clear
  apply_write m p bytes =
      let after = write m p bytes in
      let result = after.patch.last_result in
      let patch = record after.patch { applied = result.completed } in
      record {
        process = after.process;
        patch =
            if not result.bytes_written && result.protection_error == 0 then clear patch else patch;
      }

  -- `Apply`; `source` is none for a null pointer, and else holds `size` bytes.
  unfoldable pub apply : Process w → Patch → ℕ → Option Bytes → After
  unfolding has_ownership collect_regions apply_write read_memory
  apply m p address source = elim (has_ownership p) [
    | true ↦ refuse m p error_busy
    | false ↦ elim (is_bad_range address source) [
      | true ↦ refuse m p error_invalid_parameter
      | false ↦
          let size = length (bytes_of source) in
          let collected = collect_regions w size m.pages address (address + size) in
          elim collected.1 [
            | some e ↦ refuse m (record p { regions = collected.0 }) e
            | none ↦
                apply_write m
                  (record p {
                    address = address;
                    original_bytes = read_memory m.memory address size;
                    regions = collected.0;
                    last_result = no_result;
                  })
                  (bytes_of source)
          ]
    ]
  ]

  unfoldable pub restore : Process w → Patch → After
  unfolding has_ownership write clear
  restore m p = elim (has_ownership p) [
    | false ↦ record {
      process = m;
      patch = record p { last_result = record no_result { completed = true } };
    }
    | true ↦
        let after = write m (record p { applied = false }) p.original_bytes in
        record {
          process = after.process;
          patch = if after.patch.last_result.completed then clear after.patch else after.patch;
        }
  ]

  -- The destructor: the process goes on, unless it is stopped.
  unfoldable pub destroy : Process w → Patch → Option (Process w)
  unfolding has_ownership restore
  destroy m p =
      let after = restore m p in
      if has_ownership p && not after.patch.last_result.completed then none else some after.process
