-- ===== src/Patch/Applied.antt =====
-- MemoryPatch.cpp: how `Apply` ends.
use helen_gamehook.Common.Words.{Bytes}
use helen_gamehook.Common.{
  ℕ, ◌+◌, ◌≡◌, ◌⊎◌, inl, inr, refl, ◌∙◌, true, false, not, ◌&&◌, ◌==◌, List, length, Option, none,
  some, sym, arith, Bool-cases, Option-cases, subst,
}
use helen_gamehook.Patch.Collected.{Remember-collect_regions}
use helen_gamehook.Patch.Kept.{
  IsSameAt, Owned, Owned-write, write-completed, write-bytes_written, write-unwritten,
}
use helen_gamehook.Patch.Holding.{
  Holds, Owned-applied, clear-has_ownership, write-has_ownership, write-address,
}
use helen_gamehook.Patch.Laws.{Documented}
use helen_gamehook.Patch.Memory.{write_memory-read_memory, length-read_memory}
use helen_gamehook.Patch.Operations.{write, apply_write, apply}
use helen_gamehook.Patch.{
  Windows, Process, Patch, Region, no_result, PatchResult, has_ownership, clear, commit,
  read_memory, write_memory, collect_regions, is_bad_range, bytes_of,
}

module _ (w : Windows) (docs : Documented w) where
  module _ (m : Process w) (p : Patch) (address : ℕ) (bytes : Bytes) where
    abbrev size : ℕ
    size = length bytes

    abbrev collected : List Region × Option ℕ
    collected = collect_regions w size m.pages address (address + size)

    -- the patch that `Apply` hands to `Write`
    abbrev captured : Patch
    captured = record p {
      address = address;
      original_bytes = read_memory m.memory address size;
      regions = collected.0;
      last_result = no_result;
    }

    Owned-captured : Owned w docs m m captured
    Owned-captured = record {
      saved = λ x. write_memory-read_memory m.memory address size x;
      remembers = Remember-collect_regions w docs size m.pages address (address + size);
      kept = λ q. inr refl;
    }

    Owned-written :
        Owned w docs m (write w m captured bytes).process (write w m captured bytes).patch
    Owned-written =
        Owned-write w docs m m captured bytes Owned-captured
          (sym (length-read_memory m.memory address size))

    apply_write-Holds :
        has_ownership captured ≡ true → Holds w docs m (apply_write w m captured bytes)
    unfolding apply_write
    apply_write-Holds o =
        elim (Bool-cases (not result.bytes_written && result.protection_error == 0)) [
          | inl unchanged ↦ inl (
            rw unchanged (clear-has_ownership w docs (write w m captured bytes).patch),
            λ x q.
                write-unwritten w docs m m captured bytes x q Owned-captured
                  (ground (arith, unchanged)) (ground (arith, unchanged)),
          )
          | inr owned ↦ inr (
            rw owned (unfold has_ownership in write-has_ownership w docs m captured bytes ∙ o),
            rw owned (Owned-applied w docs m _ _ _ Owned-written),
          )
        ]
      where
        result : PatchResult
        result = (write w m captured bytes).patch.last_result

  -- How `Apply` goes: it is refused, or it writes.
  apply_cases :
      (m : Process w) (p : Patch) (address : ℕ) (source : Option Bytes)
      → has_ownership p ≡ false
      → ((apply w m p address source).process ≡ m)
          × (has_ownership (apply w m p address source).patch ≡ false)
          × ((apply w m p address source).patch.last_result.completed ≡ false)
        ⊎ ((bytes : Bytes) × (source ≡ some bytes)
            × (is_bad_range address source ≡ false)
            × ((collected m p address bytes).1 ≡ none)
            × (apply w m p address source ≡ apply_write w m (captured m p address bytes) bytes))
  unfolding apply has_ownership
  apply_cases m p address none free = inl (ground arith)
  apply_cases m p address (some bytes) free =
      elim (Bool-cases (is_bad_range address (some bytes))) [
        | inl bad ↦ inl (ground arith)
        | inr good ↦ elim (Option-cases (collected m p address bytes).1) [
          | inl e ↦ inr (bytes, refl, good, e, ground arith)
          | inr (x, e) ↦ inl (ground arith)
        ]
      ]

  captured-has_ownership :
      (m : Process w) (p : Patch) (address : ℕ) (bytes : Bytes)
      → is_bad_range address (some bytes) ≡ false
      → has_ownership (captured m p address bytes) ≡ true
  unfolding has_ownership
  captured-has_ownership m p address bytes good = ground arith

  pub apply-Holds :
      (m : Process w) (p : Patch) (address : ℕ) (source : Option Bytes)
      → has_ownership p ≡ false
      → Holds w docs m (apply w m p address source)
  apply-Holds m p address source free = elim (apply_cases m p address source free) [
    | inl (same, u, _) ↦ inl (u, λ x q. rw same (refl, refl))
    | inr (bytes, e, good, _, eq) ↦
        let good' = subst (λ (o : Option Bytes). is_bad_range address o ≡ false) e good in
        rw eq (apply_write-Holds m p address bytes (captured-has_ownership m p address bytes good'))
  ]

  apply-unowned :
      (m : Process w) (p : Patch) (address : ℕ) (source : Option Bytes) (x q : ℕ)
      → has_ownership p ≡ false
      → let a = apply w m p address source in
        (has_ownership a.patch ≡ true) ⊎ IsSameAt w docs m a.process x q
  apply-unowned m p address source x q free = elim (apply-Holds m p address source free) [
    | inl (_, same) ↦ inr (same x q)
    | inr (o, _) ↦ inl o
  ]

  apply_write-completed :
      (m : Process w) (p : Patch) (address : ℕ) (bytes : Bytes) (x q : ℕ)
      → is_bad_range address (some bytes) ≡ false
      → let a = apply_write w m (captured m p address bytes) bytes in
        (a.patch.last_result.completed ≡ false)
        ⊎ ((a.process.memory x ≡ write_memory m.memory address bytes x)
            × (w.protection a.process.pages q ≡ w.protection m.pages q)
            × ((commit a.patch).0 ≡ true))
  unfolding apply_write commit has_ownership clear
  apply_write-completed m p address bytes x q good =
      let c = captured m p address bytes in
      let done = (write w m c bytes).patch.last_result.completed in
      elim (Bool-cases done) [
        | inr failed ↦ inl (ground (arith, failed))
        | inl finished ↦
            let there =
              write-completed w docs m m c bytes x q (Owned-captured m p address bytes) finished in
            let written_bytes =
              write-bytes_written w docs m m c bytes x q (Owned-captured m p address bytes)
                finished in
            inr (
              there.0,
              there.1,
              ground (arith, finished, written_bytes, good, write-address w docs m c bytes),
            )
      ]

  apply-completed :
      (m : Process w) (p : Patch) (address : ℕ) (source : Option Bytes) (x q : ℕ)
      → has_ownership p ≡ false
      → let a = apply w m p address source in
        (a.patch.last_result.completed ≡ false)
        ⊎ ((a.process.memory x ≡ write_memory m.memory address (bytes_of source) x)
            × (w.protection a.process.pages q ≡ w.protection m.pages q)
            × ((commit a.patch).0 ≡ true))
  apply-completed m p address source x q free = elim (apply_cases m p address source free) [
    | inl (_, _, failed) ↦ inl failed
    | inr (bytes, e, good, _, eq) ↦
        let good' = subst (λ (o : Option Bytes). is_bad_range address o ≡ false) e good in
        rw (eq, e) (apply_write-completed m p address bytes x q good')
  ]

  -- An `Apply` that leaves a patch without ownership, where it owned nothing before, has changed
  -- no byte of memory and no protection; and one that answers that it completed has written the
  -- bytes that it was given at its address and nothing else, with every protection as before,
  -- and the patch owns them and may be committed.
  pub apply-Applied :
      (m : Process w) (p : Patch) (address : ℕ) (source : Option Bytes) (x q : ℕ)
      → has_ownership p ≡ false
      → let a = apply w m p address source in
        ((has_ownership a.patch ≡ true) ⊎ IsSameAt w docs m a.process x q)
        × ((a.patch.last_result.completed ≡ false)
            ⊎ ((a.process.memory x ≡ write_memory m.memory address (bytes_of source) x)
                × (w.protection a.process.pages q ≡ w.protection m.pages q)
                × ((commit a.patch).0 ≡ true)))
  apply-Applied m p address source x q free =
      (apply-unowned m p address source x q free, apply-completed m p address source x q free)
