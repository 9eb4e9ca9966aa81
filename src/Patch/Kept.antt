-- ===== src/Patch/Kept.antt =====
-- MemoryPatch.cpp: what a patch that owns memory holds on to, and that `Write` keeps it.
use helen_gamehook.Common.Words.{Bytes}
use helen_gamehook.Common.{
  ℕ, ◌≡◌, ◌≢◌, inl, inr, refl, ◌∙◌, true, false, List, length, Option, none, some, arith, subst,
  Option-cases,
}
use helen_gamehook.Patch.Laws.{Documented}
use helen_gamehook.Patch.Memory.{write_memory-write_memory}
use helen_gamehook.Patch.Protection.{
  Remember, IsKept, Remember-unprotect, IsKept-unprotect, Remember-restore_protections,
  IsKept-restore_protections, restore_protections-protection, restore_protections-frame,
}
use helen_gamehook.Patch.Operations.{After, copy_and_restore, write}
use helen_gamehook.Patch.{
  Windows, Process, Patch, Region, PatchResult, no_result, unprotect, restore_protections,
  write_memory,
}

module _ (w : Windows) (docs : Documented w) where
  open w use {K, protection}

  -- The memory and the protections of `m` at an address and a page are those of `m₀`.
  abbrev pub IsSameAt : Process w → Process w → ℕ → ℕ → Type 0
  IsSameAt m₀ m x q = (m.memory x ≡ m₀.memory x) × (protection m.pages q ≡ protection m₀.pages q)

  -- The patch over `m` can bring back `m₀`: with its saved bytes copied to its address the memory
  -- is that of `m₀`, and with its open regions closed the protections are.
  pub record Owned (m₀ m : Process w) (p : Patch) : Type 0 where
    pub saved : (x : ℕ) → write_memory m.memory p.address p.original_bytes x ≡ m₀.memory x
    pub remembers : Remember w docs m₀.pages p.regions
    pub kept : (q : ℕ) → IsKept w docs m₀.pages m.pages p.regions q

  Owned-restored :
      (m₀ : Process w) (memory : ℕ → ℕ) (p : Patch) (k : K) (result last : PatchResult)
      → ((x : ℕ) → write_memory memory p.address p.original_bytes x ≡ m₀.memory x)
      → Remember w docs m₀.pages p.regions
      → ((q : ℕ) → IsKept w docs m₀.pages k p.regions q)
      → let restored = restore_protections w k p.regions result in
        Owned m₀
          (record { memory = memory; pages = restored.0 })
          (record p { regions = restored.1; last_result = last })
  Owned-restored m₀ memory p k result last saved remembers kept = record {
    saved = saved;
    remembers = Remember-restore_protections w docs m₀.pages k p.regions result remembers;
    kept = λ q. IsKept-restore_protections w docs m₀.pages k p.regions result q remembers (kept q);
  }

  module _ (m₀ m : Process w) (p : Patch) (bytes : Bytes) where
    Owned-copy_and_restore :
        Owned m₀ m p
        → length bytes ≡ length p.original_bytes
        → let after = copy_and_restore w m p bytes in Owned m₀ after.process after.patch
    unfolding copy_and_restore
    Owned-copy_and_restore own fits =
        let flushed = w.flush_instruction_cache m.pages p.address (length p.original_bytes) in
        Owned-restored m₀ _ p flushed.1 _ _
          (λ x.
            write_memory-write_memory m.memory p.address bytes p.original_bytes x fits
            ∙ own.saved x)
          own.remembers
          (λ q.
            ground (arith, own.kept q, docs.flushes m.pages p.address (length p.original_bytes) q))

  -- the two ways that `Write` goes
  module _ (m : Process w) (p : Patch) (bytes : Bytes) where
    copy_and_restore-bytes_written :
        (copy_and_restore w m p bytes).patch.last_result.bytes_written ≡ true
    unfolding copy_and_restore
    copy_and_restore-bytes_written =
        let flushed = w.flush_instruction_cache m.pages p.address (length p.original_bytes) in
        (restore_protections-frame w docs flushed.1 p.regions _).1

    abbrev unprotected : K × List Region × Option ℕ
    unprotected = unprotect w m.pages p.regions

    pub write-none :
        unprotected.2 ≡ none
        → write w m p bytes
          ≡ copy_and_restore w
              (record m { pages = unprotected.0 })
              (record p { regions = unprotected.1 })
              bytes
    unfolding write
    write-none h = ground (arith, h)

    pub write-some :
        {e : ℕ}
        → unprotected.2 ≡ some e
        → write w m p bytes ≡ (
            let restored =
              restore_protections w unprotected.0 unprotected.1
                (record no_result { access_error = e }) in
            record {
              process = record m { pages = restored.0 };
              patch = record p { regions = restored.1; last_result = restored.2 };
            })
    unfolding write
    write-some h = ground (arith, h)

    write-some-completed :
        {e : ℕ} → unprotected.2 ≡ some e → (write w m p bytes).patch.last_result.completed ≢ true
    write-some-completed {e} refused ok = ground (
      arith,
      ok,
      write-some refused,
      (restore_protections-frame w docs unprotected.0 unprotected.1
          (record no_result { access_error = e })).2,
    )

  pub Owned-write :
      (m₀ m : Process w) (p : Patch) (bytes : Bytes)
      → Owned m₀ m p
      → length bytes ≡ length p.original_bytes
      → Owned m₀ (write w m p bytes).process (write w m p bytes).patch
  Owned-write m₀ m p bytes own fits =
      let remembers = Remember-unprotect w docs m₀.pages m.pages p.regions own.remembers in
      let kept = λ (q : ℕ). IsKept-unprotect w docs m₀.pages m.pages p.regions q (own.kept q) in
      elim (Option-cases (unprotected m p bytes).2) [
        | inl e ↦ rw (write-none m p bytes e) (
            Owned-copy_and_restore m₀ _ _ bytes
              (record { saved = own.saved; remembers = remembers; kept = kept }) fits)
        | inr (x, e) ↦ rw (write-some m p bytes e) (
            Owned-restored m₀ m.memory (record p { regions = (unprotected m p bytes).1 }) _ _ _
              own.saved remembers kept)
      ]

  module _ (m₀ m : Process w) (p : Patch) (bytes : Bytes) (x q : ℕ) where
    -- A write says that it completed: the bytes are there, and every protection is back.
    copy_and_restore-completed :
        Owned m₀ m p
        → (copy_and_restore w m p bytes).patch.last_result.completed ≡ true
        → ((copy_and_restore w m p bytes).process.memory x
            ≡ write_memory m.memory p.address bytes x)
          × (protection (copy_and_restore w m p bytes).process.pages q ≡ protection m₀.pages q)
    unfolding copy_and_restore
    copy_and_restore-completed own ok =
        let flushed = w.flush_instruction_cache m.pages p.address (length p.original_bytes) in
        (
          refl,
          restore_protections-protection w docs m₀.pages flushed.1 p.regions _ q own.remembers
              (ground
                (arith, own.kept q, docs.flushes m.pages p.address (length p.original_bytes) q))
              (ground (arith, ok)),
        )

  module _ (m₀ m : Process w) (p : Patch) (bytes : Bytes) (x q : ℕ) (own : Owned m₀ m p) where
    own' :
        Owned m₀
          (record m { pages = (unprotected m p bytes).0 })
          (record p { regions = (unprotected m p bytes).1 })
    own' = record {
      saved = own.saved;
      remembers = Remember-unprotect w docs m₀.pages m.pages p.regions own.remembers;
      kept = λ q. IsKept-unprotect w docs m₀.pages m.pages p.regions q (own.kept q);
    }

    pub write-completed :
        (write w m p bytes).patch.last_result.completed ≡ true
        → ((write w m p bytes).process.memory x ≡ write_memory m.memory p.address bytes x)
          × (protection (write w m p bytes).process.pages q ≡ protection m₀.pages q)
    write-completed ok = elim (Option-cases (unprotected m p bytes).2) [
      | inl e ↦ rw (write-none m p bytes e) (
          copy_and_restore-completed m₀ _ _ bytes x q own' (
            subst (λ (a : After w). a.patch.last_result.completed ≡ true) (write-none m p bytes e)
              ok))
      | inr (n, e) ↦ absurd (write-some-completed m p bytes e ok)
    ]

    pub write-bytes_written :
        (write w m p bytes).patch.last_result.completed ≡ true
        → (write w m p bytes).patch.last_result.bytes_written ≡ true
    write-bytes_written ok = elim (Option-cases (unprotected m p bytes).2) [
      | inl e ↦ rw (write-none m p bytes e) (copy_and_restore-bytes_written _ _ bytes)
      | inr (n, e) ↦ absurd (write-some-completed m p bytes e ok)
    ]

    -- A write that wrote nothing and left no protection open has changed nothing.
    pub write-unwritten :
        (write w m p bytes).patch.last_result.bytes_written ≡ false
        → (write w m p bytes).patch.last_result.protection_error ≡ 0
        → ((write w m p bytes).process.memory x ≡ m.memory x)
          × (protection (write w m p bytes).process.pages q ≡ protection m₀.pages q)
    write-unwritten nothing closed = elim (Option-cases (unprotected m p bytes).2) [
      | inl e ↦ absurd (
          ground (
            arith,
            nothing,
            write-none m p bytes e,
            copy_and_restore-bytes_written (record m { pages = (unprotected m p bytes).0 })
                (record p { regions = (unprotected m p bytes).1 }) bytes,
          ))
      | inr (n, e) ↦ rw (write-some m p bytes e) (
        refl,
        restore_protections-protection w docs m₀.pages _ _ _ q own'.remembers (own'.kept q)
            (ground (arith, closed, write-some m p bytes e)),
      )
    ]
