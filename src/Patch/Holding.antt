-- ===== src/Patch/Holding.antt =====
-- MemoryPatch.cpp: `Restore` brings the process back, or goes on holding what it takes to.
use helen_gamehook.Common.Words.{Bytes}
use helen_gamehook.Common.{
  ℕ, ◌≡◌, ◌⊎◌, inl, inr, refl, ◌∙◌, Bool, true, false, if◌then◌else◌, arith, Bool-cases,
  Option-cases,
}
use helen_gamehook.Patch.Kept.{IsSameAt, Owned, Owned-write, write-completed}
use helen_gamehook.Patch.Laws.{Documented}
use helen_gamehook.Patch.Operations.{After, write, restore, copy_and_restore}
use helen_gamehook.Patch.{Windows, Process, Patch, has_ownership, clear, unprotect}

module _ (w : Windows) (docs : Documented w) where
  -- Either the patch owns nothing and the process is as before, or it can bring that back.
  abbrev pub Holds : Process w → After w → Type 0
  Holds m₀ a =
      ((has_ownership a.patch ≡ false) × ((x q : ℕ) → IsSameAt w docs m₀ a.process x q))
      ⊎ ((has_ownership a.patch ≡ true) × Owned w docs m₀ a.process a.patch)

  module _ (m : Process w) (p : Patch) where
    abbrev written : After w
    written = write w m (record p { applied = false }) p.original_bytes

    restore-unowned : has_ownership p ≡ false → (restore w m p).process ≡ m
    unfolding restore
    restore-unowned h = ground (arith, h)

    restore-unowned_patch : has_ownership p ≡ false → has_ownership (restore w m p).patch ≡ false
    unfolding restore
    restore-unowned_patch h = ground (arith, h)

    restore-owned :
        has_ownership p ≡ true
        → restore w m p ≡ record {
          process = written.process;
          patch =
              if written.patch.last_result.completed then clear written.patch else written.patch;
        }
    unfolding restore
    restore-owned h = ground (arith, h)

  pub Owned-applied :
      (m₀ m : Process w) (p : Patch) (b : Bool)
      → Owned w docs m₀ m p
      → Owned w docs m₀ m (record p { applied = b })
  Owned-applied m₀ m p b own = record {
    saved = own.saved;
    remembers = own.remembers;
    kept = own.kept;
  }

  pub clear-has_ownership : (p : Patch) → has_ownership (clear p) ≡ false
  unfolding has_ownership clear
  clear-has_ownership p = refl

  module _ (m : Process w) (p : Patch) (bytes : Bytes) where
    pub write-address : (write w m p bytes).patch.address ≡ p.address
    unfolding write copy_and_restore
    write-address = ground (arith, Option-cases (unprotect w m.pages p.regions).2)

    pub write-has_ownership : has_ownership (write w m p bytes).patch ≡ has_ownership p
    unfolding has_ownership
    write-has_ownership = rw write-address refl

  module _ (m₀ m : Process w) (p : Patch) (o : has_ownership p ≡ true)
      (own : Owned w docs m₀ m p) where
    restored_now :
        (written m p).patch.last_result.completed ≡ true
        → (x q : ℕ) → IsSameAt w docs m₀ (written m p).process x q
    restored_now done x q =
        let after =
          write-completed w docs m₀ m (record p { applied = false }) p.original_bytes x q
            (Owned-applied m₀ m p false own) done in
        (after.0 ∙ own.saved x, after.1)

    restore-owned-Holds : Holds m₀ (restore w m p)
    restore-owned-Holds = elim (Bool-cases (written m p).patch.last_result.completed) [
      | inl done ↦ inl (
        rw (restore-owned m p o, done) (clear-has_ownership _),
        rw (restore-owned m p o) (restored_now done),
      )
      | inr failed ↦ inr (
        rw (restore-owned m p o, failed)
            (unfold has_ownership in
              write-has_ownership m (record p { applied = false }) p.original_bytes ∙ o),
        rw (restore-owned m p o, failed)
            (Owned-write w docs m₀ m (record p { applied = false }) p.original_bytes
              (Owned-applied m₀ m p false own) refl),
      )
    ]

  pub restore-Holds :
      (m₀ m : Process w) (p : Patch)
      → Holds m₀ (record { process = m; patch = p })
      → Holds m₀ (restore w m p)
  restore-Holds m₀ m p (inl (u, same)) =
      inl (restore-unowned_patch m p u, λ x q. rw (restore-unowned m p u) (same x q))
  restore-Holds m₀ m p (inr (o, own)) = restore-owned-Holds m₀ m p o own

  pub restore-completed :
      (m : Process w) (p : Patch)
      → (restore w m p).patch.last_result.completed ≡ true
      → has_ownership (restore w m p).patch ≡ false
  unfolding restore has_ownership clear
  restore-completed m p done = ground (arith, done)
