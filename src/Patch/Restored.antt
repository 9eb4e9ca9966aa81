-- ===== src/Patch/Restored.antt =====
-- MemoryPatch.cpp: from a patch's `Apply` to the `Restore` that completes.
use helen_gamehook.Common.Words.{Bytes}
use helen_gamehook.Common.{ℕ, zero, suc, ◌≡◌, inl, inr, true, false, Option, arith}
use helen_gamehook.Patch.Applied.{apply-Holds}
use helen_gamehook.Patch.Holding.{Holds, restore-Holds, restore-completed}
use helen_gamehook.Patch.Laws.{Documented}
use helen_gamehook.Patch.Operations.{After, apply, restore}
use helen_gamehook.Patch.{Windows, Process, Patch, has_ownership}

module _ (w : Windows) (docs : Documented w) where
  -- `Restore`, called again and again
  unfoldable pub restores : ℕ → After w → After w
  restores zero a = a
  restores (suc n) a = restores n (restore w a.process a.patch)

  restores-Holds :
      (m₀ : Process w) (n : ℕ) (a : After w) → Holds w docs m₀ a → Holds w docs m₀ (restores n a)
  unfolding restores
  restores-Holds m₀ zero a h = h
  restores-Holds m₀ (suc n) a h =
      restores-Holds m₀ n _ (restore-Holds w docs m₀ a.process a.patch h)

  -- A patch that owns nothing is applied, whatever comes of it, and `Restore` is called any number
  -- of times, whatever comes of that. If a further `Restore` answers that it completed, every byte
  -- of memory and the protection of every page are what they were before the `Apply`, and the
  -- patch owns nothing.
  pub restore-apply :
      (m : Process w) (p : Patch) (address : ℕ) (source : Option Bytes) (n x q : ℕ)
      → has_ownership p ≡ false
      → let a = restores n (apply w m p address source) in
        (restore w a.process a.patch).patch.last_result.completed ≡ true
        → let a = restores n (apply w m p address source) in
          let r = restore w a.process a.patch in
          (has_ownership r.patch ≡ false)
          × (r.process.memory x ≡ m.memory x)
          × (w.protection r.process.pages q ≡ w.protection m.pages q)
  restore-apply m p address source n x q free done =
      let a = restores n (apply w m p address source) in
      let u = restore-completed w docs a.process a.patch done in
      elim (restore-Holds w docs m a.process a.patch
        (restores-Holds m n _ (apply-Holds w docs m p address source free))) [
          | inl (_, same) ↦ (u, (same x q).0, (same x q).1)
          | inr (o, _) ↦ absurd (ground (arith, o, u))
        ]
