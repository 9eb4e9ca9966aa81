-- ===== src/Patch/Protection.antt =====
-- MemoryPatch.cpp: the protections of a page while regions are opened and closed again.
use helen_gamehook.Common.{
  ℕ, ◌≡◌, ◌⊎◌, inl, inr, refl, Bool, true, false, not, ◌||◌, ◌&&◌, List, [], ◌∷◌, Option, none,
  some, arith, Bool-cases, Option-cases,
}
use helen_gamehook.Patch.Laws.{Documented}
use helen_gamehook.Patch.{
  Windows, Region, PatchResult, touches, unprotect, restore_protections, note_error, is_none,
  page_execute_readwrite,
}

-- Some region that is marked as changed holds a byte of the page.
abbrev pub is_open : List Region → ℕ → Bool
is_open [] p = false
is_open (r ∷ rs) p = (r.changed && touches r.address r.size p) || is_open rs p

module _ (w : Windows) (docs : Documented w) where
  open w use {K, protection}

  -- Each region remembers the protection that its pages have in the page tables `k₀`.
  abbrev pub Remember : K → List Region → Type 0
  Remember k₀ [] = Unit {0}
  Remember k₀ (r ∷ rs) =
      ((p : ℕ) → touches r.address r.size p ≡ true → protection k₀ p ≡ r.protection)
      × Remember k₀ rs

  module _ (k : K) (r : Region) (rs : List Region) where
    abbrev pub opened : Option ℕ × K
    opened = w.virtual_protect k r.address r.size page_execute_readwrite

    pub unprotect-none :
        opened.0 ≡ none
        → unprotect w k (r ∷ rs) ≡ (
            let rest = unprotect w opened.1 rs in
            (rest.0, record r { changed = true } ∷ rest.1, rest.2))
    unfolding unprotect
    unprotect-none h = ground (arith, h)

    pub unprotect-some :
        {e : ℕ} → opened.0 ≡ some e → unprotect w k (r ∷ rs) ≡ (opened.1, r ∷ rs, some e)
    unfolding unprotect
    unprotect-some h = ground (arith, h)

  pub Remember-unprotect :
      (k₀ k : K) (rs : List Region) → Remember k₀ rs → Remember k₀ (unprotect w k rs).1
  Remember-unprotect k₀ k [] h = unfold unprotect in tt
  Remember-unprotect k₀ k (r ∷ rs) h = elim (Option-cases (opened k r rs).0) [
    | inl e ↦ rw (unprotect-none k r rs e) (h.0, Remember-unprotect k₀ (opened k r rs).1 rs h.1)
    | inr (x, e) ↦ rw (unprotect-some k r rs e) h
  ]

  -- A page that no open region holds has the protection of the page tables `k₀`.
  abbrev pub IsKept : K → K → List Region → ℕ → Type 0
  IsKept k₀ k rs p = (is_open rs p ≡ true) ⊎ (protection k p ≡ protection k₀ p)

  pub IsKept-unprotect :
      (k₀ k : K) (rs : List Region) (p : ℕ)
      → IsKept k₀ k rs p
      → IsKept k₀ (unprotect w k rs).0 (unprotect w k rs).1 p
  IsKept-unprotect k₀ k [] p h = unfold unprotect in h
  IsKept-unprotect k₀ k (r ∷ rs) p h = elim (Option-cases (opened k r rs).0) [
    | inl e ↦ rw (unprotect-none k r rs e) ground (
      arith,
      docs.protects k r.address r.size page_execute_readwrite p e,
      IsKept-unprotect k₀ (opened k r rs).1 rs p,
    )
    | inr (x, e) ↦
        rw (unprotect-some k r rs e) ground
          (arith, docs.refuses k r.address r.size page_execute_readwrite p e)
  ]

  module _ (k : K) (r : Region) (rs : List Region) (result : PatchResult) where
    abbrev closed : Option ℕ × K
    closed = w.virtual_protect k r.address r.size r.protection

    restore_protections-false :
        r.changed ≡ false
        → restore_protections w k (r ∷ rs) result
          ≡ (let rest = restore_protections w k rs result in (rest.0, r ∷ rest.1, rest.2))
    unfolding restore_protections
    restore_protections-false h = ground (arith, h)

    restore_protections-true :
        r.changed ≡ true
        → restore_protections w k (r ∷ rs) result ≡ (
            let rest = restore_protections w closed.1 rs (note_error closed.0 result) in
            (rest.0, record r { changed = not (is_none closed.0) } ∷ rest.1, rest.2))
    unfolding restore_protections
    restore_protections-true h = ground (arith, h)

  pub Remember-restore_protections :
      (k₀ k : K) (rs : List Region) (result : PatchResult)
      → Remember k₀ rs
      → Remember k₀ (restore_protections w k rs result).1
  Remember-restore_protections k₀ k [] result h = unfold restore_protections in tt
  Remember-restore_protections k₀ k (r ∷ rs) result h = elim (Bool-cases r.changed) [
    | inl e ↦
        rw (restore_protections-true k r rs result e)
          (h.0, Remember-restore_protections k₀ (closed k r rs result).1 rs _ h.1)
    | inr e ↦
        rw (restore_protections-false k r rs result e)
          (h.0, Remember-restore_protections k₀ k rs result h.1)
  ]

  pub IsKept-restore_protections :
      (k₀ k : K) (rs : List Region) (result : PatchResult) (p : ℕ)
      → Remember k₀ rs
      → IsKept k₀ k rs p
      → IsKept k₀ (restore_protections w k rs result).0 (restore_protections w k rs result).1 p
  IsKept-restore_protections k₀ k [] result p g h = unfold restore_protections in h
  IsKept-restore_protections k₀ k (r ∷ rs) result p g h = elim (Bool-cases r.changed) [
    | inr e ↦
        rw (restore_protections-false k r rs result e) ground
          (arith, IsKept-restore_protections k₀ k rs result p g.1)
    | inl e ↦
        rw (restore_protections-true k r rs result e)
          (elim (Option-cases (closed k r rs result).0) [
            | inl f ↦ ground (
              arith,
              docs.protects k r.address r.size r.protection p f,
              g.0 p,
              IsKept-restore_protections k₀ (closed k r rs result).1 rs
                  (note_error (closed k r rs result).0 result) p g.1,
            )
            | inr (x, f) ↦ ground (
              arith,
              docs.refuses k r.address r.size r.protection p f,
              IsKept-restore_protections k₀ (closed k r rs result).1 rs
                  (note_error (closed k r rs result).0 result) p g.1,
            )
          ])
  ]

  -- Protections that were all given back: no region is open any more.
  pub restore_protections-is_open :
      (k : K) (rs : List Region) (result : PatchResult) (p : ℕ)
      → (restore_protections w k rs result).2.protection_error ≡ 0
      → (is_open (restore_protections w k rs result).1 p ≡ false) × (result.protection_error ≡ 0)
  restore_protections-is_open k [] result p h = unfold restore_protections in (refl, h)
  restore_protections-is_open k (r ∷ rs) result p h = elim (Bool-cases r.changed) [
    | inr e ↦ rw (restore_protections-false k r rs result e) ground (
      arith,
      restore_protections-is_open k rs result p,
      restore_protections-false k r rs result e,
    )
    | inl e ↦
        let result' = note_error (closed k r rs result).0 result in
        rw (restore_protections-true k r rs result e) ground (
          arith,
          restore_protections-is_open (closed k r rs result).1 rs result' p,
          docs.protect_error k r.address r.size r.protection,
          restore_protections-true k r rs result e,
        )
  ]

  pub restore_protections-protection :
      (k₀ k : K) (rs : List Region) (result : PatchResult) (p : ℕ)
      → Remember k₀ rs
      → IsKept k₀ k rs p
      → (restore_protections w k rs result).2.protection_error ≡ 0
      → protection (restore_protections w k rs result).0 p ≡ protection k₀ p
  restore_protections-protection k₀ k rs result p g h shut = ground (
    arith,
    IsKept-restore_protections k₀ k rs result p g h,
    (restore_protections-is_open k rs result p shut).0,
  )

  pub restore_protections-frame :
      (k : K) (rs : List Region) (result : PatchResult)
      → let after = (restore_protections w k rs result).2 in
        (after.flush_error ≡ result.flush_error)
        × (after.bytes_written ≡ result.bytes_written)
        × (after.completed ≡ result.completed)
  restore_protections-frame k [] result = unfold restore_protections in (refl, refl, refl)
  restore_protections-frame k (r ∷ rs) result = elim (Bool-cases r.changed) [
    | inr e ↦ rw (restore_protections-false k r rs result e) (restore_protections-frame k rs result)
    | inl e ↦ rw (restore_protections-true k r rs result e) ground (
      arith,
      restore_protections-frame (closed k r rs result).1 rs
          (note_error (closed k r rs result).0 result),
    )
  ]
