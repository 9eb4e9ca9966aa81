-- ===== src/Patch/Collected.antt =====
-- MemoryPatch.cpp: the regions that `Apply` collects cover the range.
use helen_gamehook.Common.{
  ℕ, zero, suc, ◌+◌, ◌-◌, ◌≡◌, ◌≢◌, ◌≤◌, ◌<◌, ◌⊎◌, inl, inr, min, Bool, true, false, ◌||◌, List, [],
  ◌∷◌, Option, none, arith, Bool-cases, Option-cases, subst, ltb,
}
use helen_gamehook.Common.Results.{ok, Result-cases}
use helen_gamehook.Patch.Laws.{Documented}
use helen_gamehook.Patch.Protection.{Remember, opened, unprotect-none, unprotect-some}
use helen_gamehook.Patch.{
  Windows, Info, Region, touches, collect_regions, is_accessible, unprotect, page_execute_readwrite,
}

-- A page of a part of a region is a page of the region.
touches_part :
    (b s c n p : ℕ) → b ≤ c → c + n ≤ b + s → 0 < n → touches c n p ≡ true → touches b s p ≡ true
touches_part b s c n p h h' pos t = ground arith

-- Some region holds a byte of the page.
abbrev pub is_covered : List Region → ℕ → Bool
is_covered [] p = false
is_covered (r ∷ rs) p = touches r.address r.size p || is_covered rs p

-- A page of a range is a page of its first part, or of what is left behind that part.
covered_step :
    (c size end p : ℕ) (b : Bool)
    → c < end
    → touches c (end - c) p ≡ true
    → 0 < size
    → (c + size < end → touches (c + size) (end - (c + size)) p ≡ true → b ≡ true)
    → (touches c size p || b) ≡ true
covered_step c size end p b h t pos rest = elim (Bool-cases (touches c size p)) [
  | inl e ↦ ground (arith, e)
  | inr e ↦
      let left : (c + size < end) × (touches (c + size) (end - (c + size)) p ≡ true) =
        ground arith in
      ground (arith, rest left.0 left.1)
]

module _ (w : Windows) (docs : Documented w) where
  open w use {K, protection}

  -- The region that the loop notes, and where it goes on.
  abbrev noted : ℕ → ℕ → Info → Region
  noted cursor end info = record {
    address = cursor;
    size = min (info.region_size - (cursor - info.base_address)) (end - cursor);
    protection = info.protect;
    changed = false;
  }

  -- A round of the loop ends it, past the end of the range or with an error, or notes a region.
  abbrev Round : (fuel : ℕ) (k : K) (cursor end : ℕ) → Type 0
  Round fuel k cursor end =
      (((collect_regions w (suc fuel) k cursor end).0 ≡ [])
        × ((ltb cursor end ≡ false) ⊎ ((collect_regions w (suc fuel) k cursor end).1 ≢ none)))
      ⊎ ((info : Info) × (ltb cursor end ≡ true)
          × (w.virtual_query k cursor ≡ ok info)
          × (collect_regions w (suc fuel) k cursor end ≡ (
              let r = noted cursor end info in
              let rest = collect_regions w fuel k (cursor + r.size) end in (r ∷ rest.0, rest.1))))

  round : (fuel : ℕ) (k : K) (cursor end : ℕ) → Round fuel k cursor end
  unfolding collect_regions
  round fuel k cursor end = elim (Bool-cases (ltb cursor end)) [
    | inr past ↦ inl (ground (arith, past), inl past)
    | inl within ↦ elim (Result-cases (w.virtual_query k cursor)) [
      | inr (x, e) ↦ inl (ground (arith, within, e), inr (ground (arith, within, e)))
      | inl (info, e) ↦ elim (Bool-cases (is_accessible info)) [
        | inr f ↦ inl (ground (arith, within, e, f), inr (ground (arith, within, e, f)))
        | inl f ↦ inr (info, within, e, ground (arith, within, e, f))
      ]
    ]
  ]

  module _ (k : K) (cursor end : ℕ) {info : Info} (e : w.virtual_query k cursor ≡ ok info)
      (h : ltb cursor end ≡ true) where
    noted-protection :
        (p : ℕ)
        → touches cursor (noted cursor end info).size p ≡ true
        → protection k p ≡ info.protect
    noted-protection p t = docs.uniform k cursor p e (
        touches_part info.base_address info.region_size cursor (noted cursor end info).size p
          (omega (arith, docs.holds k cursor e)) (omega (arith, docs.holds k cursor e))
          (ground (arith, docs.holds k cursor e)) t)

  pub Remember-collect_regions :
      (fuel : ℕ) (k : K) (cursor end : ℕ)
      → Remember w docs k (collect_regions w fuel k cursor end).0
  Remember-collect_regions zero k cursor end = unfold collect_regions in tt
  Remember-collect_regions (suc fuel) k cursor end = elim (round fuel k cursor end) [
    | inl (e, _) ↦ rw e tt
    | inr (info, h, q, e) ↦ rw e (
      noted-protection k cursor end q h,
      Remember-collect_regions fuel k (cursor + (noted cursor end info).size) end,
    )
  ]

  -- With fuel for every byte, regions that were collected without an error hold every page of the range.
  collect_regions-is_covered :
      (fuel : ℕ) (k : K) (cursor end p : ℕ)
      → end ≤ cursor + fuel
      → (collect_regions w fuel k cursor end).1 ≡ none
      → cursor < end
      → touches cursor (end - cursor) p ≡ true
      → is_covered (collect_regions w fuel k cursor end).0 p ≡ true
  collect_regions-is_covered zero k cursor end p enough done h t = absurd (omega (arith, enough, h))
  collect_regions-is_covered (suc fuel) k cursor end p enough done h t =
      elim (round fuel k cursor end) [
        | inl (e, r) ↦ absurd (ground (arith, r, done))
        | inr (info, _, q, e) ↦
            let size = (noted cursor end info).size in
            let further : 0 < size = omega (arith, docs.holds k cursor q, h) in
            let rest =
              collect_regions-is_covered fuel k (cursor + size) end p
                (omega (arith, enough, further))
                (subst (λ (c : List Region × Option ℕ). c.1 ≡ none) e done) in
            rw e (covered_step cursor size end p _ h t further rest)
      ]

  unprotect-writable :
      (k : K) (rs : List Region) (p : ℕ)
      → (unprotect w k rs).2 ≡ none
      → (is_covered rs p ≡ true) ⊎ (protection k p ≡ page_execute_readwrite)
      → protection (unprotect w k rs).0 p ≡ page_execute_readwrite
  unprotect-writable k [] p done h = unfold unprotect in ground (arith, h)
  unprotect-writable k (r ∷ rs) p done h = elim (Option-cases (opened w docs k r rs).0) [
    | inr (x, e) ↦ absurd (ground (arith, done, unprotect-some w docs k r rs e))
    | inl e ↦ rw (unprotect-none w docs k r rs e) (
        unprotect-writable (opened w docs k r rs).1 rs p
          (subst (λ (c : K × List Region × Option ℕ). c.2 ≡ none) (unprotect-none w docs k r rs e)
            done)
          (ground (arith, h, docs.protects k r.address r.size page_execute_readwrite p e)))
  ]

  -- Once `Apply` has collected the regions of its range, with one unit of fuel for each byte and
  -- without an error, and `Write` has opened them without a refusal, every page that holds a byte
  -- of the range is readable, writable and executable: the copy meets no other page.
  pub unprotect-collect_regions :
      (k : K) (address size p : ℕ)
      → 0 < size
      → (collect_regions w size k address (address + size)).1 ≡ none
      → (unprotect w k (collect_regions w size k address (address + size)).0).2 ≡ none
      → touches address size p ≡ true
      → protection (unprotect w k (collect_regions w size k address (address + size)).0).0 p
        ≡ page_execute_readwrite
  unprotect-collect_regions k address size p some_bytes done opened_all t =
      unprotect-writable k _ p opened_all (
        inl (
          collect_regions-is_covered size k address (address + size) p (omega arith) done
            (omega arith) (ground (arith, t))))
