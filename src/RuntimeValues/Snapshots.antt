-- ===== src/RuntimeValues/Snapshots.antt =====
-- HelenRuntime/RuntimeValueStore.cpp: a snapshot brings the slots back, whatever was written since.
use helen_gamehook.Common.Maps.Laws.{find-assign, find-emplace-cases}
use helen_gamehook.Common.Maps.{find, contains, assign, replace}
use helen_gamehook.Common.{
  ℕ, suc, ◌≡◌, refl, sym, ap, ◌∙◌, true, List, [], ◌∷◌, length, Option, none, some, arith,
  Option-cases, inl, inr,
}
use helen_gamehook.Floats.{Floats, IsIeee}
use helen_gamehook.Paths.Keys.{text_key}
use helen_gamehook.Paths.{Text}
use helen_gamehook.RuntimeValues.{
  SlotDefinition, Cell, Store, Snapshot, try_convert, register_slot, set_double, snapshot_of,
  take_snapshot, restore_values, restore_snapshot,
}

module _ (fl : Floats) where
  -- Every slot holds a `float` that goes to a double and back unchanged.
  abbrev pub IsSoundAt : Option (Cell fl) → Type 0
  IsSoundAt none = Unit {0}
  IsSoundAt (some c) = try_convert fl (fl.widen c.value) ≡ some c.value

  abbrev pub IsSound : Store fl → Type 0
  IsSound s = (k : Text) → IsSoundAt (find k s.values)

  -- The slots with their addresses, without their values.
  unfoldable pub slots : List (Text × Cell fl) → List (Text × ℕ)
  slots [] = []
  slots ((k, c) ∷ m) = (k, c.address) ∷ slots m

  slots-replace :
      (k : Text) (c d : Cell fl) (m : List (Text × Cell fl))
      → find k m ≡ some c
      → d.address ≡ c.address
      → slots (replace k d m) ≡ slots m
  unfolding slots replace find
  slots-replace k c d [] f a = cc
  slots-replace k c d ((j, e) ∷ m) f a = ground (arith, text_key.eqb_iff j k, slots-replace k c d m)

  slots-assign :
      (k : Text) (c d : Cell fl) (m : List (Text × Cell fl))
      → find k m ≡ some c
      → d.address ≡ c.address
      → slots (assign k d m) ≡ slots m
  unfolding assign
  slots-assign k c d m f a = ground (arith, slots-replace k c d m)

  -- Writes keep the slots and their addresses.
  pub set_double-slots :
      (s : Store fl) (name : Text) (v : fl.Double)
      → slots (set_double fl s name v).1.values ≡ slots s.values
  unfolding set_double
  set_double-slots s name v = grind (arith, slots-assign)

  pub set_double-IsSound :
      (s : Store fl) (name : Text) (v : fl.Double)
      → IsIeee fl
      → IsSound s
      → IsSound (set_double fl s name v).1
  unfolding set_double
  set_double-IsSound s name v ieee sound k =
      unfold try_convert in
      grind (
        arith,
        find-assign,
        sound k,
        ieee.narrow_finite v,
        ieee.narrow_in_range v,
        ieee.narrow-widen (fl.narrow v),
      )

  -- What restoring a snapshot makes of one slot.
  abbrev restored : Snapshot fl → Text → Cell fl → Option (Cell fl)
  restored snapshot k c = elim (find k snapshot) [
    | none ↦ none
    | some v ↦ elim (try_convert fl v) [ none ↦ none | some x ↦ some (record c { value = x }) ]
  ]

  abbrev IsServed : Snapshot fl → List (Text × Cell fl) → Type 0
  IsServed snapshot m =
      (k : Text)
      → contains k m ≡ true
      → (v : fl.Double) × (x : fl.Single) × (find k snapshot ≡ some v) × (try_convert fl v ≡ some x)

  restore_values_served :
      (snapshot : Snapshot fl) (m : List (Text × Cell fl))
      → IsServed snapshot m
      → ((restore_values fl snapshot m).0 ≡ true)
        × ((k : Text)
            → find k (restore_values fl snapshot m).1
              ≡ (elim (find k m) [ none ↦ none | some c ↦ restored snapshot k c ]))
  unfolding restore_values find
  restore_values_served snapshot [] served = (refl, λ k. refl)
  restore_values_served snapshot ((j, c) ∷ m) served =
      let (done, others) = restore_values_served snapshot m (λ k h. served k (ground (arith, h))) in
      let (v, x, at_v, at_x) = served j (ground (arith, text_key.eqb_iff j j)) in
      (ground arith, λ k. ground (arith, text_key.eqb_iff j k, others k))

  find-snapshot_of :
      (k : Text) (m : List (Text × Cell fl))
      → find k (snapshot_of fl m)
        ≡ (elim (find k m) [ none ↦ none | some c ↦ some (fl.widen c.value) ])
  unfolding find snapshot_of
  find-snapshot_of k [] = refl
  find-snapshot_of k ((j, c) ∷ m) = ground (arith, find-snapshot_of k m)

  find-slots :
      (k : Text) (m : List (Text × Cell fl))
      → find k (slots m) ≡ (elim (find k m) [ none ↦ none | some c ↦ some c.address ])
  unfolding find slots
  find-slots k [] = refl
  find-slots k ((j, c) ∷ m) = ground (arith, find-slots k m)

  length-slots : (m : List (Text × Cell fl)) → length (slots m) ≡ length m
  unfolding slots
  length-slots [] = refl
  length-slots (e ∷ m) = ap suc (length-slots m)

  length-snapshot_of : (m : List (Text × Cell fl)) → length (snapshot_of fl m) ≡ length m
  unfolding snapshot_of
  length-snapshot_of [] = refl
  length-snapshot_of (e ∷ m) = ap suc (length-snapshot_of m)

  snapshot-IsServed :
      (s t : Store fl)
      → IsSound s
      → slots t.values ≡ slots s.values
      → IsServed (take_snapshot fl s) t.values
  unfolding take_snapshot
  snapshot-IsServed s t sound same k h = elim (Option-cases (find k s.values)) [
    | inl e ↦ ground (arith, h, find-slots k s.values, find-slots k t.values, ap (find k) same)
    | inr (c, e) ↦ (
      fl.widen c.value,
      c.value,
      ground (arith, find-snapshot_of k s.values),
      ground (arith, sound k),
    )
  ]

  -- A snapshot of a sound store, restored once its slots hold any other values, never throws, and
  -- every slot again holds what it held when the snapshot was taken, at the same address.
  pub restore_snapshot-take_snapshot :
      (s t : Store fl) (k : Text)
      → IsSound s
      → slots t.values ≡ slots s.values
      → ((restore_snapshot fl t (take_snapshot fl s)).0 ≡ true)
        × (find k (restore_snapshot fl t (take_snapshot fl s)).1.values ≡ find k s.values)
  unfolding restore_snapshot take_snapshot
  restore_snapshot-take_snapshot s t k sound same =
      let (done, others) =
        restore_values_served (snapshot_of fl s.values) t.values
          (unfold take_snapshot in snapshot-IsServed s t sound same) in
      let lengths : length (snapshot_of fl s.values) ≡ length t.values =
        length-snapshot_of s.values
        ∙ sym (length-slots s.values)
        ∙ sym (ap length same)
        ∙ length-slots t.values in
      (
        ground (arith, lengths, done),
        ground (
          arith,
          lengths,
          others k,
          sound k,
          find-snapshot_of k s.values,
          find-slots k s.values,
          find-slots k t.values,
          ap (find k) same,
        ),
      )

  pub register_slot-IsSound :
      (s : Store fl) (address : ℕ) (d : SlotDefinition fl)
      → IsIeee fl
      → IsSound s
      → IsSound (register_slot fl s address d).1
  unfolding register_slot
  register_slot-IsSound s address d ieee sound k =
      unfold try_convert in
      grind (
        arith,
        find-emplace-cases,
        sound k,
        ieee.narrow_finite d.initial_value,
        ieee.narrow_in_range d.initial_value,
        ieee.narrow-widen (fl.narrow d.initial_value),
      )
