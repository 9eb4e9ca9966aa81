-- ===== src/Common/Maps/Laws.antt =====
-- What a lookup finds after each change of a map.
use mathlib.Core.Path.{◌≡◌, refl}
use mathlib.Core.Logic.{◌⊎◌, inl, inr}
use mathlib.Core.Bool.{true}
use mathlib.Core.List.{List, [], ◌∷◌}
use mathlib.Core.Option.{none, some}
use native.Mathlib.Omega.{arith}
use helen_gamehook.Common.Tests.{if◌then◌else◌, Option-cases}
use helen_gamehook.Common.Maps.{Key, find, contains, insert, replace, emplace, assign, erase}

module _ {K : Type 0} ⦃o : Key K⦄ {V : Type 0} where
  find-insert :
      (k j : K) (v : V) (m : List (K × V))
      → find k m ≡ none
      → find j (insert k v m) ≡ (if o.eqb k j then some v else find j m)
  unfolding find insert
  find-insert k j v [] h = refl
  find-insert k j v ((i, w) ∷ m) h =
      ground (arith, o.eqb_iff i k, o.eqb_iff i j, o.eqb_iff k j, find-insert k j v m)

  find-replace :
      (k j : K) (v : V) (m : List (K × V))
      → contains k m ≡ true
      → find j (replace k v m) ≡ (if o.eqb k j then some v else find j m)
  unfolding find replace
  find-replace k j v [] h = cc
  find-replace k j v ((i, w) ∷ m) h =
      ground (arith, o.eqb_iff i k, o.eqb_iff i j, o.eqb_iff k j, find-replace k j v m)

  pub find-assign :
      (k j : K) (v : V) (m : List (K × V))
      → find j (assign k v m) ≡ (if o.eqb k j then some v else find j m)
  unfolding assign
  find-assign k j v m = ground (arith, find-insert k j v m, find-replace k j v m)

  pub find-emplace :
      (k j : K) (v : V) (m : List (K × V))
      → find k m ≡ none
      → find j (emplace k v m) ≡ (if o.eqb k j then some v else find j m)
  unfolding emplace
  find-emplace k j v m h = ground (arith, find-insert k j v m)

  -- What is found after `emplace` was there, or is the new value.
  pub find-emplace-cases :
      (k j : K) (v : V) (m : List (K × V))
      → (find j (emplace k v m) ≡ find j m) ⊎ (find j (emplace k v m) ≡ some v)
  find-emplace-cases k j v m = elim (Option-cases (find k m)) [
    | inl e ↦ ground (arith, find-emplace k j v m e)
    | inr (w, e) ↦ inl (unfold emplace in ground (arith, e))
  ]

  pub find-erase :
      (k j : K) (m : List (K × V)) → find j (erase k m) ≡ (if o.eqb k j then none else find j m)
  unfolding find erase
  find-erase k j [] = ground arith
  find-erase k j ((i, w) ∷ m) =
      ground (arith, o.eqb_iff i k, o.eqb_iff i j, o.eqb_iff k j, find-erase k j m)
