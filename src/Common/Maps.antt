-- ===== src/Common/Maps.antt =====
-- `std::map` as an association list in the order of its keys.
pub mod Laws
use mathlib.Core.Path.{◌≡◌}
use mathlib.Core.Logic.{◌↔◌}
use mathlib.Core.Bool.{Bool, true, false}
use mathlib.Core.List.{List, [], ◌∷◌}
use mathlib.Core.Option.{Option, none, some}
use helen_gamehook.Common.Tests.{if◌then◌else◌}

-- The order of the keys, and the equality that goes with it.
pub record Key (K : Type 0) : Type 0 where
  pub eqb : K → K → Bool
  pub eqb_iff : (a b : K) → (eqb a b ≡ true) ↔ (a ≡ b)
  pub lt : K → K → Bool

module _ {K : Type 0} ⦃o : Key K⦄ {V : Type 0} where
  unfoldable pub find : K → List (K × V) → Option V
  find k [] = none
  find k ((j, v) ∷ m) = if o.eqb j k then some v else find k m

  abbrev pub contains : K → List (K × V) → Bool
  contains k m = elim (find k m) [ none ↦ false | some v ↦ true ]

  unfoldable pub insert : K → V → List (K × V) → List (K × V)
  insert k v [] = (k, v) ∷ []
  insert k v ((j, w) ∷ m) = if o.lt k j then (k, v) ∷ (j, w) ∷ m else (j, w) ∷ insert k v m

  unfoldable pub replace : K → V → List (K × V) → List (K × V)
  replace k v [] = []
  replace k v ((j, w) ∷ m) = if o.eqb j k then (j, v) ∷ m else (j, w) ∷ replace k v m

  -- `emplace`: a key that is there keeps its value.
  unfoldable pub emplace : K → V → List (K × V) → List (K × V)
  unfolding insert find
  emplace k v m = if contains k m then m else insert k v m

  -- `m[k] = v`
  unfoldable pub assign : K → V → List (K × V) → List (K × V)
  unfolding insert replace find
  assign k v m = if contains k m then replace k v m else insert k v m

  -- `erase` by key; at most one entry has it.
  unfoldable pub erase : K → List (K × V) → List (K × V)
  erase k [] = []
  erase k ((j, w) ∷ m) = let rest = erase k m in if o.eqb j k then rest else (j, w) ∷ rest
