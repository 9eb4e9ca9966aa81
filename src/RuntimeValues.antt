-- ===== src/RuntimeValues.antt =====
-- HelenRuntime/RuntimeValueStore.cpp: the live float slots that patched code reads. A slot is a cell
-- on the heap, whose address the allocation gives.
pub mod Snapshots
use helen_gamehook.Common.Maps.{find, contains, emplace, assign}
use helen_gamehook.Common.{
  ℕ, Bool, true, false, not, List, [], ◌∷◌, map, length, ◌==◌, if◌then◌else◌, Option, none, some,
}
use helen_gamehook.Floats.{Floats, out_of_range}
use helen_gamehook.Paths.Keys.{text_key}
use helen_gamehook.Paths.{Text, codes, text_eq, is_empty}

module _ (fl : Floats) where
  open fl use {Double, Single, is_finite, narrow, widen}

  -- `TryConvertToFloat32`
  unfoldable pub try_convert : Double → Option Single
  try_convert v =
      if not (is_finite v) then none else if out_of_range fl v then none else some (narrow v)

  pub record SlotDefinition : Type 0 where
    pub id : Text
    pub type : Text
    pub initial_value : Double

  pub record Cell : Type 0 where
    pub address : ℕ
    pub value : Single

  pub record Store : Type 0 where
    pub slot_definitions : List (Text × SlotDefinition)
    pub values : List (Text × Cell)

  abbrev pub Snapshot : Type 0
  Snapshot = List (Text × Double)

  abbrev pub new_store : Store
  new_store = record { slot_definitions = []; values = [] }

  -- `RegisterSlot`; `address` is that of the cell that `make_unique` allocates.
  unfoldable pub register_slot : Store → ℕ → SlotDefinition → Bool × Store
  register_slot s address d =
      if is_empty d.id
      then (false, s)
      else if not (text_eq d.type (codes "float32"))
      then (false, s)
      else if contains d.id s.slot_definitions
      then (false, s)
      else elim (try_convert d.initial_value) [
        | none ↦ (false, s)
        | some initial ↦
            let cell : Cell = record { address = address; value = initial } in
            (
              true,
              record {
                slot_definitions = emplace d.id d s.slot_definitions;
                values = emplace d.id cell s.values;
              },
            )
      ]

  -- `SetDouble`
  unfoldable pub set_double : Store → Text → Double → Bool × Store
  set_double s name v = elim (find name s.values) [
    | none ↦ (false, s)
    | some cell ↦ elim (try_convert v) [
      | none ↦ (false, s)
      | some x ↦ (true, record s { values = assign name (record cell { value = x }) s.values })
    ]
  ]

  -- `TryGetDouble`
  unfoldable pub try_get_double : Store → Text → Option Double
  try_get_double s name = elim (find name s.values) [
    | none ↦ none
    | some cell ↦ some (widen cell.value)
  ]

  -- `TryGetAddress`
  unfoldable pub try_get_address : Store → Text → Option ℕ
  try_get_address s name = elim (find name s.values) [ none ↦ none | some cell ↦ some cell.address ]

  unfoldable pub snapshot_of : List (Text × Cell) → Snapshot
  snapshot_of [] = []
  snapshot_of ((k, cell) ∷ m) = (k, widen cell.value) ∷ snapshot_of m

  -- `TakeSnapshot`
  unfoldable pub take_snapshot : Store → Snapshot
  unfolding snapshot_of
  take_snapshot s = snapshot_of s.values

  -- The restore loop: it throws (false) at the first slot that the snapshot does not serve, behind
  -- those that it has restored.
  unfoldable pub restore_values : Snapshot → List (Text × Cell) → Bool × List (Text × Cell)
  restore_values snapshot [] = (true, [])
  restore_values snapshot ((k, cell) ∷ m) =
      let rest = restore_values snapshot m in
      elim (find k snapshot) [
        | none ↦ (false, (k, cell) ∷ m)
        | some v ↦ elim (try_convert v) [
          | none ↦ (false, (k, cell) ∷ m)
          | some x ↦ (rest.0, (k, record cell { value = x }) ∷ rest.1)
        ]
      ]

  -- `RestoreSnapshot`: false where it throws.
  unfoldable pub restore_snapshot : Store → Snapshot → Bool × Store
  unfolding restore_values
  restore_snapshot s snapshot =
      if not (length snapshot == length s.values)
      then (false, s)
      else (let r = restore_values snapshot s.values in (r.0, record s { values = r.1 }))
