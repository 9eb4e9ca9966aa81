-- ===== src/Dispatcher/Pairs.antt =====
-- HelenRuntime/CommandDispatcher.cpp: the dispatcher and its config store agree, and a pair is set
-- as a whole or not at all.
use helen_gamehook.Common.Int.{ℤ}
use helen_gamehook.Common.Maps.Laws.{find-assign, find-emplace}
use helen_gamehook.Common.Maps.{find}
use helen_gamehook.Common.{ℕ, ◌≡◌, ◌⊎◌, Bool, true, false, Option, none, some, arith, if◌then◌else◌}
use helen_gamehook.Config.{set_int, try_set_existing_int, save}
use helen_gamehook.Dispatcher.{
  Dispatcher, returns, store_int, register_config_int, try_set_int, store_pair, try_set_int_pair,
  try_get_int, try_get_int_pair,
}
use helen_gamehook.Paths.Keys.{text_key}
use helen_gamehook.Paths.{Text, text_eq}

-- What the store of a dispatcher holds for a key in memory.
abbrev pub stored : Dispatcher → Text → Option ℤ
stored d k = elim d.config_store [ none ↦ none | some store ↦ find k store.int_values ]

-- What the file of the store holds for a key.
abbrev pub persisted : Dispatcher → Text → Option ℤ
persisted d k = elim d.config_store [
  | none ↦ none
  | some store ↦ elim store.persisted [ none ↦ none | some m ↦ find k m ]
]

-- A store holds every registered key, with the dispatcher's value.
abbrev pub AgreesAt : Dispatcher → Text → Type 0
AgreesAt d k =
    (d.config_store ≡ none) ⊎ ((find k d.int_values ≡ none) ⊎ (stored d k ≡ find k d.int_values))

abbrev pub Agrees : Dispatcher → Type 0
Agrees d = (k : Text) → AgreesAt d k

pub try_set_int-Agrees :
    (saves : ℕ → Bool) (d : Dispatcher) (key : Text) (v : ℤ)
    → Agrees d
    → Agrees (try_set_int saves d key v).1
unfolding try_set_int store_int save set_int
try_set_int-Agrees saves d key v agrees k = grind (arith, find-assign, agrees k)

pub register_config_int-Agrees :
    (saves : ℕ → Bool) (d : Dispatcher) (key : Text) (v : ℤ)
    → Agrees d
    → Agrees (register_config_int saves d key v).1
unfolding register_config_int store_int save set_int
register_config_int-Agrees saves d key v agrees k =
    grind (arith, find-assign, find-emplace, agrees k)

pub try_set_int_pair-Agrees :
    (saves : ℕ → Bool) (d : Dispatcher) (key key' : Text) (v v' : ℤ)
    → Agrees d
    → Agrees (try_set_int_pair saves d key v key' v').1
unfolding try_set_int_pair store_pair save set_int try_set_existing_int
try_set_int_pair-Agrees saves d key key' v v' agrees k = grind (arith, find-assign, agrees k)

-- `TrySetIntPair` that answers false keeps every value, in the dispatcher, in the store's memory and
-- in its file, whether a key was wrong or the store could not be saved.
pub try_set_int_pair-false :
    (saves : ℕ → Bool) (d : Dispatcher) (key key' : Text) (v v' : ℤ)
    → Agrees d
    → (try_set_int_pair saves d key v key' v').0 ≡ false
    → (k : Text)
    → let d' = (try_set_int_pair saves d key v key' v').1 in
      (try_get_int d' k ≡ try_get_int d k)
      × (stored d' k ≡ stored d k)
      × (persisted d' k ≡ persisted d k)
unfolding try_set_int_pair store_pair save set_int try_set_existing_int try_get_int
try_set_int_pair-false saves d key key' v v' agrees refused k = (
  grind (arith, find-assign, text_key.eqb_iff),
  grind (arith, find-assign, agrees key, agrees key', text_key.eqb_iff),
  grind (arith),
)

-- `TrySetIntPair` that answers true has set both keys, as `TryGetIntPair` then reads them, and no
-- other; with a store, its file then holds both values.
pub try_set_int_pair-true :
    (saves : ℕ → Bool) (d : Dispatcher) (key key' k : Text) (v v' : ℤ)
    → (try_set_int_pair saves d key v key' v').0 ≡ true
    → let d' = (try_set_int_pair saves d key v key' v').1 in
      (try_get_int_pair d' key key' ≡ some (v, v'))
      × (try_get_int d' k
          ≡ (if text_eq key' k then some v' else if text_eq key k then some v else try_get_int d k))
      × ((d.config_store ≡ none) ⊎ ((persisted d' key ≡ some v) × (persisted d' key' ≡ some v')))
unfolding try_set_int_pair store_pair save set_int try_set_existing_int try_get_int try_get_int_pair
try_set_int_pair-true saves d key key' k v v' set = (
  grind (arith, find-assign, text_key.eqb_iff),
  grind (arith, find-assign, text_key.eqb_iff),
  grind (arith, find-assign, text_key.eqb_iff),
)

-- `TrySetInt` that answers true has set its key and no other; with a store, its file then holds the
-- value.
pub try_set_int-true :
    (saves : ℕ → Bool) (d : Dispatcher) (key k : Text) (v : ℤ)
    → (try_set_int saves d key v).0 ≡ returns true
    → let d' = (try_set_int saves d key v).1 in
      (try_get_int d' k ≡ (if text_eq key k then some v else try_get_int d k))
      × ((d.config_store ≡ none) ⊎ (persisted d' key ≡ some v))
unfolding try_set_int store_int save set_int try_get_int
try_set_int-true saves d key k v set =
    (grind (arith, find-assign, text_key.eqb_iff), grind (arith, find-assign, text_key.eqb_iff))
