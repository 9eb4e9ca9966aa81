-- ===== src/Dispatcher.antt =====
-- HelenRuntime/CommandDispatcher.cpp: the registered integers, mirrored into the config store. Each
-- operation holds the dispatcher's mutex throughout, so it is one step.
pub mod History
pub mod Pairs
use helen_gamehook.Common.Int.{ℤ}
use helen_gamehook.Common.Maps.{find, assign, emplace, contains}
use helen_gamehook.Common.{ℕ, Bool, true, false, List, [], ◌∷◌, Option, none, some, if◌then◌else◌}
use helen_gamehook.Config.{ConfigStore, get_int, set_int, try_set_existing_int, save}
use helen_gamehook.Paths.Keys.{text_key}
use helen_gamehook.Paths.{Text, text_eq}

pub record Dispatcher : Type 0 where
  pub config_store : Option ConfigStore
  pub int_values : List (Text × ℤ)

-- What a call returns, or that it throws.
pub data Outcome (A : Type 0) : Type 0 where
  returns : A → Outcome A
  throws : Outcome A

abbrev pub new_dispatcher : Option ConfigStore → Dispatcher
new_dispatcher store = record { config_store = store; int_values = [] }

-- `SetInt` and `Save` on the store of the dispatcher, when it has one; false where `Save` throws.
unfoldable pub store_int : (ℕ → Bool) → Option ConfigStore → Text → ℤ → Bool × Option ConfigStore
store_int saves none key v = (true, none)
store_int saves (some store) key v = let r = save saves (set_int store key v) in (r.0, some r.1)

-- `RegisterConfigInt`
unfoldable pub register_config_int :
    (ℕ → Bool) → Dispatcher → Text → ℤ → Outcome (Unit {0}) × Dispatcher
register_config_int saves d key default_value =
    if contains key d.int_values
    then (returns tt, d)
    else (let initial_value : ℤ = elim d.config_store [
      | none ↦ default_value
      | some store ↦ get_int store key default_value
    ] in
        let r = store_int saves d.config_store key initial_value in
        (
          if r.0 then returns tt else throws,
          record { config_store = r.1; int_values = emplace key initial_value d.int_values },
        ))

-- `TrySetInt`
unfoldable pub try_set_int : (ℕ → Bool) → Dispatcher → Text → ℤ → Outcome Bool × Dispatcher
try_set_int saves d key v =
    if contains key d.int_values
    then (let r = store_int saves d.config_store key v in
        (
          if r.0 then returns true else throws,
          record { config_store = r.1; int_values = assign key v d.int_values },
        ))
    else (returns false, d)

-- The `try` block of `TrySetIntPair` and its handler, which brings back the store's values.
unfoldable pub store_pair :
    (ℕ → Bool) → ConfigStore → Text → ℤ → Text → ℤ → ℤ → ℤ → Bool × ConfigStore
store_pair saves store first_key first_value second_key second_value previous_first
      previous_second =
    let r = save saves (set_int (set_int store first_key first_value) second_key second_value) in
    if r.0
    then r
    else (let restored_first = (try_set_existing_int r.1 first_key previous_first).1 in
        (false, (try_set_existing_int restored_first second_key previous_second).1))

-- `TrySetIntPair`
unfoldable pub try_set_int_pair : (ℕ → Bool) → Dispatcher → Text → ℤ → Text → ℤ → Bool × Dispatcher
try_set_int_pair saves d first_key first_value second_key second_value =
    if text_eq first_key second_key then (false, d) else elim (find first_key d.int_values) [
      | none ↦ (false, d)
      | some previous_first ↦ elim (find second_key d.int_values) [
        | none ↦ (false, d)
        | some previous_second ↦
            let changed =
              assign second_key second_value (assign first_key first_value d.int_values) in
            elim d.config_store [
              | none ↦ (true, record d { int_values = changed })
              | some store ↦
                  let r =
                    store_pair saves store first_key first_value second_key second_value
                      previous_first previous_second in
                  if r.0
                  then (true, record { config_store = some r.1; int_values = changed })
                  else (let restored_first = assign first_key previous_first changed in
                      (
                        false,
                        record {
                          config_store = some r.1;
                          int_values = assign second_key previous_second restored_first;
                        },
                      ))
            ]
      ]
    ]

-- `TryGetInt`
unfoldable pub try_get_int : Dispatcher → Text → Option ℤ
try_get_int d key = find key d.int_values

-- `TryGetIntPair`
unfoldable pub try_get_int_pair : Dispatcher → Text → Text → Option (ℤ × ℤ)
try_get_int_pair d first_key second_key =
    if text_eq first_key second_key then none else elim (find first_key d.int_values) [
      | none ↦ none
      | some first ↦ elim (find second_key d.int_values) [
        | none ↦ none
        | some second ↦ some (first, second)
      ]
    ]
