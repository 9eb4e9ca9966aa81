-- ===== src/Tests/Settings.antt =====
-- The dispatcher over a config store whose saves may fail.
use helen_gamehook.Common.Int.{ℤ, pos}
use helen_gamehook.Common.Maps.{find, assign, insert, emplace, replace}
use helen_gamehook.Common.{
  ℕ, ◌≡◌, ◌⊎◌, refl, Bool, true, false, not, ◌==◌, List, [], ◌∷◌, none, some, if◌then◌else◌,
}
use helen_gamehook.Config.{ConfigStore, save, set_int, get_int, try_set_existing_int}
use helen_gamehook.Dispatcher.History.{
  sets, run-new_dispatcher-AgreesAt, run-try_set_int_pair-false,
}
use helen_gamehook.Dispatcher.History.{
  registers as registers_int, run as run_calls, step as step_call,
}
use helen_gamehook.Dispatcher.Pairs.{
  AgreesAt, stored, persisted, try_set_int_pair-true, try_set_int-true,
}
use helen_gamehook.Dispatcher.{
  Dispatcher, returns, new_dispatcher, register_config_int, try_set_int, store_int, store_pair,
  try_set_int_pair, try_get_int, try_get_int_pair,
}
use helen_gamehook.Paths.Keys.{text_key}
use helen_gamehook.Paths.{Text, codes, text_eq, text_lt}

-- The third save fails.
abbrev saves : ℕ → Bool
saves n = not (n == 3)

abbrev empty_store : ConfigStore
empty_store = record { int_values = []; save_count = 0; persisted = none }

abbrev pub two_keys : List (Text × ℤ)
two_keys = (codes "a", pos 1) ∷ (codes "b", pos 2) ∷ []

abbrev pub both : Dispatcher
both = record {
  config_store = some (record { int_values = two_keys; save_count = 2; persisted = some two_keys });
  int_values = two_keys;
}

registered_both :
    run_calls saves
      (new_dispatcher (some empty_store))
      (registers_int (codes "a") (pos 1) ∷ registers_int (codes "b") (pos 2) ∷ [])
    ≡ both
unfolding run_calls step_call register_config_int store_int save set_int get_int find assign insert
    emplace text_eq text_lt
registered_both = refl

refused :
    (try_set_int_pair saves
      (run_calls saves
        (new_dispatcher (some empty_store))
        (registers_int (codes "a") (pos 1) ∷ registers_int (codes "b") (pos 2) ∷ []))
      (codes "a")
      (pos 7)
      (codes "b")
      (pos 8)).0
    ≡ false
unfolding run_calls step_call register_config_int store_int get_int insert emplace text_lt
    try_set_int_pair store_pair save set_int find assign replace try_set_existing_int text_eq
refused = refl

run-try_set_int_pair-false_example :
    let d =
      run_calls saves
        (new_dispatcher (some empty_store))
        (registers_int (codes "a") (pos 1) ∷ registers_int (codes "b") (pos 2) ∷ []) in
    let d' = (try_set_int_pair saves d (codes "a") (pos 7) (codes "b") (pos 8)).1 in
    (try_get_int d' (codes "a") ≡ try_get_int d (codes "a"))
    × (stored d' (codes "a") ≡ stored d (codes "a"))
    × (persisted d' (codes "a") ≡ persisted d (codes "a"))
run-try_set_int_pair-false_example =
    run-try_set_int_pair-false saves (some empty_store)
      (registers_int (codes "a") (pos 1) ∷ registers_int (codes "b") (pos 2) ∷ []) (codes "a")
      (codes "b") (pos 7) (pos 8) (codes "a") refused

run-new_dispatcher-AgreesAt_example :
    AgreesAt
      (run_calls saves (new_dispatcher (some empty_store)) (
        registers_int (codes "a") (pos 1)
        ∷ sets (codes "a") (pos 2)
        ∷ sets (codes "a") (pos 3)
        ∷ []))
      (codes "a")
run-new_dispatcher-AgreesAt_example =
    run-new_dispatcher-AgreesAt saves (some empty_store)
      (registers_int (codes "a") (pos 1) ∷ sets (codes "a") (pos 2) ∷ sets (codes "a") (pos 3) ∷ [])
      (codes "a")

abbrev pub always : ℕ → Bool
always n = true

set_pair : (try_set_int_pair always both (codes "a") (pos 7) (codes "b") (pos 8)).0 ≡ true
unfolding try_set_int_pair store_pair save set_int find assign replace text_eq
set_pair = refl

try_set_int_pair-true_example :
    let d' = (try_set_int_pair always both (codes "a") (pos 7) (codes "b") (pos 8)).1 in
    (try_get_int_pair d' (codes "a") (codes "b") ≡ some (pos 7, pos 8))
    × (try_get_int d' (codes "b") ≡ (
        if text_eq (codes "b") (codes "b")
        then some (pos 8)
        else if text_eq (codes "a") (codes "b")
        then some (pos 7)
        else try_get_int both (codes "b")))
    × ((both.config_store ≡ none)
        ⊎ ((persisted d' (codes "a") ≡ some (pos 7)) × (persisted d' (codes "b") ≡ some (pos 8))))
try_set_int_pair-true_example =
    try_set_int_pair-true always both (codes "a") (codes "b") (codes "b") (pos 7) (pos 8) set_pair

set_one : (try_set_int always both (codes "a") (pos 7)).0 ≡ returns true
unfolding try_set_int store_int save set_int find assign replace text_eq
set_one = refl

try_set_int-true_example :
    let d' = (try_set_int always both (codes "a") (pos 7)).1 in
    (try_get_int d' (codes "b")
      ≡ (if text_eq (codes "a") (codes "b") then some (pos 7) else try_get_int both (codes "b")))
    × ((both.config_store ≡ none) ⊎ (persisted d' (codes "a") ≡ some (pos 7)))
try_set_int-true_example = try_set_int-true always both (codes "a") (codes "b") (pos 7) set_one
