-- ===== src/Dispatcher/History.antt =====
-- HelenRuntime/CommandDispatcher.cpp: any history of calls on one dispatcher.
use helen_gamehook.Common.Int.{ℤ}
use helen_gamehook.Common.Maps.{find}
use helen_gamehook.Common.{ℕ, ◌≡◌, Bool, false, List, [], ◌∷◌, Option, inr, inl, refl}
use helen_gamehook.Config.{ConfigStore}
use helen_gamehook.Dispatcher.{
  Dispatcher, new_dispatcher, register_config_int, try_set_int, try_set_int_pair, try_get_int,
}
use helen_gamehook.Dispatcher.Pairs.{
  Agrees, AgreesAt, stored, persisted, register_config_int-Agrees, try_set_int-Agrees,
  try_set_int_pair-Agrees, try_set_int_pair-false,
}
use helen_gamehook.Paths.{Text}

pub data Call : Type 0 where
  registers : Text → ℤ → Call
  sets : Text → ℤ → Call
  sets_pair : Text → ℤ → Text → ℤ → Call

unfoldable pub step : (ℕ → Bool) → Dispatcher → Call → Dispatcher
step saves d (registers key v) = (register_config_int saves d key v).1
step saves d (sets key v) = (try_set_int saves d key v).1
step saves d (sets_pair key v key' v') = (try_set_int_pair saves d key v key' v').1

unfoldable pub run : (ℕ → Bool) → Dispatcher → List Call → Dispatcher
run saves d [] = d
run saves d (c ∷ cs) = run saves (step saves d c) cs

step-Agrees : (saves : ℕ → Bool) (d : Dispatcher) (c : Call) → Agrees d → Agrees (step saves d c)
unfolding step
step-Agrees saves d (registers key v) agrees = register_config_int-Agrees saves d key v agrees
step-Agrees saves d (sets key v) agrees = try_set_int-Agrees saves d key v agrees
step-Agrees saves d (sets_pair key v key' v') agrees =
    try_set_int_pair-Agrees saves d key key' v v' agrees

run-Agrees :
    (saves : ℕ → Bool) (d : Dispatcher) (cs : List Call) → Agrees d → Agrees (run saves d cs)
unfolding run
run-Agrees saves d [] agrees = agrees
run-Agrees saves d (c ∷ cs) agrees =
    run-Agrees saves (step saves d c) cs (step-Agrees saves d c agrees)

-- After any history of calls on a new dispatcher over any store, and whichever saves have failed,
-- the store's memory holds every registered key with the dispatcher's value.
pub run-new_dispatcher-AgreesAt :
    (saves : ℕ → Bool) (store : Option ConfigStore) (cs : List Call) (k : Text)
    → AgreesAt (run saves (new_dispatcher store) cs) k
run-new_dispatcher-AgreesAt saves store cs =
    run-Agrees saves (new_dispatcher store) cs (λ k. unfold find in inr (inl refl))

-- After any history of calls on a new dispatcher, a `TrySetIntPair` that answers false keeps every
-- value: of the dispatcher, of the store's memory and of its file.
pub run-try_set_int_pair-false :
    (saves : ℕ → Bool) (store : Option ConfigStore) (cs : List Call) (key key' : Text) (v v' : ℤ)
    (k : Text)
    → (try_set_int_pair saves (run saves (new_dispatcher store) cs) key v key' v').0 ≡ false
    → let d = run saves (new_dispatcher store) cs in
      let d' = (try_set_int_pair saves d key v key' v').1 in
      (try_get_int d' k ≡ try_get_int d k)
      × (stored d' k ≡ stored d k)
      × (persisted d' k ≡ persisted d k)
run-try_set_int_pair-false saves store cs key key' v v' k refused =
    try_set_int_pair-false saves (run saves (new_dispatcher store) cs) key key' v v'
      (run-new_dispatcher-AgreesAt saves store cs) refused k
