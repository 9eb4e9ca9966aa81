-- ===== src/Tests/Startup.antt =====
-- The proxy's bootstrap and the patches it leads to, run on small machines.
use helen_gamehook.Bootstrap.Invariant.{Attempt, in_flight, single_attempt}
use helen_gamehook.Bootstrap.Released.{
  Advanced, CanGoOn, Ends, Steps, ensure_initialized_round-Advanced,
}
use helen_gamehook.Bootstrap.System.{System, Step, initial, Reach}
use helen_gamehook.Bootstrap.{
  State, Place, begin_background_bootstrap, ensure_initialized_round, is_initialized,
  run_bootstrap_synchronously, reset, complete_bootstrap,
}
use helen_gamehook.Common.{ℕ, Option, ◌≡◌, ◌≢◌, ◌⊎◌, refl, arith, true, false, some}

-- A worker has started, and caller 0 has found it running and waits.
abbrev waiting : (s : System) × Reach true initial s
unfolding begin_background_bootstrap ensure_initialized_round
waiting = (
  _,
  Reach.next (Reach.next (Reach.next Reach.here (Step.begin true true)) (Step.enter 0 refl))
      (Step.look 0 refl),
)

one_not_zero : ◌≢◌ {A = Option ℕ} (some 1) (some 0)
one_not_zero e = cc

-- The worker succeeds, caller 1 enters, and caller 0 wakes up and looks again.
abbrev succeeded_then : (s : System) × Reach true initial s × (t : System) × Steps true 0 s 2 t
unfolding begin_background_bootstrap ensure_initialized_round complete_bootstrap
succeeded_then = (
  _,
  Reach.next waiting.1 (Step.work true (omega arith)),
  _,
  Steps.by_caller
      (Steps.by_caller (Steps.by_other Steps.here (Step.enter 1 refl) one_not_zero)
        (Step.wake 0 refl refl) refl)
      (Step.look 0 refl) refl,
)

ensure_initialized_round-Advanced_example :
    ((succeeded_then.0.coordinator.state ≡ State.running)
      × ((a : Attempt) × (in_flight succeeded_then.0 a ≡ true))
      × Ends succeeded_then.0 true true)
    ⊎ (((succeeded_then.0.coordinator.state ≢ State.running)
          × (succeeded_then.0.coordinator.state ≢ State.succeeded)
          × (succeeded_then.0.coordinator.completion_event ≡ some true))
        ⊎ (Advanced 2 succeeded_then.2 0 × CanGoOn true 2 succeeded_then.2 0))
unfolding begin_background_bootstrap ensure_initialized_round complete_bootstrap
ensure_initialized_round-Advanced_example =
    ensure_initialized_round-Advanced succeeded_then.1 refl true true succeeded_then.3

single_attempt_example :
    (Attempt.worker 0 ≡ Attempt.worker 0)
    × (waiting.0.coordinator.state ≡ State.running)
    × (waiting.0.coordinator.completion_event ≡ some false)
unfolding begin_background_bootstrap ensure_initialized_round
single_attempt_example = single_attempt waiting.1 (Attempt.worker 0) (Attempt.worker 0) refl refl

-- A caller that found no attempt running, and is overtaken by a worker before its own attempt,
-- returns false while that worker's attempt is still running.
overtaken :
    (s : System) × Reach true initial s
    × (s.places 0 ≡ Place.returned false)
    × (s.coordinator.state ≡ State.running)
unfolding begin_background_bootstrap ensure_initialized_round run_bootstrap_synchronously
overtaken = (
  _,
  Reach.next
      (Reach.next (Reach.next (Reach.next Reach.here (Step.enter 0 refl)) (Step.look 0 refl))
        (Step.begin true true))
      (Step.attempt 0 true refl),
  refl,
  refl,
)

reset_after_success :
    is_initialized (reset (complete_bootstrap true true waiting.0.coordinator)) ≡ false
unfolding is_initialized reset complete_bootstrap
reset_after_success = refl
