-- ===== src/Bootstrap/Invariant.antt =====
-- The invariant of the coordinator's threads, kept by every step.
use helen_gamehook.Common.{ℕ, ◌≡◌, ◌≢◌, ◌⊎◌, inl, inr, Bool, true, false, some, ap, ltb, arith}
use helen_gamehook.Bootstrap.{
  State, Coordinator, begin_background_bootstrap, complete_bootstrap, reset, Place,
  ensure_initialized_round, run_bootstrap_synchronously,
}
use helen_gamehook.Bootstrap.System.{update, System, Step, initial, Inv, initial-Inv, Reach}

-- A caller at the start of the synchronous attempt either goes into the callback or leaves the state not
-- running, or finds another attempt running.
attempt_cases :
    (callback created : Bool) (c : Coordinator)
    → let after = run_bootstrap_synchronously callback created c in
      ((after.1 ≡ Place.calling) × (c.state ≢ State.running))
      ⊎ ((after.0.state ≡ c.state) ⊎ (after.0.state ≡ State.failed))
unfolding run_bootstrap_synchronously
attempt_cases callback created c = ground arith

attempt-in_flight :
    (callback created : Bool) (s : System) (i : ℕ)
    → Inv s
    → s.places i ≡ Place.attempting
    → (run_bootstrap_synchronously callback created s.coordinator).0.state ≡ State.running
    → (s.background ≡ 1)
      ⊎ ((j : ℕ) × (update s.places i
              (run_bootstrap_synchronously callback created s.coordinator).1
              j
            ≡ Place.calling))
attempt-in_flight callback created s i inv here runs =
    elim (attempt_cases callback created s.coordinator) [
      | inl called ↦ inr (i, ground (arith, called))
      | inr (inl same) ↦ elim (inv.in_flight (ground (arith, same))) [
        | inl b ↦ inl b
        | inr (j, p) ↦ inr (j, ground arith)
      ]
      | inr (inr stopped) ↦ absurd (ground (arith, stopped))
    ]

pub Step-Inv : {callback : Bool} {s t : System} → Step callback s t → Inv s → Inv t
unfolding begin_background_bootstrap complete_bootstrap reset ensure_initialized_round
    run_bootstrap_synchronously
Step-Inv (Step.begin created spawned) inv = ground arith
Step-Inv (Step.work success h) inv = ground arith
Step-Inv (Step.enter i h) inv = ground arith
Step-Inv (Step.look i h) inv = ground arith
Step-Inv (Step.wake i h e) inv = ground arith
Step-Inv {callback} {s} (Step.attempt i created h) inv =
    ground (arith, attempt-in_flight callback created s i inv h)
Step-Inv (Step.settle i success h) inv =
    ground (arith, inv.no_worker i h, inv.caller_runs i h, λ (j : ℕ). inv.one_caller i j h)
Step-Inv (Step.shut h quiet) inv = ground arith

pub Reach-Inv : {callback : Bool} {s : System} → Reach callback initial s → Inv s
Reach-Inv Reach.here = initial-Inv
Reach-Inv (Reach.next r st) = Step-Inv st (Reach-Inv r)

-- An attempt: the `k`-th worker thread, or a caller's own.
pub data Attempt : Type 0 where
  worker caller : ℕ → Attempt

abbrev is_calling : Place → Bool
is_calling Place.calling = true
is_calling _ = false

abbrev pub in_flight : System → Attempt → Bool
in_flight s (Attempt.worker k) = ltb k s.background
in_flight s (Attempt.caller i) = is_calling (s.places i)

is_calling-eq : (p : Place) → is_calling p ≡ true → p ≡ Place.calling
is_calling-eq p h = ground arith

-- In every reachable state two bootstrap attempts that are in flight, on worker threads or in
-- callers, are one and the same; and the state is then running and the completion event is there,
-- not signalled, so that whoever waits for it sleeps until that attempt ends.
pub single_attempt :
    {callback : Bool} {s : System}
    → Reach callback initial s
    → (a b : Attempt) → in_flight s a ≡ true
    → in_flight s b ≡ true
    → (a ≡ b)
      × (s.coordinator.state ≡ State.running)
      × (s.coordinator.completion_event ≡ some false)
single_attempt r (Attempt.worker k) (Attempt.worker l) h h' = ground (arith, Reach-Inv r)
single_attempt {s} r (Attempt.worker k) (Attempt.caller i) h h' =
    absurd (ground (arith, (Reach-Inv r).no_worker i (is_calling-eq _ h')))
single_attempt r (Attempt.caller i) (Attempt.worker l) h h' =
    absurd (ground (arith, (Reach-Inv r).no_worker i (is_calling-eq _ h)))
single_attempt r (Attempt.caller i) (Attempt.caller j) h h' =
    let inv = Reach-Inv r in
    let e = is_calling-eq _ h in
    let same : i ≡ j = inv.one_caller i j e (is_calling-eq _ h') in
    let runs = inv.caller_runs i e in (ap Attempt.caller same, runs, inv.unsignalled runs)
