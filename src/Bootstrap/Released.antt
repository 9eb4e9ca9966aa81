-- ===== src/Bootstrap/Released.antt =====
-- HelenRuntime/ProxyBootstrapCoordinator.cpp: callers that wait in `EnsureInitialized`, in whatever
-- order the threads take their steps.
use helen_gamehook.Common.{
  ℕ, zero, suc, ◌≡◌, ◌≢◌, refl, ◌∙◌, ◌⊎◌, inl, inr, Bool, true, false, Option, none, some, arith,
}
use helen_gamehook.Bootstrap.{
  State, begin_background_bootstrap, complete_bootstrap, run_bootstrap_synchronously, Place,
  ensure_initialized_round,
}
use helen_gamehook.Bootstrap.System.{System, Step, initial, Inv, Reach}
use helen_gamehook.Bootstrap.Invariant.{Attempt, in_flight, Reach-Inv, Step-Inv}

-- Whose step it is: that of a caller, or of none.
abbrev pub mover : {callback : Bool} {s t : System} → Step callback s t → Option ℕ
mover (Step.begin created spawned) = none
mover (Step.work success h) = none
mover (Step.enter i h) = some i
mover (Step.look i h) = some i
mover (Step.wake i h e) = some i
mover (Step.attempt i created h) = some i
mover (Step.settle i success h) = some i
mover (Step.shut h quiet) = none

-- Any steps of any threads, `n` of them by caller `i`.
pub data Steps (callback : Bool) (i : ℕ) (s : System) : ℕ → System → Type 0 where
  here : Steps callback i s 0 s
  by_caller :
      {n : ℕ} {t u : System}
      → Steps callback i s n t
      → (st : Step callback t u) → mover st ≡ some i
      → Steps callback i s (suc n) u
  by_other :
      {n : ℕ} {t u : System}
      → Steps callback i s n t
      → (st : Step callback t u) → mover st ≢ some i
      → Steps callback i s n u

-- The caller that waited, `n` steps of its own later: the event that it waits for is signalled; on
-- its way round the loop; returned true. A caller that has returned may call again.
abbrev pub Advanced : ℕ → System → ℕ → Type 0
Advanced zero u i =
    (u.places i ≡ Place.waiting)
    × (u.coordinator.state ≡ State.succeeded)
    × (u.coordinator.completion_event ≡ some true)
Advanced (suc zero) u i = (u.places i ≡ Place.looking) × (u.coordinator.state ≡ State.succeeded)
Advanced (suc (suc zero)) u i = u.places i ≡ Place.returned true
Advanced (suc (suc (suc n))) u i = Unit

-- The two steps of the caller.
by_caller-woken :
    {callback : Bool} {s t : System} {i : ℕ} (st : Step callback s t)
    → mover st ≡ some i
    → Advanced 0 s i
    → Advanced 1 t i
by_caller-woken (Step.begin created spawned) m a = cc
by_caller-woken (Step.work success h) m a = cc
by_caller-woken (Step.enter i h) m a = ground arith
by_caller-woken (Step.look i h) m a = ground arith
by_caller-woken (Step.wake i h e) m a = ground arith
by_caller-woken (Step.attempt i created h) m a = ground arith
by_caller-woken (Step.settle i success h) m a = ground arith
by_caller-woken (Step.shut h quiet) m a = cc

by_caller-returned :
    {callback : Bool} {s t : System} {i : ℕ} (st : Step callback s t)
    → mover st ≡ some i
    → Advanced 1 s i
    → Advanced 2 t i
unfolding ensure_initialized_round
by_caller-returned (Step.begin created spawned) m a = cc
by_caller-returned (Step.work success h) m a = cc
by_caller-returned (Step.enter i h) m a = ground arith
by_caller-returned (Step.look i h) m a = ground arith
by_caller-returned (Step.wake i h e) m a = ground arith
by_caller-returned (Step.attempt i created h) m a = ground arith
by_caller-returned (Step.settle i success h) m a = ground arith
by_caller-returned (Step.shut h quiet) m a = cc

by_caller-Advanced :
    (n : ℕ) {callback : Bool} {s t : System} {i : ℕ} (st : Step callback s t)
    → mover st ≡ some i
    → Advanced n s i
    → Advanced (suc n) t i
by_caller-Advanced zero st m a = by_caller-woken st m a
by_caller-Advanced (suc zero) st m a = by_caller-returned st m a
by_caller-Advanced (suc (suc n)) st m a = tt

-- A step of another leaves the caller where it is, and, while the caller waits or looks, the state
-- succeeded and the event signalled: no attempt can then begin or end, and `Reset` is not called.
by_other-places :
    {callback : Bool} {s t : System} {i : ℕ} (st : Step callback s t)
    → mover st ≢ some i
    → t.places i ≡ s.places i
by_other-places (Step.begin created spawned) m = refl
by_other-places (Step.work success h) m = refl
by_other-places (Step.enter j h) m = ground arith
by_other-places (Step.look j h) m = ground arith
by_other-places (Step.wake j h e) m = ground arith
by_other-places (Step.attempt j created h) m = ground arith
by_other-places (Step.settle j success h) m = ground arith
by_other-places (Step.shut h quiet) m = refl

-- where the caller is in the loop
abbrev is_inside : Place → Bool
is_inside Place.waiting = true
is_inside Place.looking = true
is_inside _ = false

by_other-coordinator :
    {callback : Bool} {s t : System} (i : ℕ) (st : Step callback s t)
    → Inv s
    → is_inside (s.places i) ≡ true
    → s.coordinator.state ≡ State.succeeded
    → t.coordinator ≡ s.coordinator
unfolding begin_background_bootstrap run_bootstrap_synchronously
by_other-coordinator i (Step.begin created spawned) inv inside up = ground arith
by_other-coordinator i (Step.work success h) inv inside up = ground (arith, inv.worker_runs h)
by_other-coordinator i (Step.enter j h) inv inside up = refl
by_other-coordinator i (Step.look j h) inv inside up = refl
by_other-coordinator i (Step.wake j h e) inv inside up = refl
by_other-coordinator i (Step.attempt j created h) inv inside up = ground arith
by_other-coordinator i (Step.settle j success h) inv inside up = ground (arith, inv.caller_runs j h)
by_other-coordinator i (Step.shut h quiet) inv inside up = ground (arith, quiet i)

by_other-Advanced :
    (n : ℕ) {callback : Bool} {s t : System} {i : ℕ} (st : Step callback s t)
    → mover st ≢ some i
    → Inv s
    → Advanced n s i
    → Advanced n t i
by_other-Advanced zero {i = i} st m inv a =
    ground (arith, by_other-places st m, by_other-coordinator i st inv (ground arith) a.1)
by_other-Advanced (suc zero) {i = i} st m inv a =
    ground (arith, by_other-places st m, by_other-coordinator i st inv (ground arith) a.1)
by_other-Advanced (suc (suc zero)) st m inv a = by_other-places st m ∙ a
by_other-Advanced (suc (suc (suc n))) st m inv a = tt

Steps-Inv :
    {callback : Bool} {i : ℕ} {s : System} {n : ℕ} {t : System}
    → Steps callback i s n t
    → Inv s
    → Inv t
Steps-Inv Steps.here inv = inv
Steps-Inv (Steps.by_caller r st m) inv = Step-Inv st (Steps-Inv r inv)
Steps-Inv (Steps.by_other r st m) inv = Step-Inv st (Steps-Inv r inv)

Steps-Advanced :
    {callback : Bool} {i : ℕ} {s : System} {n : ℕ} {t : System}
    → Steps callback i s n t
    → Inv s
    → Advanced 0 s i
    → Advanced n t i
Steps-Advanced Steps.here inv a = a
Steps-Advanced (Steps.by_caller {n = k} r st m) inv a =
    by_caller-Advanced k st m (Steps-Advanced r inv a)
Steps-Advanced {n} (Steps.by_other r st m) inv a =
    by_other-Advanced n st m (Steps-Inv r inv) (Steps-Advanced r inv a)

State-cases :
    (s : State)
    → (s ≡ State.running) ⊎ ((s ≡ State.succeeded) ⊎ ((s ≢ State.running) × (s ≢ State.succeeded)))
State-cases s = ground arith

event_up : (e : Option Bool) → e ≢ none → e ≢ some false → e ≡ some true
event_up e n f = ground arith

attempt_of :
    {s : System}
    → Inv s
    → s.coordinator.state ≡ State.running
    → (a : Attempt) × (in_flight s a ≡ true)
attempt_of {s} inv runs = elim (inv.in_flight runs) [
  | inl b ↦ (Attempt.worker 0, ground (arith, b))
  | inr (j, c) ↦ (Attempt.caller j, ground (arith, c))
]

-- Until it has taken two steps of its own, the caller can take one.
abbrev pub CanGoOn : Bool → ℕ → System → ℕ → Type 0
CanGoOn callback zero u i = (v : System) × (st : Step callback u v) × (mover st ≡ some i)
CanGoOn callback (suc zero) u i = (v : System) × (st : Step callback u v) × (mover st ≡ some i)
CanGoOn callback (suc (suc n)) u i = Unit

Advanced-CanGoOn :
    (n : ℕ) (callback : Bool) (u : System) (i : ℕ) → Advanced n u i → CanGoOn callback n u i
Advanced-CanGoOn zero callback u i (waits, up, signalled) = (_, Step.wake i waits signalled, refl)
Advanced-CanGoOn (suc zero) callback u i (looks, up) = (_, Step.look i looks, refl)
Advanced-CanGoOn (suc (suc n)) callback u i a = tt

-- The end of an attempt, as it happens in `s`, signals the event.
abbrev pub Ends : System → Bool → Bool → Type 0
Ends s success close = (complete_bootstrap success close s.coordinator).completion_event ≡ some true

-- No wakeup is lost: in every reachable state in which a caller of `EnsureInitialized` waits for
-- the completion event, either an attempt is in flight, and its end, with success or without,
-- signals the event; or the state is neither running nor succeeded and the event is signalled; or
-- the bootstrap has succeeded, and then, whatever steps follow, of all threads in any order, the
-- caller waits with the event signalled until it takes a step, is back at the top of the loop after
-- one step of its own, and has returned true after two; and until then it can take its next step.
pub ensure_initialized_round-Advanced :
    {callback : Bool} {s t : System} {i n : ℕ}
    → Reach callback initial s
    → s.places i ≡ Place.waiting
    → (success close : Bool) → Steps callback i s n t
    → ((s.coordinator.state ≡ State.running)
        × ((a : Attempt) × (in_flight s a ≡ true))
        × Ends s success close)
      ⊎ (((s.coordinator.state ≢ State.running)
            × (s.coordinator.state ≢ State.succeeded)
            × (s.coordinator.completion_event ≡ some true))
          ⊎ (Advanced n t i × CanGoOn callback n t i))
unfolding complete_bootstrap
ensure_initialized_round-Advanced {callback} {s} {t} {i} {n} r h success close steps =
    let inv = Reach-Inv r in
    elim (State-cases s.coordinator.state) [
      | inl runs ↦ inl (runs, attempt_of inv runs, ground (arith, inv.unsignalled runs))
      | inr (inl ok) ↦
          let up = event_up _ (inv.event_kept i h) (λ down. ground (arith, inv.signalled down)) in
          let advanced = Steps-Advanced steps inv (h, ok, up) in
          inr (inr (advanced, Advanced-CanGoOn n callback t i advanced))
      | inr (inr stopped) ↦ inr (
          inl (
            stopped.0,
            stopped.1,
            event_up _ (inv.event_kept i h) (λ down. stopped.0 (inv.signalled down)),
          ))
    ]
