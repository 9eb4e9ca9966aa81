-- ===== src/Bootstrap/System.antt =====
-- The coordinator's threads, interleaved in any order: background workers and callers of
-- `EnsureInitialized`. A step is one stretch of code under the mutex, a callback's return, or a
-- wait that ends. `Reset` is called with no attempt in flight, as its comment asks, and with no
-- caller at work, since its handles are closed under whoever waits.
use helen_gamehook.Common.{
  ℕ, ◌-◌, ◌+◌, ◌≤◌, ◌<◌, ◌≡◌, ◌≢◌, ◌⊎◌, Bool, true, false, ◌&&◌, none, some, if◌then◌else◌, ◌==◌,
  arith,
}
use helen_gamehook.Bootstrap.{
  State, Coordinator, new, begin_background_bootstrap, complete_bootstrap, reset, Place,
  ensure_initialized_round, run_bootstrap_synchronously,
}

abbrev pub update : (ℕ → Place) → ℕ → Place → ℕ → Place
update places i p j = if j == i then p else places j

-- `background` counts the worker threads that have not yet completed their attempt.
pub record System : Type 0 where
  pub coordinator : Coordinator
  pub background : ℕ
  pub places : ℕ → Place

abbrev pub initial : System
initial = record { coordinator = new; background = 0; places = λ _. Place.outside }

-- A caller's step: the coordinator and the caller's place change.
abbrev pub move : System → ℕ → Coordinator × Place → System
move s i after = record s { coordinator = after.0; places = update s.places i after.1 }

abbrev is_out : Place → Bool
is_out Place.outside = true
is_out (Place.returned _) = true
is_out _ = false

pub data Step (callback : Bool) (s : System) : System → Type 0 where
  begin :
      (created spawned : Bool)
      → Step callback s (
          let b = begin_background_bootstrap callback created spawned s.coordinator in
          record s {
            coordinator = b.coordinator;
            background = if b.started then s.background + 1 else s.background;
          })
  work :
      (success : Bool)
      → 0 < s.background
      → Step callback s (record s {
        coordinator = complete_bootstrap (callback && success) true s.coordinator;
        background = s.background - 1;
      })
  enter :
      (i : ℕ)
      → is_out (s.places i) ≡ true
      → Step callback s (move s i (s.coordinator, Place.looking))
  look :
      (i : ℕ)
      → s.places i ≡ Place.looking
      → Step callback s (move s i (s.coordinator, ensure_initialized_round s.coordinator))
  wake :
      (i : ℕ)
      → s.places i ≡ Place.waiting
      → s.coordinator.completion_event ≡ some true
      → Step callback s (move s i (s.coordinator, Place.looking))
  attempt :
      (i : ℕ) (created : Bool)
      → s.places i ≡ Place.attempting
      → Step callback s (move s i (run_bootstrap_synchronously callback created s.coordinator))
  settle :
      (i : ℕ) (success : Bool)
      → s.places i ≡ Place.calling
      → Step callback s
          (move s i (complete_bootstrap success false s.coordinator, Place.returned success))
  shut :
      s.coordinator.state ≢ State.running
      → ((i : ℕ) → is_out (s.places i) ≡ true)
      → Step callback s (record s { coordinator = reset s.coordinator })

pub data Reach (callback : Bool) (s : System) : System → Type 0 where
  here : Reach callback s s
  next : {t u : System} → Reach callback s t → Step callback t u → Reach callback s u

-- What holds between two steps: an attempt is in flight exactly while the state is running, and
-- there is one; the event exists unsignalled exactly then; who waits, waits on an event.
pub record Inv (s : System) : Type 0 where
  pub one_worker : s.background ≤ 1
  pub worker_runs : 0 < s.background → s.coordinator.state ≡ State.running
  pub caller_runs : (i : ℕ) → s.places i ≡ Place.calling → s.coordinator.state ≡ State.running
  pub no_worker : (i : ℕ) → s.places i ≡ Place.calling → s.background ≡ 0
  pub one_caller : (i j : ℕ) → s.places i ≡ Place.calling → s.places j ≡ Place.calling → i ≡ j
  pub in_flight :
      s.coordinator.state ≡ State.running
      → (s.background ≡ 1) ⊎ ((i : ℕ) × (s.places i ≡ Place.calling))
  pub unsignalled :
      s.coordinator.state ≡ State.running → s.coordinator.completion_event ≡ some false
  pub signalled : s.coordinator.completion_event ≡ some false → s.coordinator.state ≡ State.running
  pub event_kept : (i : ℕ) → s.places i ≡ Place.waiting → s.coordinator.completion_event ≢ none

pub initial-Inv : Inv initial
initial-Inv = ground arith
