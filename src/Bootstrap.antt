-- ===== src/Bootstrap.antt =====
-- HelenRuntime/ProxyBootstrapCoordinator.cpp: one bootstrap attempt, run by a background thread
-- or by a caller. Each function is what the code does while it holds the coordinator's mutex.
-- What CreateEventW and CreateThread answer is an argument.
pub mod System
pub mod Invariant
pub mod Released
use helen_gamehook.Common.{Bool, true, false, ◌&&◌, ◌||◌, Option, none, some, if◌then◌else◌}

pub data State : Type 0 where
  idle running succeeded failed : State

-- `completion_event_` is null, or a manual-reset event that is signalled or not;
-- `worker_thread_` is kept as whether a handle is owned.
pub record Coordinator : Type 0 where
  pub state : State
  pub completion_event : Option Bool
  pub worker_thread : Bool

abbrev pub new : Coordinator
new = record { state = State.idle; completion_event = none; worker_thread = false }

abbrev pub is_succeeded : State → Bool
is_succeeded State.succeeded = true
is_succeeded _ = false

abbrev pub is_running : State → Bool
is_running State.running = true
is_running _ = false

unfoldable pub is_initialized : Coordinator → Bool
is_initialized c = is_succeeded c.state

-- `CreateEventW` makes an event that is not signalled.
abbrev pub create_event : Option Bool → Bool → Option Bool
create_event (some signalled) created = some signalled
create_event none true = some false
create_event none false = none

abbrev pub is_some : Option Bool → Bool
is_some none = false
is_some (some _) = true

-- `SetEvent` and `ResetEvent`, on a null handle without effect
abbrev pub set_event : Bool → Option Bool → Option Bool
set_event signalled none = none
set_event signalled (some _) = some signalled

unfoldable pub ensure_completion_event_locked : (created : Bool) → Coordinator → Coordinator
ensure_completion_event_locked created c = record c {
  completion_event = create_event c.completion_event created;
}

-- What a call left behind: the coordinator, the value returned, and whether a thread was started.
pub record Begun : Type 0 where
  pub coordinator : Coordinator
  pub answer : Bool
  pub started : Bool

unfoldable pub start_worker : (spawned : Bool) → Coordinator → Begun
start_worker true c = record {
  coordinator = record c { worker_thread = true };
  answer = true;
  started = true;
}
start_worker false c = record {
  coordinator = record c {
    worker_thread = false;
    state = State.failed;
    completion_event = set_event true c.completion_event;
  };
  answer = false;
  started = false;
}

-- `ResetEvent` and `state_ = State::Running`
unfoldable pub enter_running : Coordinator → Coordinator
enter_running c = record c {
  completion_event = set_event false c.completion_event;
  state = State.running;
}

unfoldable pub begin_background_bootstrap : (callback created spawned : Bool) → Coordinator → Begun
unfolding ensure_completion_event_locked start_worker enter_running
begin_background_bootstrap callback created spawned c =
    if is_succeeded c.state || is_running c.state
    then record { coordinator = c; answer = true; started = false }
    else (if callback
        then (let c' = ensure_completion_event_locked created c in
            if is_some c'.completion_event
            then start_worker spawned (enter_running c')
            else record {
              coordinator = record c' { state = State.failed };
              answer = false;
              started = false;
            })
        else record { coordinator = c; answer = false; started = false })

unfoldable pub complete_bootstrap : (success close_worker_handle : Bool) → Coordinator → Coordinator
complete_bootstrap success close_worker_handle c = record c {
  state = if success then State.succeeded else State.failed;
  completion_event = set_event true c.completion_event;
  worker_thread = if close_worker_handle then false else c.worker_thread;
}

unfoldable pub reset : Coordinator → Coordinator
reset c = record c { worker_thread = false; completion_event = none; state = State.idle }

-- Where a caller of `EnsureInitialized` stands: outside, at the top of the loop, in
-- `WaitForSingleObject`, at the start of `RunBootstrapSynchronously`, in its callback, returned.
pub data Place : Type 0 where
  outside looking waiting attempting calling : Place
  returned : Bool → Place

-- one round of the loop of `EnsureInitialized`, up to the wait or the synchronous attempt
unfoldable pub ensure_initialized_round : Coordinator → Place
ensure_initialized_round c =
    if is_succeeded c.state
    then Place.returned true
    else (if is_running c.state && is_some c.completion_event
        then Place.waiting
        else Place.attempting)

-- the locked part of `RunBootstrapSynchronously`
unfoldable pub run_bootstrap_synchronously :
    (callback created : Bool) → Coordinator → Coordinator × Place
unfolding ensure_completion_event_locked enter_running
run_bootstrap_synchronously callback created c =
    if is_succeeded c.state
    then (c, Place.returned true)
    else (if is_running c.state
        then (c, Place.returned false)
        else (if callback
            then (let c' = ensure_completion_event_locked created c in
                if is_some c'.completion_event
                then (enter_running c', Place.calling)
                else (record c' { state = State.failed }, Place.returned false))
            else (record c { state = State.failed }, Place.returned false)))
