-- ===== src/Routes/Transaction.antt =====
-- HelenRuntime/FileWriteRoutingTransaction.cpp: one write under the routing service's lock. What the
-- transaction asks of the service (FileWriteRoutingService) is a record of its two calls.
use helen_gamehook.Common.{ℕ, ◌≡◌, refl, Bool, true, false, List, [], ◌∷◌, if◌then◌else◌, arith}
use helen_gamehook.Paths.{Text}

pub record RoutingService : Type 1 where
  pub S : Type 0
  -- `LatchRoutesFailed`, and `SynchronizeRoutes` with its error code
  pub latch_routes_failed : List Text → S → S
  pub synchronize_routes : List Text → S → Bool × ℕ × S

-- `FileWriteRoutingTransaction`: `lock` is whether the lock is owned.
pub record Transaction : Type 0 where
  pub route_keys : List Text
  pub settled : Bool
  pub lock : Bool

abbrev pub error_invalid_state : ℕ
error_invalid_state = 5023

-- the constructor takes the lock over
unfoldable pub begin : List Text → Transaction
begin route_keys = record { route_keys = route_keys; settled = false; lock = true }

abbrev settle : Transaction → Transaction
settle t = record t { settled = true; lock = false }

module _ (v : RoutingService) where
  open v use {S}

  -- `Synchronize`: the answer and the error, which a call that is not refused leaves to the service
  unfoldable pub synchronize : Transaction → S → Bool × ℕ × Transaction × S
  synchronize t s =
      let (answer, error, s') = v.synchronize_routes t.route_keys s in
      if t.settled then (false, error_invalid_state, t, s) else (answer, error, settle t, s')

  -- `CancelWithoutWrite`
  unfoldable pub cancel_without_write : Transaction → Transaction
  cancel_without_write t = if t.settled then t else settle t

  -- the destructor
  unfoldable pub end_transaction : Transaction → S → Transaction × S
  end_transaction t s = (settle t, if t.settled then s else v.latch_routes_failed t.route_keys s)

  pub data Call : Type 0 where
    synchronizes cancels : Call

  unfoldable pub run : List Call → Transaction → S → Transaction × S
  unfolding synchronize cancel_without_write
  run [] t s = (t, s)
  run (synchronizes ∷ cs) t s = let (answer, error, t', s') = synchronize t s in run cs t' s'
  run (cancels ∷ cs) t s = run cs (cancel_without_write t) s

  -- What the first call decides; with no call the routes have failed.
  abbrev decided : List Call → List Text → S → S
  decided [] keys s = v.latch_routes_failed keys s
  decided (synchronizes ∷ cs) keys s = (v.synchronize_routes keys s).2
  decided (cancels ∷ cs) keys s = s

  run-settled : (cs : List Call) (t : Transaction) (s : S) → t.settled ≡ true → run cs t s ≡ (t, s)
  unfolding run
  run-settled [] t s h = refl
  run-settled (synchronizes ∷ cs) t s h = ground (arith, h, run-settled cs t s h)
  run-settled (cancels ∷ cs) t s h = ground (arith, h, run-settled cs t s h)

  -- Whatever calls a transaction sees before its end, the service is asked once: to synchronise the
  -- routes or for nothing, as the first call has it, and to latch them as failed if there was no
  -- call; and the lock is given back.
  pub end_transaction-run :
      (cs : List Call) (keys : List Text) (s : S)
      → let after = run cs (begin keys) s in
        (end_transaction after.0 after.1).1 ≡ decided cs keys s
        × ((end_transaction after.0 after.1).0.lock ≡ false)
  unfolding end_transaction run begin
  end_transaction-run [] keys s = (refl, refl)
  end_transaction-run (synchronizes ∷ cs) keys s =
      ground (arith, run-settled cs (settle (begin keys)) (v.synchronize_routes keys s).2 refl)
  end_transaction-run (cancels ∷ cs) keys s =
      ground (arith, run-settled cs (settle (begin keys)) s refl)
