-- ===== src/Bindings/Startup.antt =====
-- HelenRuntime/BuildRuntimeCoordinator.cpp: start, stop, and the updates of the state observers. The
-- observer service is a parameter, by what its `Start` answers.
use helen_gamehook.Bindings.{set_config}
use helen_gamehook.Commands.Runs.{run_command}
use helen_gamehook.Commands.{Graphics, Ending, finished, threw, exhausted, World, Commands}
use helen_gamehook.Common.Int.{ℤ}
use helen_gamehook.Common.{
  ℕ, Bool, true, false, List, [], ◌∷◌, ◌++◌, Option, none, some, if◌then◌else◌, ◌≡◌, ◌≢◌, ◌⊎◌, inl,
  inr, refl, ap, Bool-cases, arith,
}
use helen_gamehook.Floats.{Floats}
use helen_gamehook.Paths.{Text}

-- `MemoryStateObserverUpdate`, as far as the coordinator acts on it.
pub record Update : Type 0 where
  pub config_key : Text
  pub mapped_value : ℤ
  pub command_id : Option Text

module _ (fl : Floats) (gr : Graphics) (saves : ℕ → Bool) where
  pub record Coordinator : Type 0 where
    pub startup_command_ids : List Text
    pub has_observers : Bool
    pub started : Bool

  -- The loop over the startup commands.
  unfoldable pub run_startup : Commands fl gr → List Text → World fl gr → Ending × World fl gr
  run_startup commands [] w = (finished true, w)
  run_startup commands (id ∷ ids) w =
      let r = run_command fl gr commands w id in
      elim r.0 [
        | finished b ↦ if b then run_startup commands ids r.1 else (finished false, r.1)
        | threw ↦ (threw, r.1)
        | exhausted ↦ (exhausted, r.1)
      ]

  -- `Start`; `observers_start` is the answer of the observers' own `Start`.
  unfoldable pub start :
      Commands fl gr → Bool → Coordinator → World fl gr → Ending × (Coordinator × World fl gr)
  unfolding run_startup
  start commands observers_start c w =
      if c.started
      then (finished true, (c, w))
      else (let r = run_startup commands c.startup_command_ids w in
          elim r.0 [
            | finished b ↦
                if b
                then (if c.has_observers
                    then (if observers_start
                        then (finished true, (record c { started = true }, r.1))
                        else (finished false, (c, r.1)))
                    else (finished true, (record c { started = true }, r.1)))
                else (finished false, (c, r.1))
            | threw ↦ (threw, (c, r.1))
            | exhausted ↦ (exhausted, (c, r.1))
          ])

  -- `Stop`
  unfoldable pub stop : Coordinator → Coordinator
  stop c = record c { started = false }

  -- `HandleObserverUpdate`
  unfoldable pub handle_observer_update :
      Commands fl gr → World fl gr → Update → Ending × World fl gr
  handle_observer_update commands w u =
      let r = set_config fl gr saves w u.config_key u.mapped_value in
      elim r.0 [
        | finished b ↦
            if b
            then elim u.command_id [
              | none ↦ (finished true, r.1)
              | some id ↦ run_command fl gr commands r.1 id
            ]
            else (finished false, r.1)
        | threw ↦ (threw, r.1)
        | exhausted ↦ (exhausted, r.1)
      ]

  -- The commands have run in order, each with success, and have led from one world to the other.
  abbrev pub AllRan : Commands fl gr → List Text → World fl gr → World fl gr → Type 0
  AllRan commands [] w v = w ≡ v
  AllRan commands (id ∷ ids) w v =
      (u : World fl gr) × (run_command fl gr commands w id ≡ (finished true, u))
      × AllRan commands ids u v

  -- One of the commands, behind others that have run with success, has ended in another way, and is
  -- the last one that ran.
  abbrev pub FailsIn : Commands fl gr → List Text → World fl gr → Ending → World fl gr → Type 0
  FailsIn commands [] w e v = ⊥
  FailsIn commands (id ∷ ids) w e v =
      ((run_command fl gr commands w id ≡ (e, v)) × (e ≢ finished true))
      ⊎ ((u : World fl gr) × (run_command fl gr commands w id ≡ (finished true, u))
          × FailsIn commands ids u e v)

  -- What the loop over the startup commands has done.
  abbrev HasRun : Commands fl gr → List Text → World fl gr → Ending × World fl gr → Type 0
  HasRun commands ids w r =
      ((r.0 ≡ finished true) × AllRan commands ids w r.1)
      ⊎ ((r.0 ≢ finished true) × FailsIn commands ids w r.0 r.1)

  HasRun-next :
      (commands : Commands fl gr) (id : Text) (ids : List Text) (w u : World fl gr)
      (r : Ending × World fl gr)
      → run_command fl gr commands w id ≡ (finished true, u)
      → HasRun commands ids u r
      → HasRun commands (id ∷ ids) w r
  HasRun-next commands id ids w u r h (inl (e, all)) = inl (e, (u, h, all))
  HasRun-next commands id ids w u r h (inr (e, fails)) = inr (e, inr (u, h, fails))

  Ending-cases : (e : Ending) → (e ≡ finished true) ⊎ (e ≢ finished true)
  Ending-cases e = ground arith

  run_startup-succeeded :
      (commands : Commands fl gr) (id : Text) (ids : List Text) (w : World fl gr)
      → (run_command fl gr commands w id).0 ≡ finished true
      → run_startup commands (id ∷ ids) w
        ≡ run_startup commands ids (run_command fl gr commands w id).1
  unfolding run_startup
  run_startup-succeeded commands id ids w h = ground (arith, h)

  run_startup-stopped :
      (commands : Commands fl gr) (id : Text) (ids : List Text) (w : World fl gr)
      → (run_command fl gr commands w id).0 ≢ finished true
      → run_startup commands (id ∷ ids) w ≡ run_command fl gr commands w id
  unfolding run_startup
  run_startup-stopped commands id ids w h = ground (arith, h)

  run_startup-HasRun :
      (commands : Commands fl gr) (ids : List Text) (w : World fl gr)
      → HasRun commands ids w (run_startup commands ids w)
  run_startup-HasRun commands [] w = unfold run_startup in inl (refl, refl)
  run_startup-HasRun commands (id ∷ ids) w =
      let r = run_command fl gr commands w id in
      elim (Ending-cases r.0) [
        | inl e ↦
            let ran : r ≡ (finished true, r.1) = ap (λ (x : Ending). (x, r.1)) e in
            rw (run_startup-succeeded commands id ids w e) (
              HasRun-next commands id ids w r.1 (run_startup commands ids r.1) ran
                (run_startup-HasRun commands ids r.1))
        | inr n ↦ rw (run_startup-stopped commands id ids w n) (inr (n, inl (refl, n)))
      ]

  -- What `Start` did where it answered true: a coordinator that was started is left alone; else the
  -- startup commands have all run with success, and the observers, if there are any, have started.
  abbrev pub Started :
      Commands fl gr
      → Bool
      → Coordinator
      → World fl gr
      → Ending × (Coordinator × World fl gr)
      → Type 0
  Started commands observers_start c w r =
      (r.0 ≡ finished true)
      × (r.1.0 ≡ record c { started = true })
      × (((c.started ≡ true) × (r.1.1 ≡ w))
          ⊎ ((c.started ≡ false)
              × AllRan commands c.startup_command_ids w r.1.1
              × ((c.has_observers ≡ false) ⊎ (observers_start ≡ true))))

  -- What it did where it did not: a startup command has not ended with success, and `Start` ends as
  -- it did; or the observers have not started.
  abbrev pub NotStarted :
      Commands fl gr
      → Bool
      → Coordinator
      → World fl gr
      → Ending × (Coordinator × World fl gr)
      → Type 0
  NotStarted commands observers_start c w r =
      (r.0 ≢ finished true)
      × (c.started ≡ false)
      × (r.1.0 ≡ c)
      × (FailsIn commands c.startup_command_ids w r.0 r.1.1
          ⊎ ((r.0 ≡ finished false)
              × AllRan commands c.startup_command_ids w r.1.1
              × (c.has_observers ≡ true)
              × (observers_start ≡ false)))

  start-observed :
      (commands : Commands fl gr) (observers_start : Bool) (c : Coordinator) (w : World fl gr)
      → c.started ≡ false
      → (run_startup commands c.startup_command_ids w).0 ≡ finished true
      → start commands observers_start c w ≡ (
          let v = (run_startup commands c.startup_command_ids w).1 in
          if c.has_observers
          then (if observers_start
              then (finished true, (record c { started = true }, v))
              else (finished false, (c, v)))
          else (finished true, (record c { started = true }, v)))
  unfolding start
  start-observed commands observers_start c w e h = ground (arith, e, h)

  start-stopped :
      (commands : Commands fl gr) (observers_start : Bool) (c : Coordinator) (w : World fl gr)
      → c.started ≡ false
      → (run_startup commands c.startup_command_ids w).0 ≢ finished true
      → start commands observers_start c w
        ≡ (let r = run_startup commands c.startup_command_ids w in (r.0, (c, r.1)))
  unfolding start
  start-stopped commands observers_start c w e h = ground (arith, e, h)

  start-started :
      (commands : Commands fl gr) (observers_start : Bool) (c : Coordinator) (w : World fl gr)
      → c.started ≡ true
      → start commands observers_start c w ≡ (finished true, (c, w))
  unfolding start
  start-started commands observers_start c w e = ground (arith, e)

  -- `Start` either answers true and the coordinator is then started: it was so before, and the call
  -- changed nothing, or its startup commands have run in order, all with success, its observers, if
  -- there are any, have started, and that is all it did; and a second `Start` then changes nothing.
  -- Or it does not answer true, and the coordinator was not started and is as it was: the startup
  -- commands have run up to one that did not end with success, whose ending `Start` shares; or they
  -- all ran with success and the observers have not started.
  pub start-Started :
      (commands : Commands fl gr) (observers_start observers_start' : Bool) (c : Coordinator)
      (w : World fl gr)
      → let r = start commands observers_start c w in
        (Started commands observers_start c w r
          × (start commands observers_start' r.1.0 r.1.1 ≡ (finished true, r.1)))
        ⊎ NotStarted commands observers_start c w r
  start-Started commands observers_start observers_start' c w = elim (Bool-cases c.started) [
    | inl e ↦ rw (start-started commands observers_start c w e) (
        inl
          ((refl, ground (arith, e), inl (e, refl)), start-started commands observers_start' c w e))
    | inr e ↦ elim (run_startup-HasRun commands c.startup_command_ids w) [
      | inl (h, all) ↦ rw (start-observed commands observers_start c w e h) (
          ground (
            arith,
            e,
            all,
            start-started commands observers_start' (record c { started = true })
                (run_startup commands c.startup_command_ids w).1 refl,
          ))
      | inr (n, fails) ↦
          rw (start-stopped commands observers_start c w e n) (inr (n, e, refl, inl fails))
    ]
  ]

  -- The startup commands run in order: `Start` goes on with the rest where the first ones end.
  pub run_startup-append :
      (commands : Commands fl gr) (ids ids' : List Text) (w : World fl gr)
      → (run_startup commands ids w).0 ≡ finished true
      → run_startup commands (ids ++ ids') w
        ≡ run_startup commands ids' (run_startup commands ids w).1
  unfolding run_startup
  run_startup-append commands [] ids' w h = refl
  run_startup-append commands (id ∷ ids) ids' w h =
      ground (arith, h, run_startup-append commands ids ids' (run_command fl gr commands w id).1)
