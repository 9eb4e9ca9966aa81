-- ===== src/Commands/Fuel.antt =====
-- HelenRuntime/CommandExecutor.cpp: runs end. Every nested run puts one more registered command on
-- the stack, so their depth is at most the number of commands.
use helen_gamehook.Common.Maps.Laws.{find-emplace}
use helen_gamehook.Common.Maps.{find, contains}
use helen_gamehook.Common.{
  ℕ, zero, suc, ◌<◌, ◌≤◌, ◌≡◌, ◌≢◌, refl, true, false, List, [], ◌∷◌, Option, none, some,
  if◌then◌else◌, length, arith, Bool-cases, Option-cases, inl, inr,
}
use helen_gamehook.Commands.Runs.{
  is_active, run_steps, run_frame, run_fuelled, end_run, run_command, new_frame,
}
use helen_gamehook.Commands.{
  Graphics, StepKind, Ending, finished, threw, exhausted, Step, Command, World, Frame, Commands,
  execute_step, execute_kind, step_kind, run_nested, apply_graphics, load_graphics,
  register_command,
}
use helen_gamehook.Floats.{Floats}
use helen_gamehook.Paths.Keys.{text_key}
use helen_gamehook.Paths.{Text}

module _ (fl : Floats) (gr : Graphics) where
  -- Each command is registered under its own identifier.
  abbrev pub IsNamedAt : Text → Option (Command fl gr) → Type 0
  IsNamedAt k none = Unit {0}
  IsNamedAt k (some c) = c.id ≡ k

  abbrev pub AreNamed : Commands fl gr → Type 0
  AreNamed commands = (k : Text) → IsNamedAt k (find k commands)

  pub register_command-AreNamed :
      (commands : Commands fl gr) (c : Command fl gr)
      → AreNamed commands
      → AreNamed (register_command fl gr commands c).1
  unfolding register_command
  register_command-AreNamed commands c named k =
      grind (arith, find-emplace, named k, text_key.eqb_iff c.id k)

  -- The registered commands that are not on the stack.
  remaining : Commands fl gr → List Text → ℕ
  remaining [] stack = 0
  remaining ((k, c) ∷ m) stack =
      let rest = remaining m stack in if is_active k stack then rest else suc rest

  remaining-push_le :
      (m : Commands fl gr) (id : Text) (stack : List Text)
      → remaining m (id ∷ stack) ≤ remaining m stack
  unfolding remaining is_active
  remaining-push_le [] id stack = omega arith
  remaining-push_le ((k, c) ∷ m) id stack = ground (arith, remaining-push_le m id stack)

  remaining-push_lt :
      (m : Commands fl gr) (id : Text) (stack : List Text)
      → contains id m ≡ true
      → is_active id stack ≡ false
      → remaining m (id ∷ stack) < remaining m stack
  unfolding remaining is_active find
  remaining-push_lt [] id stack h a = cc
  remaining-push_lt ((k, c) ∷ m) id stack h a = ground (
    arith,
    remaining-push_le m id stack,
    remaining-push_lt m id stack,
    text_key.eqb_iff k id,
    text_key.eqb_iff id k,
  )

  remaining-le_length : (m : Commands fl gr) (stack : List Text) → remaining m stack ≤ length m
  unfolding remaining
  remaining-le_length [] stack = omega arith
  remaining-le_length (e ∷ m) stack = ground (arith, remaining-le_length m stack)

  -- Two ways to run a nested command that agree on the registered commands.
  abbrev AgreeOn :
      (call call' : Command fl gr → Frame fl gr → Ending × Frame fl gr) → Commands fl gr → Type 0
  AgreeOn call call' commands =
      (k : Text) (c : Command fl gr) (f : Frame fl gr)
      → find k commands ≡ some c
      → (call c f ≡ call' c f) × ((call c f).0 ≢ exhausted)

  execute_kind-AgreeOn :
      (call call' : Command fl gr → Frame fl gr → Ending × Frame fl gr) (commands : Commands fl gr)
      → AgreeOn call call' commands
      → (kind : StepKind) (step : Step fl gr) (f : Frame fl gr)
      → (execute_kind fl gr call commands kind step f
          ≡ execute_kind fl gr call' commands kind step f)
        × ((execute_kind fl gr call commands kind step f).0 ≢ exhausted)
  unfolding execute_kind run_nested apply_graphics load_graphics
  execute_kind-AgreeOn call call' commands agree StepKind.read_config_int step f = (refl, λ e. cc)
  execute_kind-AgreeOn call call' commands agree StepKind.map_int_to_double step f = (refl, λ e. cc)
  execute_kind-AgreeOn call call' commands agree StepKind.set_live_double step f = (refl, λ e. cc)
  execute_kind-AgreeOn call call' commands agree StepKind.run_command_step step f =
      grind (arith, agree)
  execute_kind-AgreeOn call call' commands agree StepKind.log_message step f = ground arith
  execute_kind-AgreeOn call call' commands agree (StepKind.applies_graphics a) step f =
      (refl, ground arith)
  execute_kind-AgreeOn call call' commands agree (StepKind.loads_graphics l) step f =
      (refl, ground arith)
  execute_kind-AgreeOn call call' commands agree StepKind.unknown_kind step f = (refl, λ e. cc)

  run_steps-AgreeOn :
      (call call' : Command fl gr → Frame fl gr → Ending × Frame fl gr) (commands : Commands fl gr)
      → AgreeOn call call' commands
      → (steps : List (Step fl gr)) (f : Frame fl gr)
      → (run_steps fl gr call commands steps f ≡ run_steps fl gr call' commands steps f)
        × ((run_steps fl gr call commands steps f).0 ≢ exhausted)
  unfolding run_steps execute_step
  run_steps-AgreeOn call call' commands agree [] f = (refl, λ e. cc)
  run_steps-AgreeOn call call' commands agree (step ∷ steps) f =
      let (same, ends) =
        execute_kind-AgreeOn call call' commands agree (step_kind step.kind) step f in
      ground (
        arith,
        same,
        ends,
        run_steps-AgreeOn call call' commands agree steps
            (execute_kind fl gr call commands (step_kind step.kind) step f).1,
      )

  run_frame-enough :
      (commands : Commands fl gr) (named : AreNamed commands) (n n' : ℕ) (stack : List Text)
      (k : Text) (c : Command fl gr) (f : Frame fl gr)
      → find k commands ≡ some c
      → remaining commands stack < n
      → remaining commands stack < n'
      → (run_frame fl gr n commands stack c f ≡ run_frame fl gr n' commands stack c f)
        × ((run_frame fl gr n commands stack c f).0 ≢ exhausted)
  unfolding run_frame
  run_frame-enough commands named zero n' stack k c f found lt lt' = ground arith
  run_frame-enough commands named (suc n) zero stack k c f found lt lt' = ground arith
  run_frame-enough commands named (suc n) (suc n') stack k c f found lt lt' =
      elim (Bool-cases (is_active c.id stack)) [
        | inl active ↦ ground (arith, active)
        | inr inactive ↦
            let pushed : remaining commands (c.id ∷ stack) < remaining commands stack =
              remaining-push_lt commands c.id stack (ground (arith, found, named k)) inactive in
            let (same, ends) =
              run_steps-AgreeOn (run_frame fl gr n commands (c.id ∷ stack))
                (run_frame fl gr n' commands (c.id ∷ stack)) commands
                (λ k' c' f' found'.
                  run_frame-enough commands named n n' (c.id ∷ stack) k' c' f' found'
                    (omega (arith, pushed, lt)) (omega (arith, pushed, lt')))
                c.steps f in
            ground (arith, inactive, same, ends)
      ]

  end_run-exhausted :
      (w : World fl gr) (r : Ending × Frame fl gr)
      → r.0 ≢ exhausted
      → (end_run fl gr w r).0 ≢ exhausted
  unfolding end_run
  end_run-exhausted w (finished true, f) h = ground arith
  end_run-exhausted w (finished false, f) h = ground arith
  end_run-exhausted w (threw, f) h = h
  end_run-exhausted w (exhausted, f) h = h

  -- Over commands that `RegisterCommand` registered, a run of any command ends, whatever the commands
  -- call one another: it does not exhaust the fuel, and no larger fuel changes anything.
  pub run_command-run_fuelled :
      (commands : Commands fl gr) (n : ℕ) (w : World fl gr) (id : Text)
      → AreNamed commands
      → length commands < n
      → ((run_command fl gr commands w id).0 ≢ exhausted)
        × (run_command fl gr commands w id ≡ run_fuelled fl gr n commands w id)
  unfolding run_command run_fuelled
  run_command-run_fuelled commands n w id named more = elim (Option-cases (find id commands)) [
    | inl e ↦ ground (arith, e)
    | inr (c, e) ↦
        let bound = remaining-le_length commands [] in
        let (same, ends) =
          run_frame-enough commands named (suc (length commands)) n [] id c (new_frame fl gr w) e
            (omega (arith, bound)) (omega (arith, bound, more)) in
        ground (arith, e, same, end_run-exhausted w _ ends)
  ]
