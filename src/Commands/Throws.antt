-- ===== src/Commands/Throws.antt =====
-- HelenRuntime/CommandExecutor.cpp: the only exceptions of a run are those of the graphics service.
use helen_gamehook.Common.Maps.{find}
use helen_gamehook.Common.{
  ℕ, zero, suc, ◌≡◌, ◌≢◌, ◌⊎◌, true, false, List, [], ◌∷◌, length, arith, Option-cases, inl, inr,
}
use helen_gamehook.Commands.Rollback.{end_run-Ends}
use helen_gamehook.Commands.Fuel.{AreNamed, run_command-run_fuelled}
use helen_gamehook.Commands.Runs.{run_steps, run_frame, run_fuelled, run_command, new_frame}
use helen_gamehook.Commands.Slots.{Keeps-frame}
use helen_gamehook.Commands.{
  Graphics, Apply, Load, StepKind, Ending, finished, threw, Step, Command, World, Frame, Commands,
  execute_step, execute_kind, step_kind, run_nested, apply_graphics, load_graphics,
}
use helen_gamehook.Dispatcher.{Dispatcher, throws}
use helen_gamehook.Floats.{Floats, IsIeee}
use helen_gamehook.Paths.Keys.{text_key}
use helen_gamehook.Paths.{Text}
use helen_gamehook.RuntimeValues.Snapshots.{IsSound}

-- A graphics service whose calls always answer.
pub record NeverThrows (gr : Graphics) : Type 0 where
  pub applies_answers : (a : Apply) (g : gr.State) (d : Dispatcher) → (gr.applies a g d).0 ≢ throws
  pub loads_answers : (l : Load) (g : gr.State) (d : Dispatcher) → (gr.loads l g d).0 ≢ throws

module _ (fl : Floats) (gr : Graphics) (answers : NeverThrows gr) where
  kind_answers :
      (call : Command fl gr → Frame fl gr → Ending × Frame fl gr) (commands : Commands fl gr)
      → ((c : Command fl gr) (f : Frame fl gr) → (call c f).0 ≢ threw)
      → (kind : StepKind) (step : Step fl gr) (f : Frame fl gr)
      → (execute_kind fl gr call commands kind step f).0 ≢ threw
  unfolding execute_kind run_nested apply_graphics load_graphics
  kind_answers call commands h StepKind.read_config_int step f = λ e. cc
  kind_answers call commands h StepKind.map_int_to_double step f = λ e. cc
  kind_answers call commands h StepKind.set_live_double step f = λ e. cc
  kind_answers call commands h StepKind.run_command_step step f = grind (arith, h)
  kind_answers call commands h StepKind.log_message step f = ground arith
  kind_answers call commands h (StepKind.applies_graphics a) step f =
      ground (arith, answers.applies_answers a f.world.graphics f.world.dispatcher)
  kind_answers call commands h (StepKind.loads_graphics l) step f =
      ground (arith, answers.loads_answers l f.world.graphics f.world.dispatcher)
  kind_answers call commands h StepKind.unknown_kind step f = λ e. cc

  steps_answer :
      (call : Command fl gr → Frame fl gr → Ending × Frame fl gr) (commands : Commands fl gr)
      → ((c : Command fl gr) (f : Frame fl gr) → (call c f).0 ≢ threw)
      → (steps : List (Step fl gr)) (f : Frame fl gr)
      → (run_steps fl gr call commands steps f).0 ≢ threw
  unfolding run_steps execute_step
  steps_answer call commands h [] f = λ e. cc
  steps_answer call commands h (step ∷ steps) f = ground (
    arith,
    kind_answers call commands h (step_kind step.kind) step f,
    steps_answer call commands h steps
        (execute_kind fl gr call commands (step_kind step.kind) step f).1,
  )

  frame_answers :
      (n : ℕ) (commands : Commands fl gr) (stack : List Text) (c : Command fl gr) (f : Frame fl gr)
      → (run_frame fl gr n commands stack c f).0 ≢ threw
  unfolding run_frame
  frame_answers zero commands stack c f = λ e. cc
  frame_answers (suc n) commands stack c f = ground (
    arith,
    steps_answer (run_frame fl gr n commands (c.id ∷ stack)) commands
        (frame_answers n commands (c.id ∷ stack)) c.steps f,
  )

  -- Over registered commands, a sound store and a graphics service that never throws, every run
  -- answers: it ends, and neither a step nor the restoring of the snapshot throws.
  pub run_command-finished :
      (ieee : IsIeee fl) (commands : Commands fl gr) (w : World fl gr) (id : Text)
      → AreNamed fl gr commands
      → IsSound fl w.runtime_values
      → ((run_command fl gr commands w id).0 ≡ finished true)
        ⊎ ((run_command fl gr commands w id).0 ≡ finished false)
  unfolding run_command run_fuelled
  run_command-finished ieee commands w id named sound = elim (Option-cases (find id commands)) [
    | inl e ↦ ground (arith, e)
    | inr (c, e) ↦
        let n : ℕ = suc (length commands) in
        let r = run_frame fl gr n commands [] c (new_frame fl gr w) in
        let ends =
          end_run-Ends fl gr ieee w id r sound
            (Keeps-frame fl gr ieee n commands [] c (new_frame fl gr w)) in
        let enough = run_command-run_fuelled fl gr commands n w id named (omega arith) in
        ground
          (arith, e, ends.same_ending, enough.0, frame_answers n commands [] c (new_frame fl gr w))
  ]
