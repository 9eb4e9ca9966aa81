-- ===== src/Commands/Dispatchers.antt =====
-- HelenRuntime/CommandExecutor.cpp: runs change the dispatcher through the graphics service alone, so
-- that what its calls keep, runs keep.
use helen_gamehook.Common.Maps.{find}
use helen_gamehook.Common.{
  ℕ, zero, suc, ◌≡◌, Bool, true, false, List, [], ◌∷◌, length, arith, Option-cases, inl, inr,
}
use helen_gamehook.Commands.Runs.{
  run_steps, run_frame, end_run, run_fuelled, run_command, new_frame,
}
use helen_gamehook.Commands.{
  Graphics, Load, StepKind, Ending, finished, threw, exhausted, Step, Command, World, Frame,
  Commands, execute_step, execute_kind, step_kind, run_nested, apply_graphics, load_graphics,
  read_int, map_int, set_live,
}
use helen_gamehook.Dispatcher.{Dispatcher}
use helen_gamehook.Floats.{Floats}
use helen_gamehook.Paths.Keys.{text_key}
use helen_gamehook.Paths.{Text}

module _ (fl : Floats) (gr : Graphics) (P : Dispatcher → Bool)
    (loads_keep : (l : Load) (g : gr.State) (d : Dispatcher)
      → P d ≡ true
      → P (gr.loads l g d).1.1 ≡ true) where
  frame_has : Frame fl gr → Bool
  frame_has f = P f.world.dispatcher

  kind_keeps :
      (call : Command fl gr → Frame fl gr → Ending × Frame fl gr) (commands : Commands fl gr)
      → ((c : Command fl gr) (f : Frame fl gr) → frame_has f ≡ true → frame_has (call c f).1 ≡ true)
      → (kind : StepKind) (step : Step fl gr) (f : Frame fl gr) → frame_has f ≡ true
      → frame_has (execute_kind fl gr call commands kind step f).1 ≡ true
  unfolding frame_has execute_kind run_nested apply_graphics load_graphics read_int map_int set_live
  kind_keeps call commands h StepKind.read_config_int step f p = ground arith
  kind_keeps call commands h StepKind.map_int_to_double step f p = ground arith
  kind_keeps call commands h StepKind.set_live_double step f p = ground arith
  kind_keeps call commands h StepKind.run_command_step step f p = grind (arith, h)
  kind_keeps call commands h StepKind.log_message step f p = ground arith
  kind_keeps call commands h (StepKind.applies_graphics a) step f p = p
  kind_keeps call commands h (StepKind.loads_graphics l) step f p =
      loads_keep l f.world.graphics f.world.dispatcher p
  kind_keeps call commands h StepKind.unknown_kind step f p = p

  steps_keep :
      (call : Command fl gr → Frame fl gr → Ending × Frame fl gr) (commands : Commands fl gr)
      → ((c : Command fl gr) (f : Frame fl gr) → frame_has f ≡ true → frame_has (call c f).1 ≡ true)
      → (steps : List (Step fl gr)) (f : Frame fl gr) → frame_has f ≡ true
      → frame_has (run_steps fl gr call commands steps f).1 ≡ true
  unfolding run_steps execute_step
  steps_keep call commands h [] f p = p
  steps_keep call commands h (step ∷ steps) f p =
      let first = kind_keeps call commands h (step_kind step.kind) step f p in
      ground (
        arith,
        first,
        steps_keep call commands h steps
            (execute_kind fl gr call commands (step_kind step.kind) step f).1 first,
      )

  frame_keeps :
      (n : ℕ) (commands : Commands fl gr) (stack : List Text) (c : Command fl gr) (f : Frame fl gr)
      → frame_has f ≡ true
      → frame_has (run_frame fl gr n commands stack c f).1 ≡ true
  unfolding run_frame
  frame_keeps zero commands stack c f p = p
  frame_keeps (suc n) commands stack c f p = ground (
    arith,
    p,
    steps_keep (run_frame fl gr n commands (c.id ∷ stack)) commands
        (frame_keeps n commands (c.id ∷ stack)) c.steps f p,
  )

  end_run_keeps :
      (w : World fl gr) (r : Ending × Frame fl gr)
      → P (end_run fl gr w r).1.dispatcher ≡ frame_has r.1
  unfolding end_run frame_has
  end_run_keeps w (finished true, f) = ground arith
  end_run_keeps w (finished false, f) = ground arith
  end_run_keeps w (threw, f) = ground arith
  end_run_keeps w (exhausted, f) = ground arith

  -- A test of the dispatcher that holds before a run holds after it, if the graphics calls keep it.
  pub run_command_keeps :
      (commands : Commands fl gr) (w : World fl gr) (id : Text)
      → P w.dispatcher ≡ true
      → P (run_command fl gr commands w id).1.dispatcher ≡ true
  unfolding run_command run_fuelled
  run_command_keeps commands w id p = elim (Option-cases (find id commands)) [
    | inl e ↦ ground (arith, e, p)
    | inr (c, e) ↦
        let n : ℕ = suc (length commands) in
        ground (
          arith,
          e,
          end_run_keeps w (run_frame fl gr n commands [] c (new_frame fl gr w)),
          frame_keeps n commands [] c (new_frame fl gr w) (unfold frame_has in p),
        )
  ]
