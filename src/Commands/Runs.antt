-- ===== src/Commands/Runs.antt =====
-- HelenRuntime/CommandExecutor.cpp: both functions `RunCommand`. The private one recurses through
-- `run-command` steps; it stops because a command that is on the stack is refused, and here has fuel.
use helen_gamehook.Common.Maps.{find}
use helen_gamehook.Common.{
  ℕ, zero, suc, Bool, true, false, List, [], ◌∷◌, none, some, if◌then◌else◌, length,
}
use helen_gamehook.Commands.{
  Graphics, Ending, finished, threw, exhausted, Step, Command, World, Frame, Commands, execute_step,
}
use helen_gamehook.Floats.{Floats}
use helen_gamehook.Paths.Keys.{text_key}
use helen_gamehook.Paths.{Text, text_eq, is_empty}
use helen_gamehook.RuntimeValues.{take_snapshot, restore_snapshot}

-- `std::find` over the stack, whose top comes first here.
unfoldable pub is_active : Text → List Text → Bool
is_active id [] = false
is_active id (k ∷ stack) = if text_eq k id then true else is_active id stack

module _ (fl : Floats) (gr : Graphics) where
  -- The loop over the steps.
  unfoldable pub run_steps :
      (Command fl gr → Frame fl gr → Ending × Frame fl gr)
      → Commands fl gr
      → List (Step fl gr)
      → Frame fl gr
      → Ending × Frame fl gr
  run_steps call commands [] f = (finished true, f)
  run_steps call commands (step ∷ steps) f =
      let r = execute_step fl gr call commands step f in
      elim r.0 [
        | finished b ↦ if b then run_steps call commands steps r.1 else (finished false, r.1)
        | threw ↦ (threw, r.1)
        | exhausted ↦ (exhausted, r.1)
      ]

  -- The private `RunCommand`
  unfoldable pub run_frame :
      ℕ → Commands fl gr → List Text → Command fl gr → Frame fl gr → Ending × Frame fl gr
  unfolding run_steps is_active
  run_frame zero commands stack command f = (exhausted, f)
  run_frame (suc n) commands stack command f =
      if is_empty command.id
      then (finished false, f)
      else if is_active command.id stack
      then (finished false, f)
      else run_steps (run_frame n commands (command.id ∷ stack)) commands command.steps f

  abbrev pub new_frame : World fl gr → Frame fl gr
  new_frame w = record { int_values = []; double_values = []; world = w }

  -- How the public `RunCommand` ends: a failed run restores the snapshot, which may throw.
  unfoldable pub end_run : World fl gr → Ending × Frame fl gr → Ending × World fl gr
  end_run w (finished true, f) = (finished true, f.world)
  end_run w (finished false, f) =
      let restored =
        restore_snapshot fl f.world.runtime_values (take_snapshot fl w.runtime_values) in
      (if restored.0 then finished false else threw, record f.world { runtime_values = restored.1 })
  end_run w (threw, f) = (threw, f.world)
  end_run w (exhausted, f) = (exhausted, f.world)

  unfoldable pub run_fuelled : ℕ → Commands fl gr → World fl gr → Text → Ending × World fl gr
  unfolding run_frame end_run
  run_fuelled n commands w id = elim (find id commands) [
    | none ↦ (finished false, w)
    | some command ↦ end_run w (run_frame n commands [] command (new_frame w))
  ]

  -- The public `RunCommand`, with one more unit of fuel than there are commands.
  unfoldable pub run_command : Commands fl gr → World fl gr → Text → Ending × World fl gr
  unfolding run_fuelled
  run_command commands w id = run_fuelled (suc (length commands)) commands w id
