-- ===== src/Commands/Rollback.antt =====
-- HelenRuntime/CommandExecutor.cpp: a command that fails leaves no trace in the live slots.
use helen_gamehook.Common.Maps.{find}
use helen_gamehook.Common.{
  ℕ, suc, ◌≡◌, refl, sym, subst, true, false, List, [], ◌∷◌, length, arith, Option-cases, inl, inr,
}
use helen_gamehook.Commands.Runs.{run_frame, end_run, run_fuelled, run_command, new_frame}
use helen_gamehook.Commands.Slots.{Keeps, Keeps-frame}
use helen_gamehook.Commands.{Graphics, Ending, finished, threw, exhausted, World, Frame, Commands}
use helen_gamehook.Floats.{Floats, IsIeee}
use helen_gamehook.Paths.Keys.{text_key}
use helen_gamehook.Paths.{Text}
use helen_gamehook.RuntimeValues.Snapshots.{
  IsSound, IsSoundAt, restore_snapshot-take_snapshot, register_slot-IsSound,
}
use helen_gamehook.RuntimeValues.{Store, SlotDefinition, new_store, register_slot}

module _ (fl : Floats) (gr : Graphics) (ieee : IsIeee fl) where
  -- The end of a run over a sound store: what was sound stays sound, a failure has brought every slot
  -- back, and restoring does not throw.
  pub record Ends (w : World fl gr) (k : Text) (inner outer : Ending) (t : Store fl) : Type 0 where
    pub stays_sound : IsSoundAt fl (find k t.values)
    pub brings_back : outer ≡ finished false → find k t.values ≡ find k w.runtime_values.values
    pub same_ending : outer ≡ inner

  pub end_run-Ends :
      (w : World fl gr) (k : Text) (r : Ending × Frame fl gr)
      → IsSound fl w.runtime_values
      → Keeps fl gr ieee w.runtime_values r.1.world.runtime_values
      → Ends w k r.0 (end_run fl gr w r).0 (end_run fl gr w r).1.runtime_values
  unfolding end_run
  end_run-Ends w k (finished true, f) sound keeps = record {
    stays_sound = keeps.still_sound sound k;
    brings_back = λ e. cc;
    same_ending = refl;
  }
  end_run-Ends w k (finished false, f) sound keeps =
      let (done, back) =
        restore_snapshot-take_snapshot fl w.runtime_values f.world.runtime_values k sound
          keeps.same_slots in
      record {
        stays_sound = subst (λ o. IsSoundAt fl o) (sym back) (sound k);
        brings_back = λ e. back;
        same_ending = ground (arith, done);
      }
  end_run-Ends w k (threw, f) sound keeps = record {
    stays_sound = keeps.still_sound sound k;
    brings_back = λ e. cc;
    same_ending = refl;
  }
  end_run-Ends w k (exhausted, f) sound keeps = record {
    stays_sound = keeps.still_sound sound k;
    brings_back = λ e. cc;
    same_ending = refl;
  }

  -- A run keeps the store sound, however it ends.
  pub run_command-IsSound :
      (commands : Commands fl gr) (w : World fl gr) (id : Text)
      → IsSound fl w.runtime_values
      → IsSound fl (run_command fl gr commands w id).1.runtime_values
  unfolding run_command run_fuelled
  run_command-IsSound commands w id sound k = elim (Option-cases (find id commands)) [
    | inl e ↦ ground (arith, e, sound k)
    | inr (c, e) ↦
        let r = run_frame fl gr (suc (length commands)) commands [] c (new_frame fl gr w) in
        let ends =
          end_run-Ends w k r sound
            (Keeps-frame fl gr ieee (suc (length commands)) commands [] c (new_frame fl gr w)) in
        ground (arith, e, ends.stays_sound)
  ]

  -- A run that answers false over a sound store leaves in every slot the value that it held before
  -- the run, whatever the command's steps, and those of the commands that it calls, have written.
  pub run_command-false :
      (commands : Commands fl gr) (w : World fl gr) (id k : Text)
      → IsSound fl w.runtime_values
      → (run_command fl gr commands w id).0 ≡ finished false
      → find k (run_command fl gr commands w id).1.runtime_values.values
        ≡ find k w.runtime_values.values
  unfolding run_command run_fuelled
  run_command-false commands w id k sound failed = elim (Option-cases (find id commands)) [
    | inl e ↦ ground (arith, e)
    | inr (c, e) ↦
        let r = run_frame fl gr (suc (length commands)) commands [] c (new_frame fl gr w) in
        let ends =
          end_run-Ends w k r sound
            (Keeps-frame fl gr ieee (suc (length commands)) commands [] c (new_frame fl gr w)) in
        ground (arith, e, ends.brings_back)
  ]

  -- Every slot that `RegisterSlot` has made since the store was new, with runs of commands between.
  pub data Call : Type 0 where
    registers : ℕ → SlotDefinition fl → Call
    runs : Text → Call

  unfoldable pub step : Commands fl gr → World fl gr → Call → World fl gr
  step commands w (registers address d) = record w {
    runtime_values = (register_slot fl w.runtime_values address d).1;
  }
  step commands w (runs id) = (run_command fl gr commands w id).1

  unfoldable pub run : Commands fl gr → World fl gr → List Call → World fl gr
  run commands w [] = w
  run commands w (c ∷ cs) = run commands (step commands w c) cs

  step-IsSound :
      (commands : Commands fl gr) (w : World fl gr) (c : Call)
      → IsSound fl w.runtime_values
      → IsSound fl (step commands w c).runtime_values
  unfolding step
  step-IsSound commands w (registers address d) sound =
      register_slot-IsSound fl w.runtime_values address d ieee sound
  step-IsSound commands w (runs id) sound = run_command-IsSound commands w id sound

  run-IsSound :
      (commands : Commands fl gr) (w : World fl gr) (cs : List Call)
      → IsSound fl w.runtime_values
      → IsSound fl (run commands w cs).runtime_values
  unfolding run
  run-IsSound commands w [] sound = sound
  run-IsSound commands w (c ∷ cs) sound =
      run-IsSound commands (step commands w c) cs (step-IsSound commands w c sound)

  -- From a world whose store has no slot yet, after any history of registered slots and of runs, a
  -- run that answers false leaves every slot as it was.
  pub run-run_command-false :
      (commands : Commands fl gr) (w : World fl gr) (cs : List Call) (id k : Text)
      → w.runtime_values ≡ new_store fl
      → (run_command fl gr commands (run commands w cs) id).0 ≡ finished false
      → find k (run_command fl gr commands (run commands w cs) id).1.runtime_values.values
        ≡ find k (run commands w cs).runtime_values.values
  run-run_command-false commands w cs id k fresh failed =
      run_command-false commands (run commands w cs) id k
        (run-IsSound commands w cs (subst (λ s. IsSound fl s) (sym fresh) (λ j. unfold find in tt)))
        failed
