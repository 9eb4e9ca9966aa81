-- ===== src/Commands/Slots.antt =====
-- HelenRuntime/CommandExecutor.cpp: what a run, however it ends, may do to the live slots.
use helen_gamehook.Common.Maps.{find}
use helen_gamehook.Common.{
  ℕ, zero, suc, ◌≡◌, refl, sym, ◌⊎◌, ◌||◌, ap, ◌∙◌, subst, true, false, List, [], ◌∷◌, arith,
  Bool-cases, Option-cases, inl, inr,
}
use helen_gamehook.Commands.Runs.{is_active, run_steps, run_frame}
use helen_gamehook.Commands.{
  Graphics, StepKind, Ending, finished, threw, exhausted, Step, Command, Frame, Commands,
  execute_step, execute_kind, step_kind, run_nested, apply_graphics, load_graphics, read_int,
  map_int, set_live,
}
use helen_gamehook.Floats.{Floats, IsIeee}
use helen_gamehook.Paths.Keys.{text_key}
use helen_gamehook.Paths.{Text, is_empty}
use helen_gamehook.RuntimeValues.Snapshots.{IsSound, slots, set_double-slots, set_double-IsSound}
use helen_gamehook.RuntimeValues.{Store, set_double}

module _ (fl : Floats) (gr : Graphics) (ieee : IsIeee fl) where
  -- The slots stay, at their addresses, and stay sound.
  pub record Keeps (s t : Store fl) : Type 0 where
    pub same_slots : slots fl t.values ≡ slots fl s.values
    pub still_sound : IsSound fl s → IsSound fl t

  Keeps-equal : (s t : Store fl) → t ≡ s → Keeps s t
  Keeps-equal s t e = record {
    same_slots = ap (λ (u : Store fl). slots fl u.values) e;
    still_sound = subst (λ u. IsSound fl u) (sym e);
  }

  Keeps-Keeps : (s t u : Store fl) → Keeps s t → Keeps t u → Keeps s u
  Keeps-Keeps s t u k l = record {
    same_slots = l.same_slots ∙ k.same_slots;
    still_sound = λ sound. l.still_sound (k.still_sound sound);
  }

  Keeps-set_double :
      (s : Store fl) (name : Text) (v : fl.Double) → Keeps s (set_double fl s name v).1
  Keeps-set_double s name v = record {
    same_slots = set_double-slots fl s name v;
    still_sound = set_double-IsSound fl s name v ieee;
  }

  Keeps-read_int :
      (step : Step fl gr) (f : Frame fl gr)
      → (read_int fl gr step f).1.world.runtime_values ≡ f.world.runtime_values
  unfolding read_int
  Keeps-read_int step f = ground arith

  Keeps-map_int :
      (step : Step fl gr) (f : Frame fl gr)
      → (map_int fl gr step f).1.world.runtime_values ≡ f.world.runtime_values
  unfolding map_int
  Keeps-map_int step f = ground arith

  set_live-cases :
      (step : Step fl gr) (f : Frame fl gr)
      → ((set_live fl gr step f).1.world.runtime_values ≡ f.world.runtime_values)
        ⊎ ((v : fl.Double) × ((set_live fl gr step f).1.world.runtime_values
              ≡ (set_double fl f.world.runtime_values step.target v).1))
  unfolding set_live
  set_live-cases step f = elim (Bool-cases (is_empty step.target || is_empty step.value_name)) [
    | inl b ↦ inl (ground (arith, b))
    | inr b ↦ elim (Option-cases (find step.value_name f.double_values)) [
      | inl e ↦ inl (ground (arith, b, e))
      | inr (v, e) ↦ inr (v, ground (arith, b, e))
    ]
  ]

  Keeps-set_live :
      (step : Step fl gr) (f : Frame fl gr)
      → Keeps f.world.runtime_values (set_live fl gr step f).1.world.runtime_values
  Keeps-set_live step f = elim (set_live-cases step f) [
    | inl e ↦ Keeps-equal _ _ e
    | inr (v, e) ↦ Keeps-Keeps _ _ _ (Keeps-set_double _ _ v) (Keeps-equal _ _ e)
  ]

  abbrev KeepsCalls : (Command fl gr → Frame fl gr → Ending × Frame fl gr) → Type 0
  KeepsCalls call =
      (c : Command fl gr) (f : Frame fl gr)
      → Keeps f.world.runtime_values (call c f).1.world.runtime_values

  Keeps-nested :
      (call : Command fl gr → Frame fl gr → Ending × Frame fl gr) (commands : Commands fl gr)
      → KeepsCalls call
      → (step : Step fl gr) (f : Frame fl gr)
      → Keeps f.world.runtime_values (run_nested fl gr call commands step f).1.world.runtime_values
  unfolding run_nested
  Keeps-nested call commands keeps step f = elim (Bool-cases (is_empty step.command_id)) [
    | inl b ↦ Keeps-equal _ _ (ground (arith, b))
    | inr b ↦ elim (Option-cases (find step.command_id commands)) [
      | inl e ↦ Keeps-equal _ _ (ground (arith, b, e))
      | inr (c, e) ↦ Keeps-Keeps _ _ _ (keeps c f) (Keeps-equal _ _ (ground (arith, b, e)))
    ]
  ]

  Keeps-kind :
      (call : Command fl gr → Frame fl gr → Ending × Frame fl gr) (commands : Commands fl gr)
      → KeepsCalls call
      → (kind : StepKind) (step : Step fl gr) (f : Frame fl gr)
      → Keeps f.world.runtime_values
          (execute_kind fl gr call commands kind step f).1.world.runtime_values
  unfolding execute_kind apply_graphics load_graphics
  Keeps-kind call commands keeps StepKind.read_config_int step f =
      Keeps-equal _ _ (Keeps-read_int step f)
  Keeps-kind call commands keeps StepKind.map_int_to_double step f =
      Keeps-equal _ _ (Keeps-map_int step f)
  Keeps-kind call commands keeps StepKind.set_live_double step f = Keeps-set_live step f
  Keeps-kind call commands keeps StepKind.run_command_step step f =
      Keeps-nested call commands keeps step f
  Keeps-kind call commands keeps StepKind.log_message step f = Keeps-equal _ _ (ground arith)
  Keeps-kind call commands keeps (StepKind.applies_graphics a) step f = Keeps-equal _ _ refl
  Keeps-kind call commands keeps (StepKind.loads_graphics l) step f = Keeps-equal _ _ refl
  Keeps-kind call commands keeps StepKind.unknown_kind step f = Keeps-equal _ _ refl

  next_steps :
      (Command fl gr → Frame fl gr → Ending × Frame fl gr)
      → Commands fl gr
      → List (Step fl gr)
      → Ending × Frame fl gr
      → Ending × Frame fl gr
  unfolding run_steps
  next_steps call commands steps (finished true, f) = run_steps fl gr call commands steps f
  next_steps call commands steps (finished false, f) = (finished false, f)
  next_steps call commands steps (threw, f) = (threw, f)
  next_steps call commands steps (exhausted, f) = (exhausted, f)

  Keeps-next :
      (call : Command fl gr → Frame fl gr → Ending × Frame fl gr) (commands : Commands fl gr)
      (steps : List (Step fl gr)) (s : Store fl) (r : Ending × Frame fl gr)
      → Keeps s r.1.world.runtime_values
      → Keeps r.1.world.runtime_values
          (run_steps fl gr call commands steps r.1).1.world.runtime_values
      → Keeps s (next_steps call commands steps r).1.world.runtime_values
  unfolding next_steps
  Keeps-next call commands steps s (finished true, f) first rest = Keeps-Keeps _ _ _ first rest
  Keeps-next call commands steps s (finished false, f) first rest = first
  Keeps-next call commands steps s (threw, f) first rest = first
  Keeps-next call commands steps s (exhausted, f) first rest = first

  run_steps-next_steps :
      (call : Command fl gr → Frame fl gr → Ending × Frame fl gr) (commands : Commands fl gr)
      (step : Step fl gr) (steps : List (Step fl gr)) (f : Frame fl gr)
      → next_steps call commands steps (execute_step fl gr call commands step f)
        ≡ run_steps fl gr call commands (step ∷ steps) f
  unfolding next_steps run_steps
  run_steps-next_steps call commands step steps f = ground arith

  Keeps-steps :
      (call : Command fl gr → Frame fl gr → Ending × Frame fl gr) (commands : Commands fl gr)
      → KeepsCalls call
      → (steps : List (Step fl gr)) (f : Frame fl gr)
      → Keeps f.world.runtime_values (run_steps fl gr call commands steps f).1.world.runtime_values
  unfolding run_steps execute_step
  Keeps-steps call commands keeps [] f = Keeps-equal _ _ refl
  Keeps-steps call commands keeps (step ∷ steps) f =
      let first = Keeps-kind call commands keeps (step_kind step.kind) step f in
      let rest =
        Keeps-steps call commands keeps steps
          (execute_kind fl gr call commands (step_kind step.kind) step f).1 in
      subst (λ (r : Ending × Frame fl gr). Keeps f.world.runtime_values r.1.world.runtime_values)
        (run_steps-next_steps call commands step steps f)
        (Keeps-next call commands steps f.world.runtime_values
          (execute_kind fl gr call commands (step_kind step.kind) step f) first rest)

  -- However the nested runs end, and with any fuel, a run keeps the slots, their addresses and their
  -- soundness.
  pub Keeps-frame :
      (n : ℕ) (commands : Commands fl gr) (stack : List Text) (c : Command fl gr) (f : Frame fl gr)
      → Keeps f.world.runtime_values (run_frame fl gr n commands stack c f).1.world.runtime_values
  unfolding run_frame
  Keeps-frame zero commands stack c f = Keeps-equal _ _ refl
  Keeps-frame (suc n) commands stack c f = elim (Bool-cases (is_empty c.id)) [
    | inl b ↦ Keeps-equal _ _ (ground (arith, b))
    | inr b ↦ elim (Bool-cases (is_active c.id stack)) [
      | inl a ↦ Keeps-equal _ _ (ground (arith, b, a))
      | inr a ↦
          Keeps-Keeps _ _ _
            (Keeps-steps (run_frame fl gr n commands (c.id ∷ stack)) commands
              (Keeps-frame n commands (c.id ∷ stack)) c.steps f)
            (Keeps-equal _ _ (ground (arith, b, a)))
    ]
  ]
