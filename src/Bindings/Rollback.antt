-- ===== src/Bindings/Rollback.antt =====
-- HelenRuntime/ExternalBindingService.cpp: a set that fails takes back the integer and the slots.
use helen_gamehook.Bindings.{
  Binding, first_binding, serves_key, set_config, take_back, run_follow_up, try_handle_set_int,
}
use helen_gamehook.Commands.Dispatchers.{run_command_keeps}
use helen_gamehook.Commands.Rollback.{run_command-false}
use helen_gamehook.Commands.Runs.{run_command}
use helen_gamehook.Commands.{Graphics, Load, Ending, finished, threw, exhausted, World, Commands}
use helen_gamehook.Common.Int.{ℤ}
use helen_gamehook.Common.Maps.Laws.{find-assign}
use helen_gamehook.Common.Maps.{find, contains}
use helen_gamehook.Common.{
  ℕ, ◌≡◌, ◌⊎◌, refl, sym, ap, ◌∙◌, subst, Bool, true, false, List, [], ◌∷◌, some, arith,
  Option-cases, inl, inr,
}
use helen_gamehook.Dispatcher.{Dispatcher, try_get_int, try_set_int}
use helen_gamehook.Floats.{Floats, IsIeee}
use helen_gamehook.Paths.Keys.{text_key}
use helen_gamehook.Paths.{Text, codes}
use helen_gamehook.RuntimeValues.Snapshots.{IsSound}

-- The graphics calls unregister no integer, as the dispatcher has no operation for that.
abbrev pub KeepsKeys : Graphics → Type 0
KeepsKeys gr =
    (key : Text) (l : Load) (g : gr.State) (d : Dispatcher)
    → contains key d.int_values ≡ true
    → contains key (gr.loads l g d).1.1.int_values ≡ true

first_binding-serves :
    (mode key name : Text) (bindings : List Binding) (b : Binding)
    → first_binding (serves_key mode key) name bindings ≡ some b
    → b.config_key ≡ key
unfolding first_binding
first_binding-serves mode key name [] b h = cc
first_binding-serves mode key name (a ∷ bs) b h =
    ground (arith, text_key.eqb_iff a.config_key key, first_binding-serves mode key name bs b)

module _ (fl : Floats) (gr : Graphics) (saves : ℕ → Bool) (ieee : IsIeee fl)
    (keeps : KeepsKeys gr) where
  set_config_registered :
      (w : World fl gr) (key : Text) (v : ℤ)
      → contains key w.dispatcher.int_values ≡ true
      → ((set_config fl gr saves w key v).0 ≡ finished true)
        ⊎ ((set_config fl gr saves w key v).0 ≡ threw)
  unfolding set_config try_set_int
  set_config_registered w key v h = ground arith

  set_config_value :
      (w : World fl gr) (key : Text) (v : ℤ)
      → contains key w.dispatcher.int_values ≡ true
      → (try_get_int (set_config fl gr saves w key v).1.dispatcher key ≡ some v)
        × ((set_config fl gr saves w key v).1.runtime_values ≡ w.runtime_values)
  unfolding set_config try_set_int try_get_int
  set_config_value w key v h = (grind (arith, find-assign, text_key.eqb_iff), ground arith)

  -- What a failed set leaves of one integer and one slot.
  record TakenBack (w : World fl gr) (key k : Text) (previous : ℤ) (r : Ending × World fl gr)
      : Type 0 where
    integer : r.0 ≡ finished false → try_get_int r.1.dispatcher key ≡ some previous
    slot : r.0 ≡ finished false → find k r.1.runtime_values.values ≡ find k w.runtime_values.values

  take_back-TakenBack :
      (w : World fl gr) (key k : Text) (previous : ℤ) (r : Ending × World fl gr)
      → contains key r.1.dispatcher.int_values ≡ true
      → (r.0 ≡ finished false → find k r.1.runtime_values.values ≡ find k w.runtime_values.values)
      → TakenBack w key k previous (take_back fl gr saves key previous r)
  unfolding take_back
  take_back-TakenBack w key k previous (finished true, t) has same = record {
    integer = λ e. cc;
    slot = λ e. cc;
  }
  take_back-TakenBack w key k previous (finished false, t) has same =
      let (value, slots) = set_config_value t key previous has in
      let set = set_config_registered t key previous has in
      record {
        integer = λ e. ground (arith, set, value);
        slot = λ e. ground (arith, set, slots, same refl);
      }
  take_back-TakenBack w key k previous (threw, t) has same = record {
    integer = λ e. cc;
    slot = λ e. cc;
  }
  take_back-TakenBack w key k previous (exhausted, t) has same = record {
    integer = λ e. cc;
    slot = λ e. cc;
  }

  run_follow_up-TakenBack :
      (commands : Commands fl gr) (w : World fl gr) (command_id key k : Text) (previous v : ℤ)
      → IsSound fl w.runtime_values
      → contains key w.dispatcher.int_values ≡ true
      → TakenBack w key k previous (
          run_follow_up fl gr saves commands command_id key previous
            (set_config fl gr saves w key v))
  unfolding run_follow_up
  run_follow_up-TakenBack commands w command_id key k previous v sound has =
      elim (set_config_registered w key v has) [
        | inr e ↦ record { integer = λ f. ground (arith, e, f); slot = λ f. ground (arith, e, f) }
        | inl e ↦
            let t = (set_config fl gr saves w key v).1 in
            let (value, slots) = set_config_value w key v has in
            let taken =
              take_back-TakenBack w key k previous (run_command fl gr commands t command_id)
                (run_command_keeps fl gr (λ d. contains key d.int_values) (keeps key) commands t
                  command_id (unfold try_get_int in ground (arith, value)))
                (λ failed.
                  run_command-false fl gr ieee commands t command_id k
                    (subst (λ s. IsSound fl s) (sym slots) sound) failed
                  ∙ ap (λ s. find k s.values) slots) in
            record {
              integer = λ f. ground (arith, e, f, taken.integer);
              slot = λ f. ground (arith, e, f, taken.slot);
            }
      ]

  -- Over a sound store and a graphics service that unregisters nothing, `TryHandleSetInt` that answers
  -- false leaves the integer of its key and every slot as they were, whether no binding serves, the key
  -- is unknown, or the binding's command failed.
  pub try_handle_set_int-false :
      (commands : Commands fl gr) (bindings : List Binding) (w : World fl gr) (name key k : Text)
      (v : ℤ)
      → IsSound fl w.runtime_values
      → (try_handle_set_int fl gr saves commands bindings w name key v).0 ≡ finished false
      → let t = (try_handle_set_int fl gr saves commands bindings w name key v).1 in
        (try_get_int t.dispatcher key ≡ try_get_int w.dispatcher key)
        × (find k t.runtime_values.values ≡ find k w.runtime_values.values)
  unfolding try_handle_set_int
  try_handle_set_int-false commands bindings w name key k v sound failed =
      elim (Option-cases (first_binding (serves_key (codes "set-int") key) name bindings)) [
        | inl e ↦ ground (arith, e)
        | inr (b, e) ↦ elim (Option-cases (try_get_int w.dispatcher b.config_key)) [
          | inl none_set ↦ ground (arith, e, none_set)
          | inr (previous, set) ↦
              let same_key = first_binding-serves (codes "set-int") key name bindings b e in
              let taken =
                run_follow_up-TakenBack commands w b.command_id b.config_key k previous v sound
                  (unfold try_get_int in ground (arith, set)) in
              let failed_then : (run_follow_up fl gr saves commands b.command_id b.config_key
                    previous (set_config fl gr saves w b.config_key v)).0
                  ≡ finished false =
                ground (arith, e, set, failed) in
              (
                ground (arith, e, set, same_key, taken.integer failed_then),
                ground (arith, e, set, taken.slot failed_then),
              )
        ]
      ]
