-- ===== src/Tests/Runtime.antt =====
-- The live slots, the commands and the bindings on small machines.
use helen_gamehook.Bindings.{
  Binding, try_handle_set_int, first_binding, set_config, take_back, run_follow_up,
}
use helen_gamehook.Bindings.Rollback.{try_handle_set_int-false}
use helen_gamehook.Bindings.Startup.{Coordinator, Started, NotStarted, start, start-Started}
use helen_gamehook.Commands.Fuel.{AreNamed, run_command-run_fuelled}
use helen_gamehook.Commands.Rollback.{registers, run, step, run-run_command-false}
use helen_gamehook.Commands.Runs.{
  run_command, run_fuelled, run_frame, run_steps, is_active, end_run,
}
use helen_gamehook.Commands.Throws.{run_command-finished}
use helen_gamehook.Commands.{
  finished, exhausted, Step, Command, World, Commands, execute_step, execute_kind, step_kind,
  read_int, map_int, set_live, run_nested, try_resolve_mapped_value,
}
use helen_gamehook.Common.Int.{pos}
use helen_gamehook.Common.Maps.{find, assign, insert, emplace, replace}
use helen_gamehook.Common.{
  ◌≡◌, ◌≢◌, ◌⊎◌, refl, true, false, List, [], ◌∷◌, arith, Bool-cases, inl, inr, ap, ◌∙◌,
}
use helen_gamehook.Config.{save, set_int}
use helen_gamehook.Dispatcher.{try_set_int, store_int, try_get_int}
use helen_gamehook.Paths.Keys.{text_key}
use helen_gamehook.Paths.{codes, text_eq}
use helen_gamehook.RuntimeValues.Snapshots.{IsSound, slots, restore_snapshot-take_snapshot}
use helen_gamehook.RuntimeValues.{
  Store, SlotDefinition, new_store, register_slot, set_double, take_snapshot, snapshot_of,
  restore_snapshot, restore_values, try_convert,
}
use helen_gamehook.Tests.Machine.{naturals, naturals-IsIeee, idle, idle-NeverThrows, idle-KeepsKeys}
use helen_gamehook.Tests.Settings.{both, always}

-- A command that writes a slot, and then fails at a command that nobody has registered.
abbrev no_step : Step naturals idle
no_step = record {
  kind = [];
  config_key = [];
  value_name = [];
  input_value_name = [];
  output_value_name = [];
  target = [];
  command_id = [];
  message = [];
  integer_value = pos 0;
  mappings = [];
}

abbrev failing : Command naturals idle
failing = record {
  id = codes "c";
  name = [];
  steps =
      record no_step {
        kind = codes "read-config-int";
        config_key = codes "a";
        value_name = codes "i";
      }
      ∷ record no_step {
        kind = codes "map-int-to-double";
        input_value_name = codes "i";
        output_value_name = codes "d";
        mappings = (pos 1, 9) ∷ [];
      }
      ∷ record no_step {
        kind = codes "set-live-double";
        target = codes "s";
        value_name = codes "d";
      }
      ∷ record no_step { kind = codes "run-command"; command_id = codes "x" }
      ∷ [];
}

abbrev commands : Commands naturals idle
commands = (codes "c", failing) ∷ []

commands-AreNamed : AreNamed naturals idle commands
unfolding find
commands-AreNamed k = elim (Bool-cases (text_eq (codes "c") k)) [
  | inl e ↦ ground (arith, e, text_key.eqb_iff (codes "c") k)
  | inr e ↦ ground (arith, e)
]

abbrev new_world : World naturals idle
new_world = record { dispatcher = both; runtime_values = new_store naturals; graphics = tt }

abbrev slot : SlotDefinition naturals
slot = record { id = codes "s"; type = codes "float32"; initial_value = 5 }

abbrev slot_store : Store naturals
slot_store = record {
  slot_definitions = (codes "s", slot) ∷ [];
  values = (codes "s", record { address = 4096; value = 5 }) ∷ [];
}

abbrev world : World naturals idle
world = record { dispatcher = both; runtime_values = slot_store; graphics = tt }

ran : run naturals idle naturals-IsIeee commands new_world (registers 4096 slot ∷ []) ≡ world
unfolding run step register_slot try_convert find insert emplace text_eq
ran = refl

failed : (run_command naturals idle commands world (codes "c")).0 ≡ finished false
unfolding run_command run_fuelled run_frame run_steps is_active end_run execute_step execute_kind
    step_kind read_int map_int set_live run_nested try_resolve_mapped_value try_get_int find assign
    insert replace text_eq set_double try_convert take_snapshot restore_snapshot snapshot_of
    restore_values
failed = refl

failed_run :
    (run_command naturals idle commands
      (run naturals idle naturals-IsIeee commands new_world (registers 4096 slot ∷ []))
      (codes "c")).0
    ≡ finished false
failed_run =
    ap (λ (w : World naturals idle). (run_command naturals idle commands w (codes "c")).0) ran
    ∙ failed

run-run_command-false_example :
    find
      (codes "s")
      (run_command naturals idle commands
        (run naturals idle naturals-IsIeee commands new_world (registers 4096 slot ∷ []))
        (codes "c")).1.runtime_values.values
    ≡ find
        (codes "s")
        (run naturals idle naturals-IsIeee commands new_world
          (registers 4096 slot ∷ [])).runtime_values.values
run-run_command-false_example =
    run-run_command-false naturals idle naturals-IsIeee commands new_world
      (registers 4096 slot ∷ []) (codes "c") (codes "s") refl failed_run

run_command-run_fuelled_example :
    ((run_command naturals idle commands world (codes "c")).0 ≢ exhausted)
    × (run_command naturals idle commands world (codes "c")
        ≡ run_fuelled naturals idle 9 commands world (codes "c"))
run_command-run_fuelled_example =
    run_command-run_fuelled naturals idle commands 9 world (codes "c") commands-AreNamed
      (omega arith)

slot_store-IsSound : IsSound naturals slot_store
unfolding find
slot_store-IsSound k = elim (Bool-cases (text_eq (codes "s") k)) [
  | inl e ↦ unfold try_convert in ground (arith, e)
  | inr e ↦ ground (arith, e)
]

run_command-finished_example :
    ((run_command naturals idle commands world (codes "c")).0 ≡ finished true)
    ⊎ ((run_command naturals idle commands world (codes "c")).0 ≡ finished false)
run_command-finished_example =
    run_command-finished naturals idle idle-NeverThrows naturals-IsIeee commands world (codes "c")
      commands-AreNamed slot_store-IsSound

abbrev written : Store naturals
written = record slot_store { values = (codes "s", record { address = 4096; value = 8 }) ∷ [] }

restore_snapshot-take_snapshot_example :
    ((restore_snapshot naturals written (take_snapshot naturals slot_store)).0 ≡ true)
    × (find
          (codes "s")
          (restore_snapshot naturals written (take_snapshot naturals slot_store)).1.values
        ≡ find (codes "s") slot_store.values)
restore_snapshot-take_snapshot_example =
    restore_snapshot-take_snapshot naturals slot_store written (codes "s") slot_store-IsSound
      (unfold slots in refl)

abbrev bindings : List Binding
bindings =
    record {
      id = [];
      external_name = codes "set";
      mode = codes "set-int";
      config_key = codes "a";
      command_id = codes "c";
    }
    ∷ []

taken_back :
    (try_handle_set_int naturals idle always commands bindings world
      (codes "set")
      (codes "a")
      (pos 1)).0
    ≡ finished false
unfolding try_handle_set_int first_binding set_config take_back run_follow_up try_set_int store_int
    save set_int run_command run_fuelled run_frame run_steps is_active end_run execute_step
    execute_kind step_kind read_int map_int set_live run_nested try_resolve_mapped_value try_get_int
    find assign insert replace text_eq set_double try_convert take_snapshot restore_snapshot
    snapshot_of restore_values
taken_back = refl

try_handle_set_int-false_example :
    let t =
      (try_handle_set_int naturals idle always commands bindings world
        (codes "set")
        (codes "a")
        (pos 1)).1 in
    (try_get_int t.dispatcher (codes "a") ≡ try_get_int world.dispatcher (codes "a"))
    × (find (codes "s") t.runtime_values.values ≡ find (codes "s") world.runtime_values.values)
try_handle_set_int-false_example =
    try_handle_set_int-false naturals idle always naturals-IsIeee idle-KeepsKeys commands bindings
      world (codes "set") (codes "a") (codes "s") (pos 1) slot_store-IsSound taken_back

abbrev coordinator : Coordinator naturals idle always
coordinator = record {
  startup_command_ids = codes "c" ∷ [];
  has_observers = false;
  started = false;
}

start-Started_example :
    let r = start naturals idle always commands true coordinator world in
    (Started naturals idle always commands true coordinator world r
      × (start naturals idle always commands false r.1.0 r.1.1 ≡ (finished true, r.1)))
    ⊎ NotStarted naturals idle always commands true coordinator world r
start-Started_example = start-Started naturals idle always commands true false coordinator world
