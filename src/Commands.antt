-- ===== src/Commands.antt =====
-- HelenRuntime/CommandExecutor.cpp: the declarative commands. A run threads the transient values, the
-- dispatcher, the runtime store and the graphics service; log output is left out.
pub mod Rollback
pub mod Slots
pub mod Throws
pub mod Dispatchers
pub mod Fuel
pub mod Runs
use helen_gamehook.Common.Int.{ℤ, eqb_ℤ}
use helen_gamehook.Common.Maps.{find, assign, emplace, contains}
use helen_gamehook.Common.{
  ℕ, zero, suc, Bool, true, false, ◌||◌, List, [], ◌∷◌, Option, none, some, if◌then◌else◌, length,
  ◌==◌,
}
use helen_gamehook.Dispatcher.{Dispatcher, Outcome, returns, throws, try_get_int}
use helen_gamehook.Floats.{Floats}
use helen_gamehook.Paths.Keys.{text_key}
use helen_gamehook.Paths.{Text, codes, text_eq, is_empty}
use helen_gamehook.RuntimeValues.{Store, set_double, take_snapshot, restore_snapshot}

-- The calls of `BatmanGraphicsConfigService`, over its own state: those that take the dispatcher as
-- `const`, and those that set integers in it.
pub data Apply : Type 0 where
  apply_from_dispatcher : Apply
  apply_subtitle_size_from_dispatcher : Apply

pub data Load : Type 0 where
  load_into_dispatcher : Load
  load_subtitle_size_into_dispatcher : Load
  sync_detail_level_from_dispatcher : Load
  apply_selected_detail_level_to_dispatcher : Load
  apply_selected_resolution_mode_to_dispatcher : Load

pub record Graphics : Type 1 where
  pub State : Type 0
  pub applies : Apply → State → Dispatcher → Outcome Bool × State
  pub loads : Load → State → Dispatcher → Outcome Bool × (State × Dispatcher)

-- The kinds of `CommandStepDefinition::Kind`.
pub data StepKind : Type 0 where
  read_config_int : StepKind
  map_int_to_double : StepKind
  set_live_double : StepKind
  run_command_step : StepKind
  log_message : StepKind
  applies_graphics : Apply → StepKind
  loads_graphics : Load → StepKind
  unknown_kind : StepKind

-- The tests of `ExecuteStep`, in order.
unfoldable pub step_kind : Text → StepKind
step_kind kind =
    if text_eq kind (codes "read-config-int")
    then read_config_int
    else if text_eq kind (codes "map-int-to-double")
    then map_int_to_double
    else if text_eq kind (codes "set-live-double")
    then set_live_double
    else if text_eq kind (codes "run-command")
    then run_command_step
    else if text_eq kind (codes "log-message")
    then log_message
    else if text_eq kind (codes "load-batman-graphics-draft-into-config")
    then loads_graphics load_into_dispatcher
    else if text_eq kind (codes "load-batman-subtitle-size-into-config")
    then loads_graphics load_subtitle_size_into_dispatcher
    else if text_eq kind (codes "apply-batman-graphics-config")
    then applies_graphics apply_from_dispatcher
    else if text_eq kind (codes "apply-batman-subtitle-size-config")
    then applies_graphics apply_subtitle_size_from_dispatcher
    else if text_eq kind (codes "sync-batman-graphics-detail-level")
    then loads_graphics sync_detail_level_from_dispatcher
    else if text_eq kind (codes "sync-batman-graphics-detail-preset")
    then loads_graphics apply_selected_detail_level_to_dispatcher
    else if text_eq kind (codes "set-batman-graphics-resolution-mode")
    then loads_graphics apply_selected_resolution_mode_to_dispatcher
    else unknown_kind

-- How a run ends: an answer, an exception, or no fuel.
pub data Ending : Type 0 where
  finished : Bool → Ending
  threw : Ending
  exhausted : Ending

abbrev pub ending : Outcome Bool → Ending
ending (returns b) = finished b
ending throws = threw

module _ (fl : Floats) (gr : Graphics) where
  pub record Step : Type 0 where
    pub kind : Text
    pub config_key : Text
    pub value_name : Text
    pub input_value_name : Text
    pub output_value_name : Text
    pub target : Text
    pub command_id : Text
    pub message : Text
    pub integer_value : ℤ
    pub mappings : List (ℤ × fl.Double)

  pub record Command : Type 0 where
    pub id : Text
    pub name : Text
    pub steps : List Step

  -- What a run may change outside its own frame.
  pub record World : Type 0 where
    pub dispatcher : Dispatcher
    pub runtime_values : Store fl
    pub graphics : gr.State

  pub record Frame : Type 0 where
    pub int_values : List (Text × ℤ)
    pub double_values : List (Text × fl.Double)
    pub world : World

  abbrev pub Commands : Type 0
  Commands = List (Text × Command)

  -- `RegisterCommand`
  unfoldable pub register_command : Commands → Command → Bool × Commands
  register_command commands command =
      if is_empty command.id || contains command.id commands
      then (false, commands)
      else (true, emplace command.id command commands)

  -- `TryResolveMappedValue`
  unfoldable pub try_resolve_mapped_value : List (ℤ × fl.Double) → ℤ → Option fl.Double
  try_resolve_mapped_value [] input = none
  try_resolve_mapped_value ((match, value) ∷ ms) input =
      if eqb_ℤ match input then some value else try_resolve_mapped_value ms input

  unfoldable pub read_int : Step → Frame → Bool × Frame
  read_int step f =
      if is_empty step.config_key || is_empty step.value_name
      then (false, f)
      else elim (try_get_int f.world.dispatcher step.config_key) [
        | none ↦ (false, f)
        | some v ↦ (true, record f { int_values = assign step.value_name v f.int_values })
      ]

  unfoldable pub map_int : Step → Frame → Bool × Frame
  map_int step f =
      if is_empty step.input_value_name
        || (is_empty step.output_value_name || (length step.mappings == 0))
      then (false, f)
      else elim (find step.input_value_name f.int_values) [
        | none ↦ (false, f)
        | some input ↦ elim (try_resolve_mapped_value step.mappings input) [
          | none ↦ (false, f)
          | some v ↦
              (true, record f { double_values = assign step.output_value_name v f.double_values })
        ]
      ]

  abbrev pub with_runtime_values : Frame → Store fl → Frame
  with_runtime_values f s = record f { world = record f.world { runtime_values = s } }

  unfoldable pub set_live : Step → Frame → Bool × Frame
  set_live step f =
      if is_empty step.target || is_empty step.value_name
      then (false, f)
      else elim (find step.value_name f.double_values) [
        | none ↦ (false, f)
        | some v ↦
            let r = set_double fl f.world.runtime_values step.target v in
            (r.0, with_runtime_values f r.1)
      ]

  unfoldable pub apply_graphics : Apply → Frame → Ending × Frame
  apply_graphics a f =
      let r = gr.applies a f.world.graphics f.world.dispatcher in
      (ending r.0, record f { world = record f.world { graphics = r.1 } })

  unfoldable pub load_graphics : Load → Frame → Ending × Frame
  load_graphics l f =
      let r = gr.loads l f.world.graphics f.world.dispatcher in
      (ending r.0, record f { world = record f.world { graphics = r.1.0; dispatcher = r.1.1 } })

  -- The `run-command` step; `call` is the private `RunCommand` over the stack of this step.
  unfoldable pub run_nested :
      (Command → Frame → Ending × Frame) → Commands → Step → Frame → Ending × Frame
  run_nested call commands step f =
      if is_empty step.command_id
      then (finished false, f)
      else elim (find step.command_id commands) [ none ↦ (finished false, f) | some c ↦ call c f ]

  -- `ExecuteStep`
  unfoldable pub execute_kind :
      (Command → Frame → Ending × Frame) → Commands → StepKind → Step → Frame → Ending × Frame
  execute_kind call commands read_config_int step f = let r = read_int step f in (finished r.0, r.1)
  execute_kind call commands map_int_to_double step f =
      let r = map_int step f in (finished r.0, r.1)
  execute_kind call commands set_live_double step f = let r = set_live step f in (finished r.0, r.1)
  execute_kind call commands run_command_step step f = run_nested call commands step f
  execute_kind call commands log_message step f =
      if is_empty step.message then (finished false, f) else (finished true, f)
  execute_kind call commands (applies_graphics a) step f = apply_graphics a f
  execute_kind call commands (loads_graphics l) step f = load_graphics l f
  execute_kind call commands unknown_kind step f = (finished false, f)

  unfoldable pub execute_step :
      (Command → Frame → Ending × Frame) → Commands → Step → Frame → Ending × Frame
  unfolding execute_kind step_kind
  execute_step call commands step f = execute_kind call commands (step_kind step.kind) step f
