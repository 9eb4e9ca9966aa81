-- ===== src/Bindings.antt =====
-- HelenRuntime/ExternalBindingService.cpp: the callbacks of patched user interface code, and
-- HelenRuntime/BuildRuntimeCoordinator.cpp: the start of a build's runtime.
pub mod Rollback
pub mod Startup
use helen_gamehook.Commands.Runs.{run_command}
use helen_gamehook.Commands.{Graphics, Ending, finished, threw, exhausted, ending, World, Commands}
use helen_gamehook.Common.Int.{ℤ}
use helen_gamehook.Common.Results.{Result, ok, err, reject, ◌>>◌}
use helen_gamehook.Common.{
  ℕ, Bool, true, false, not, ◌&&◌, ◌||◌, List, [], ◌∷◌, ◌++◌, Option, none, some, if◌then◌else◌,
}
use helen_gamehook.Dispatcher.{Dispatcher, Outcome, returns, throws, try_get_int, try_set_int}
use helen_gamehook.Floats.{Floats}
use helen_gamehook.Paths.{Text, codes, text_eq, is_empty}

pub record Binding : Type 0 where
  pub id : Text
  pub external_name : Text
  pub mode : Text
  pub config_key : Text
  pub command_id : Text

-- The exceptions of `Register`.
pub data BindingError : Type 0 where
  no_external_name : BindingError
  no_mode : BindingError
  no_config_key : BindingError
  no_command_id : BindingError
  unsupported_mode : BindingError

unfoldable pub check_mode : Binding → Result BindingError (Unit {0})
check_mode b =
    if text_eq b.mode (codes "get-int") || text_eq b.mode (codes "set-int")
    then reject (is_empty b.config_key) no_config_key
    else if text_eq b.mode (codes "run-command")
    then reject (is_empty b.command_id) no_command_id
    else err unsupported_mode

-- `Register`. The multimap keeps the bindings of one name in the order of their registration, and no
-- call looks at several names, so that one list in that order serves.
unfoldable pub register_binding : List Binding → Binding → Result BindingError (List Binding)
unfolding check_mode
register_binding bindings b =
    reject (is_empty b.external_name) no_external_name
    >> (reject (is_empty b.mode) no_mode >> (check_mode b >> ok (bindings ++ (b ∷ []))))

-- The loop over `equal_range`: the first binding of the name that is not passed over.
unfoldable pub first_binding : (Binding → Bool) → Text → List Binding → Option Binding
first_binding serves name [] = none
first_binding serves name (b ∷ bs) =
    if text_eq b.external_name name && serves b then some b else first_binding serves name bs

abbrev pub serves_key : Text → Text → Binding → Bool
serves_key mode key b = text_eq b.mode mode && text_eq b.config_key key

abbrev pub serves_command : Text → Binding → Bool
serves_command id b = text_eq b.mode (codes "run-command") && text_eq b.command_id id

-- `TryHandleGetInt`
unfoldable pub try_handle_get_int : List Binding → Dispatcher → Text → Text → Option ℤ
unfolding first_binding
try_handle_get_int bindings d name key =
    elim (first_binding (serves_key (codes "get-int") key) name bindings) [
      | none ↦ none
      | some b ↦ try_get_int d b.config_key
    ]

module _ (fl : Floats) (gr : Graphics) (saves : ℕ → Bool) where
  -- `TrySetInt` of the dispatcher of the world.
  unfoldable pub set_config : World fl gr → Text → ℤ → Ending × World fl gr
  set_config w key v =
      let r = try_set_int saves w.dispatcher key v in (ending r.0, record w { dispatcher = r.1 })

  -- The end of `TryHandleSetInt`: a command that failed takes the integer back.
  unfoldable pub take_back : Text → ℤ → Ending × World fl gr → Ending × World fl gr
  unfolding set_config
  take_back key previous (finished true, w) = (finished true, w)
  take_back key previous (finished false, w) =
      let r = set_config w key previous in
      elim r.0 [ finished b ↦ (finished false, r.1) | threw ↦ r | exhausted ↦ r ]
  take_back key previous (threw, w) = (threw, w)
  take_back key previous (exhausted, w) = (exhausted, w)

  -- What follows the first `TrySetInt` of `TryHandleSetInt`.
  unfoldable pub run_follow_up :
      Commands fl gr → Text → Text → ℤ → Ending × World fl gr → Ending × World fl gr
  unfolding take_back
  run_follow_up commands command_id key previous (finished false, w) = (finished false, w)
  run_follow_up commands command_id key previous (finished true, w) =
      if is_empty command_id
      then (finished true, w)
      else take_back key previous (run_command fl gr commands w command_id)
  run_follow_up commands command_id key previous (threw, w) = (threw, w)
  run_follow_up commands command_id key previous (exhausted, w) = (exhausted, w)

  -- `TryHandleSetInt`
  unfoldable pub try_handle_set_int :
      Commands fl gr → List Binding → World fl gr → Text → Text → ℤ → Ending × World fl gr
  unfolding first_binding run_follow_up set_config
  try_handle_set_int commands bindings w name key v =
      elim (first_binding (serves_key (codes "set-int") key) name bindings) [
        | none ↦ (finished false, w)
        | some b ↦ elim (try_get_int w.dispatcher b.config_key) [
          | none ↦ (finished false, w)
          | some previous ↦
              run_follow_up commands b.command_id b.config_key previous
                (set_config w b.config_key v)
        ]
      ]

  -- `TryHandleRunCommand`
  unfoldable pub try_handle_run_command :
      Commands fl gr → List Binding → World fl gr → Text → Text → Ending × World fl gr
  unfolding first_binding
  try_handle_run_command commands bindings w name id =
      elim (first_binding (serves_command id) name bindings) [
        | none ↦ (finished false, w)
        | some b ↦ run_command fl gr commands w b.command_id
      ]
