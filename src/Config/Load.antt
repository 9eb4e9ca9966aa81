-- ===== src/Config/Load.antt =====
-- HelenRuntime/JsonConfigStore.cpp: `Load`. What the file system answers is an argument: whether
-- the file exists, and its text, if it can be read.
use helen_gamehook.Common.Int.{ℤ, pos, negsuc}
use helen_gamehook.Common.Maps.{emplace}
use helen_gamehook.Common.Results.{Result, ok, err, or_throw, ◌>>=◌}
use helen_gamehook.Common.{
  ◌^◌, ◌-◌, Bool, not, ◌||◌, List, [], ◌∷◌, Option, none, some, if◌then◌else◌,
}
use helen_gamehook.Json.Numbers.{Doubles}
use helen_gamehook.Json.Parser.{Parsed, parsed, parse_document}
use helen_gamehook.Json.{JsonValue, as_number, as_object, members_list}
use helen_gamehook.Paths.Keys.{text_key}
use helen_gamehook.Paths.{Text}

pub data LoadError : Type 0 where
  cannot_read invalid_json root_not_object not_numeric not_an_integer outside_range : LoadError

-- `numeric_limits<int>`
abbrev pub int_min : ℤ
int_min = negsuc (2 ^ 31 - 1)

abbrev pub int_max : ℤ
int_max = pos (2 ^ 31 - 1)

module _ (d : Doubles) where
  -- `ParseIntValue`
  unfoldable pub parse_int_value : JsonValue d → Result LoadError ℤ
  parse_int_value value = elim (as_number d value) [
    | none ↦ err LoadError.not_numeric
    | some x ↦
        let (fraction, integral) = d.modf x in
        if not (d.is_zero fraction)
        then err LoadError.not_an_integer
        else (if d.lt integral (d.of_int int_min) || d.lt (d.of_int int_max) integral
            then err LoadError.outside_range
            else ok (d.to_int integral))
  ]

  -- the loop of `Load`
  unfoldable pub load_members :
      List (Text × JsonValue d) → List (Text × ℤ) → Result LoadError (List (Text × ℤ))
  unfolding parse_int_value emplace
  load_members [] int_values = ok int_values
  load_members ((key, value) ∷ m) int_values =
      parse_int_value value >>= λ v. load_members m (emplace key v int_values)

  abbrev parsed_value : Parsed d → Option (JsonValue d)
  parsed_value (parsed v rest) = some v
  parsed_value _ = none

  unfoldable pub load_text : Text → Result LoadError (List (Text × ℤ))
  unfolding parse_document load_members
  load_text text = or_throw (parsed_value (parse_document d text)) LoadError.invalid_json >>= λ v.
      or_throw (as_object d v) LoadError.root_not_object >>= λ m. load_members (members_list d m) []

  -- `Load`
  unfoldable pub load_config : (exists : Bool) → Option Text → Result LoadError (List (Text × ℤ))
  unfolding load_text
  load_config exists contents =
      if exists then or_throw contents LoadError.cannot_read >>= load_text else ok []
