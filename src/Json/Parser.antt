-- ===== src/Json/Parser.antt =====
-- HelenRuntime/JsonParser.cpp: values, arrays and objects. A call of `ParseValue` and a turn of the
-- loops of `ParseObject` and `ParseArray` take one unit of fuel each.
use helen_gamehook.Common.{
  ℕ, zero, suc, ◌+◌, ◌*◌, true, false, ◌==◌, [], length, drop, take, Option, none, some,
  if◌then◌else◌,
}
use helen_gamehook.Json.Numbers.{Doubles}
use helen_gamehook.Json.{
  JsonValue, null, boolean, number, string, array, object, Elements, nil, snoc, Members, end,
  emplace_member, skip_whitespace, peek, consume, parse_string, take_number,
}
use helen_gamehook.Paths.{Text, codes, text_eq, is_empty}

-- What a loop finds behind an item: its end, a further item, or neither.
pub data Behind : Type 0 where
  closed more : Text → Behind
  broken : Behind

unfoldable pub behind_item : (close : ℕ) → Text → Behind
unfolding consume
behind_item close text =
    let last = consume close text in
    let comma = consume b',' last.1 in
    if last.0
    then Behind.closed last.1
    else (if comma.0 then Behind.more comma.1 else Behind.broken)

-- `ParseString` and the colon behind a key
unfoldable pub parse_key : Text → Option (Text × Text)
unfolding parse_string consume
parse_key text = elim (parse_string text) [
  | none ↦ none
  | some (key, rest) ↦
      let colon = consume b':' rest in if colon.0 then some (key, colon.1) else none
]

module _ (d : Doubles) where
  -- How a call ends: without fuel, with `nullopt`, or with a value and the text behind it.
  pub data Parsed : Type 0 where
    exhausted failed : Parsed
    parsed : JsonValue d → Text → Parsed

  -- `ParseLiteral`
  unfoldable pub parse_literal : Text → JsonValue d → Text → Parsed
  unfolding skip_whitespace
  parse_literal literal value text =
      let rest = skip_whitespace text in
      if text_eq (take (length literal) rest) literal
      then parsed value (drop (length literal) rest)
      else failed

  -- `ParseNumber`
  unfoldable pub parse_number : Text → Parsed
  unfolding skip_whitespace take_number
  parse_number text =
      let (token, rest) = take_number (skip_whitespace text) in
      let (value, read) = d.strtod token in
      if is_empty token
      then failed
      else (if read == length token then parsed (number value) rest else failed)

  -- `ParseStringValue`
  unfoldable pub parse_string_value : Text → Parsed
  unfolding parse_string
  parse_string_value text = elim (parse_string text) [
    | none ↦ failed
    | some (t, rest) ↦ parsed (string t) rest
  ]

  -- The loops that a value opens, or its end.
  pub data Start : Type 0 where
    open_object open_array : Text → Start
    done : Parsed → Start

  unfoldable pub open_with : (close : ℕ) (empty : JsonValue d) → (Text → Start) → Text → Start
  unfolding consume skip_whitespace
  open_with close empty loop text =
      let (shut, rest) = consume close (skip_whitespace text) in
      if shut then done (parsed empty rest) else loop rest

  -- The `switch` of `ParseValue`; the first character of each kind is consumed by its function.
  unfoldable pub start_value : Text → Start
  unfolding skip_whitespace parse_literal parse_number parse_string_value open_with
  start_value text =
      let rest = skip_whitespace text in
      let first = peek rest in
      if first == b'{'
      then open_with b'}' (object end) open_object (drop 1 rest)
      else (if first == b'['
          then open_with b']' (array nil) open_array (drop 1 rest)
          else (if first == b'"'
              then done (parse_string_value rest)
              else (if first == b't'
                  then done (parse_literal (codes "true") (boolean true) rest)
                  else (if first == b'f'
                      then done (parse_literal (codes "false") (boolean false) rest)
                      else (if first == b'n'
                          then done (parse_literal (codes "null") null rest)
                          else done (parse_number rest))))))

  -- `ParseValue`, and the loops of `ParseObject` and `ParseArray` with what they have collected
  pub data Mode : Type 0 where
    value : Mode
    members : Members d → Mode
    elements : Elements d → Mode

  -- the end of a turn of the loops: the closing character, or a comma and the next turn
  unfoldable pub behind_value :
      (close : ℕ) → Parsed → (finished next : JsonValue d → Text → Parsed) → Parsed
  unfolding behind_item
  behind_value close exhausted finished next = exhausted
  behind_value close failed finished next = failed
  behind_value close (parsed v rest) finished next = elim (behind_item close rest) [
    | Behind.closed rest' ↦ finished v rest'
    | Behind.more rest' ↦ next v rest'
    | Behind.broken ↦ failed
  ]

  unfoldable pub parse_mode : (fuel : ℕ) → Mode → Text → Parsed
  unfolding start_value behind_value parse_key emplace_member
  parse_mode zero mode text = exhausted
  parse_mode (suc fuel) value text = elim (start_value text) [
    | done result ↦ result
    | open_object rest ↦ parse_mode fuel (members end) rest
    | open_array rest ↦ parse_mode fuel (elements nil) rest
  ]
  parse_mode (suc fuel) (members m) text = elim (parse_key text) [
    | none ↦ failed
    | some (key, rest) ↦
        behind_value b'}' (parse_mode fuel value rest)
          (λ v r. parsed (object (emplace_member d key v m)) r)
          (λ v r. parse_mode fuel (members (emplace_member d key v m)) r)
  ]
  parse_mode (suc fuel) (elements a) text =
      behind_value b']' (parse_mode fuel value text) (λ v r. parsed (array (snoc a v)) r)
        (λ v r. parse_mode fuel (elements (snoc a v)) r)

  -- `ParseDocument`: `exhausted` does not occur.
  unfoldable pub parse_document : Text → Parsed
  unfolding parse_mode skip_whitespace
  parse_document text = elim (parse_mode (2 * length text + 2) value text) [
    | parsed v rest ↦ if is_empty (skip_whitespace rest) then parsed v [] else failed
    | exhausted ↦ exhausted
    | failed ↦ failed
  ]
