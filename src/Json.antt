-- ===== src/Json.antt =====
-- HelenRuntime/JsonParser.cpp and JsonValue.cpp. The parser's position is kept as the text that
-- stands behind it.
pub mod Lengths
pub mod Numbers
pub mod Parser
pub mod Fuel
pub mod Strings
use helen_gamehook.Common.Maps.{find, emplace}
use helen_gamehook.Common.{
  ℕ, zero, suc, ◌+◌, Bool, true, false, ◌&&◌, ◌||◌, leb, ◌==◌, List, [], ◌∷◌, ◌++◌, length, drop,
  take, Option, none, some, if◌then◌else◌,
}
use helen_gamehook.Json.Numbers.{Doubles}
use helen_gamehook.Paths.Keys.{text_key}
use helen_gamehook.Paths.{Text, codes, text_eq}
use helen_gamehook.Pattern.{is_space}

module _ (d : Doubles) where
  mutual
    -- `JsonValue`, by the alternatives of its variant
    pub data JsonValue : Type 0 where
      null : JsonValue
      boolean : Bool → JsonValue
      number : d.Double → JsonValue
      string : Text → JsonValue
      array : Elements → JsonValue
      object : Members → JsonValue

    pub data Elements : Type 0 where
      nil : Elements
      snoc : Elements → JsonValue → Elements

    -- the entries of a `std::map`, in the order of their keys
    pub data Members : Type 0 where
      end : Members
      member : Text → JsonValue → Members → Members

  abbrev pub members_list : Members → List (Text × JsonValue)
  members_list end = []
  members_list (member key v m) = (key, v) ∷ members_list m

  abbrev pub list_members : List (Text × JsonValue) → Members
  list_members [] = end
  list_members ((key, v) ∷ m) = member key v (list_members m)

  -- `object.emplace`
  unfoldable pub emplace_member : Text → JsonValue → Members → Members
  emplace_member key v m = list_members (emplace key v (members_list m))

  abbrev pub as_number : JsonValue → Option d.Double
  as_number (number x) = some x
  as_number _ = none

  abbrev pub as_object : JsonValue → Option Members
  as_object (object m) = some m
  as_object _ = none

  unfoldable pub find_member : Text → JsonValue → Option JsonValue
  unfolding find
  find_member key (object m) = find key (members_list m)
  find_member key _ = none

-- `SkipWhitespace`
unfoldable pub skip_whitespace : Text → Text
unfolding is_space
skip_whitespace [] = []
skip_whitespace (c ∷ t) = let rest = skip_whitespace t in if is_space c then rest else c ∷ t

-- `Peek`
abbrev pub peek : Text → ℕ
peek [] = 0
peek (c ∷ t) = c

-- `Consume`: its answer, and the text behind the new position
unfoldable pub consume : ℕ → Text → Bool × Text
unfolding skip_whitespace
consume expected text =
    let rest = skip_whitespace text in
    if peek rest == expected then (true, drop 1 rest) else (false, rest)

-- the second `switch` of `ParseString`
unfoldable pub unescape : ℕ → Option ℕ
unescape e =
    if e == b'"' || e == b'\\' || e == b'/'
    then some e
    else (if e == b'b'
        then some 8
        else (if e == b'f'
            then some 12
            else (if e == b'n'
                then some 10
                else (if e == b'r' then some 13 else (if e == b't' then some 9 else none)))))

abbrev pub push : ℕ → Option (Text × Text) → Option (Text × Text)
push c none = none
push c (some (t, rest)) = some (c ∷ t, rest)

-- The loop of `ParseString`, behind a backslash or not: the characters up to the closing quote.
unfoldable pub string_body : (escaped : Bool) → Text → Option (Text × Text)
unfolding unescape
string_body escaped [] = none
string_body false (c ∷ t) = elim (c == b'"') [
  | true ↦ some ([], t)
  | false ↦ elim (c == b'\\') [ true ↦ string_body true t | false ↦ push c (string_body false t) ]
]
string_body true (e ∷ t) = elim (unescape e) [ none ↦ none | some c ↦ push c (string_body false t) ]

-- `ParseString`
unfoldable pub parse_string : Text → Option (Text × Text)
unfolding skip_whitespace string_body
parse_string text =
    let rest = skip_whitespace text in
    if peek rest == b'"' then string_body false (drop 1 rest) else none

abbrev pub is_digit : ℕ → Bool
is_digit c = leb b'0' c && leb c b'9'

-- a loop over `isdigit(Peek())`: the digits, and the text behind them
unfoldable pub take_digits : Text → Text × Text
take_digits [] = ([], [])
take_digits (c ∷ t) =
    let rest = take_digits t in if is_digit c then (c ∷ rest.0, rest.1) else ([], c ∷ t)

-- an optional character of `ParseNumber`
abbrev pub take_if : Bool → Text → Text × Text
take_if true (c ∷ t) = (c ∷ [], t)
take_if _ t = ([], t)

abbrev pub is_exponent : ℕ → Bool
is_exponent c = c == b'e' || c == b'E'

abbrev pub is_sign : ℕ → Bool
is_sign c = c == b'+' || c == b'-'

-- `.` and digits
unfoldable pub take_fraction : Text → Text × Text
unfolding take_digits
take_fraction text =
    let point = take_if (peek text == b'.') text in
    let digits = take_digits point.1 in
    if peek text == b'.' then (point.0 ++ digits.0, digits.1) else ([], text)

-- `e` or `E`, a sign and digits
unfoldable pub take_exponent : Text → Text × Text
unfolding take_digits
take_exponent text =
    let mark = take_if (is_exponent (peek text)) text in
    let sign = take_if (is_sign (peek mark.1)) mark.1 in
    let digits = take_digits sign.1 in
    if is_exponent (peek text) then (mark.0 ++ (sign.0 ++ digits.0), digits.1) else ([], text)

-- the token of `ParseNumber`, and the text behind it
unfoldable pub take_number : Text → Text × Text
unfolding take_digits take_fraction take_exponent
take_number text =
    let minus = take_if (peek text == b'-') text in
    let digits = take_digits minus.1 in
    let fraction = take_fraction digits.1 in
    let exponent = take_exponent fraction.1 in
    (minus.0 ++ (digits.0 ++ (fraction.0 ++ exponent.0)), exponent.1)
