-- ===== src/Tests/Json.antt =====
-- A config file with a key that has to be escaped, over doubles that are integers of one digit.
use helen_gamehook.Common.Int.{ℤ, pos, negsuc, ltb_ℤ}
use helen_gamehook.Common.Maps.{find}
use helen_gamehook.Common.Results.{ok}
use helen_gamehook.Common.{
  ℕ, ◌+◌, ◌-◌, ◌%◌, ◌≡◌, ◌≢◌, refl, inl, inr, arith, Bool, true, false, List, [], ◌∷◌, ◌==◌,
  if◌then◌else◌, some,
}
use helen_gamehook.Config.Json.{serialize_config}
use helen_gamehook.Config.Load.{load_config}
use helen_gamehook.Config.Entries.{Exact}
use helen_gamehook.Config.RoundTrip.{load_config-serialize_config}
use helen_gamehook.Json.Fuel.{parse_document-ends}
use helen_gamehook.Json.Numbers.{Doubles}
use helen_gamehook.Json.Parser.{
  exhausted, failed, parsed, parse_document, parse_mode, start_value, behind_value, behind_item,
  parse_number, parse_literal, open_with,
}
use helen_gamehook.Json.{
  array, nil, snoc, boolean, null, number, skip_whitespace, consume, take_number, take_digits,
  take_fraction, take_exponent,
}
use helen_gamehook.Paths.Keys.{text_key}
use helen_gamehook.Paths.{Text, codes, text_eq}
use helen_gamehook.Pattern.{is_space}

abbrev read_digit : Text → ℤ × ℕ
read_digit (c ∷ d ∷ t) = if c == 45 then (negsuc (d - 49), 2) else (pos (c - 48), 1)
read_digit (c ∷ []) = (pos (c - 48), 1)
read_digit [] = (pos 0, 0)

abbrev is_nought : ℤ → Bool
is_nought (pos n) = n == 0
is_nought (negsuc n) = false

abbrev show_digit : ℤ → Text
show_digit (pos n) = (48 + n % 10) ∷ []
show_digit (negsuc n) = 45 ∷ (49 + n % 9) ∷ []

abbrev digits : Doubles
digits = record {
  Double = ℤ;
  strtod = read_digit;
  modf = λ x. (pos 0, x);
  is_zero = is_nought;
  lt = ltb_ℤ;
  of_int = λ v. v;
  to_int = λ v. v;
  shows = show_digit;
}

abbrev settings : List (Text × ℤ)
settings = (codes "a\"b", pos 7) ∷ (codes "view", negsuc 1) ∷ []

seven : Exact digits (pos 7)
seven = record {
  decimal = (inr refl, tt);
  reads = refl;
  whole = (refl, refl);
  not_below = refl;
  not_above = refl;
  converts = refl;
}

minus_two : Exact digits (negsuc 1)
minus_two = record {
  decimal = (inl (refl, omega arith), (refl, tt));
  reads = refl;
  whole = (refl, refl);
  not_below = refl;
  not_above = refl;
  converts = refl;
}

load_config-serialize_config_example :
    (loaded : List (Text × ℤ)) × (load_config digits true
        (some (serialize_config show_digit settings))
      ≡ ok loaded)
    × (find (codes "view") loaded ≡ find (codes "view") settings)
load_config-serialize_config_example =
    load_config-serialize_config digits settings (codes "view") (seven, (minus_two, tt))

parse_document-ends_example : parse_document digits (codes "[[[[") ≢ exhausted
parse_document-ends_example = parse_document-ends digits (codes "[[[[")

nested :
    parse_document digits (codes " [true, null ,[ ], 3]")
    ≡ parsed
        (array (snoc (snoc (snoc (snoc nil (boolean true)) null) (array nil)) (number (pos 3))))
        []
unfolding parse_document parse_mode start_value behind_value behind_item open_with parse_literal
    parse_number consume skip_whitespace is_space text_eq take_number take_digits take_fraction
    take_exponent
nested = refl

doubled_comma : parse_document digits (codes "[1,,2]") ≡ failed
unfolding parse_document parse_mode start_value behind_value behind_item open_with parse_literal
    parse_number consume skip_whitespace is_space text_eq take_number take_digits take_fraction
    take_exponent
doubled_comma = refl
