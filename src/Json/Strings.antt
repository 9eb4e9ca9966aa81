-- ===== src/Json/Strings.antt =====
-- HelenRuntime/JsonParser.cpp: strings, keys and numbers as a serialiser writes them.
use mathlib.Core.List.{append-nil, append_assoc}
use helen_gamehook.Common.{
  ℕ, zero, suc, ◌≡◌, refl, ◌⊎◌, inl, inr, ◌∙◌, ap, Bool, true, false, ◌||◌, ◌≤◌, ◌==◌, [], ◌∷◌,
  ◌++◌, length, some, arith,
}
use helen_gamehook.Config.Json.{escape_character, escape_json_string}
use helen_gamehook.Json.Numbers.{Doubles}
use helen_gamehook.Json.Parser.{
  parse_key, parsed, parse_number, start_value, done, parse_mode, value,
}
use helen_gamehook.Json.{
  number, skip_whitespace, consume, string_body, push, parse_string, take_number, take_digits,
  take_fraction, take_exponent, is_digit,
}
use helen_gamehook.Paths.{Text}
use helen_gamehook.Pattern.{is_space}

string_body-escape_character :
    (c : ℕ) (t : Text) → string_body false (escape_character c ++ t) ≡ push c (string_body false t)
unfolding string_body escape_character
string_body-escape_character c t = ground arith

pub string_body-escape_json_string :
    (s rest : Text) → string_body false (escape_json_string s ++ b'"' ∷ rest) ≡ some (s, rest)
unfolding string_body escape_json_string
string_body-escape_json_string [] rest = refl
string_body-escape_json_string (c ∷ s) rest =
    ap (string_body false) (append_assoc (escape_character c) (escape_json_string s) (b'"' ∷ rest))
    ∙ string_body-escape_character c (escape_json_string s ++ b'"' ∷ rest)
    ∙ ap (push c) (string_body-escape_json_string s rest)

-- A key as it is written, behind white space: `"key": rest`.
abbrev pub quoted_key : Text → Text → Text
quoted_key key rest = b'"' ∷ (escape_json_string key ++ b'"' ∷ b':' ∷ rest)

pub parse_key-quoted_key :
    (text key rest : Text)
    → skip_whitespace text ≡ quoted_key key rest
    → parse_key text ≡ some (key, rest)
unfolding parse_key parse_string consume skip_whitespace is_space
parse_key-quoted_key text key rest h =
    ground (arith, h, string_body-escape_json_string key (b':' ∷ rest))

abbrev pub AreDigits : Text → Type 0
AreDigits [] = Unit {0}
AreDigits (c ∷ t) = (is_digit c ≡ true) × AreDigits t

-- The decimal form of an integer.
abbrev pub IsDecimal : Text → Type 0
IsDecimal [] = zero ≡ suc zero
IsDecimal (c ∷ t) = (((c ≡ b'-') × (1 ≤ length t)) ⊎ (is_digit c ≡ true)) × AreDigits t

-- What may stand behind a number: no digit, no point and no exponent.
abbrev pub ends_number : ℕ → Bool
ends_number c = c == b',' || c == 10

take_digits-append :
    (t : Text) (c : ℕ) (rest : Text)
    → AreDigits t
    → is_digit c ≡ false
    → take_digits (t ++ c ∷ rest) ≡ (t, c ∷ rest)
unfolding take_digits
take_digits-append [] c rest h e = ground (arith, e)
take_digits-append (x ∷ t) c rest h e = ground (arith, h, take_digits-append t c rest h.1 e)

take_fraction-none :
    (c : ℕ) (rest : Text) → ends_number c ≡ true → take_fraction (c ∷ rest) ≡ ([], c ∷ rest)
unfolding take_fraction
take_fraction-none c rest e = ground (arith, e)

take_exponent-none :
    (c : ℕ) (rest : Text) → ends_number c ≡ true → take_exponent (c ∷ rest) ≡ ([], c ∷ rest)
unfolding take_exponent
take_exponent-none c rest e = ground (arith, e)

take_number-append :
    (t : Text) (c : ℕ) (rest : Text)
    → IsDecimal t
    → ends_number c ≡ true
    → take_number (t ++ c ∷ rest) ≡ (t, c ∷ rest)
unfolding take_number
take_number-append [] c rest h e = absurd (omega arith)
take_number-append (x ∷ t) c rest (inl (m, _), digits) e = ground (
  arith,
  m,
  take_digits-append t c rest digits (ground (arith, e)),
  take_fraction-none c rest e,
  take_exponent-none c rest e,
  append-nil t,
)
take_number-append (x ∷ t) c rest (inr d, digits) e = ground (
  arith,
  d,
  take_digits-append (x ∷ t) c rest (d, digits) (ground (arith, e)),
  take_fraction-none c rest e,
  take_exponent-none c rest e,
  append-nil t,
)

-- A decimal form starts with a minus or a digit.
starts_number : ℕ → Bool
starts_number x = x == b'-' || is_digit x

IsDecimal-starts_number : (x : ℕ) (t : Text) → IsDecimal (x ∷ t) → starts_number x ≡ true
unfolding starts_number
IsDecimal-starts_number x t (inl (m, _), _) = ground (arith, m)
IsDecimal-starts_number x t (inr h, _) = ground (arith, h)

skip_whitespace-number :
    (x : ℕ) (t : Text) → starts_number x ≡ true → skip_whitespace (x ∷ t) ≡ x ∷ t
unfolding starts_number skip_whitespace is_space
skip_whitespace-number x t h = ground (arith, h)

module _ (d : Doubles) where
  start_value-number :
      (x : ℕ) (t : Text)
      → starts_number x ≡ true
      → start_value d (b' ' ∷ x ∷ t) ≡ done (parse_number d (x ∷ t))
  unfolding starts_number start_value skip_whitespace is_space
  start_value-number x t h = ground (arith, h)

  parse_number-decimal :
      (x : ℕ) (t : Text) (c : ℕ) (rest : Text)
      → IsDecimal (x ∷ t)
      → ends_number c ≡ true
      → (d.strtod (x ∷ t)).1 ≡ length (x ∷ t)
      → parse_number d (x ∷ (t ++ c ∷ rest)) ≡ parsed (number (d.strtod (x ∷ t)).0) (c ∷ rest)
  unfolding parse_number
  parse_number-decimal x t c rest h e read = ground (
    arith,
    read,
    skip_whitespace-number x (t ++ c ∷ rest) (IsDecimal-starts_number x t h),
    take_number-append (x ∷ t) c rest h e,
  )

  -- A number behind a space, as a value.
  pub parse_mode-decimal :
      (fuel : ℕ) (t : Text) (c : ℕ) (rest : Text)
      → IsDecimal t
      → ends_number c ≡ true
      → (d.strtod t).1 ≡ length t
      → parse_mode d (suc fuel) value (b' ' ∷ (t ++ c ∷ rest))
        ≡ parsed (number (d.strtod t).0) (c ∷ rest)
  unfolding parse_mode
  parse_mode-decimal fuel [] c rest h e read = absurd (omega (arith, h))
  parse_mode-decimal fuel (x ∷ t) c rest h e read = ground (
    arith,
    start_value-number x (t ++ c ∷ rest) (IsDecimal-starts_number x t h),
    parse_number-decimal x t c rest h e read,
  )
