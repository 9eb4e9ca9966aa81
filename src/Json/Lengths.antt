-- ===== src/Json/Lengths.antt =====
-- HelenRuntime/JsonParser.cpp: how far each call moves the position on.
use helen_gamehook.Common.{
  ℕ, suc, ◌+◌, ◌≤◌, ◌<◌, ◌≡◌, refl, ◌⊎◌, inl, inr, Bool, true, false, ◌==◌, [], ◌∷◌, length, drop,
  take, Option, none, some, if◌then◌else◌, arith, length-drop, Option-cases, length-append, ◌++◌,
}
use helen_gamehook.Json.Parser.{Behind, behind_item, parse_key}
use helen_gamehook.Json.{
  skip_whitespace, peek, consume, unescape, string_body, push, parse_string, take_number, take_if,
  take_digits, take_fraction, take_exponent, is_exponent, is_sign,
}
use helen_gamehook.Paths.{Text, text_eq}

pub length-skip_whitespace : (t : Text) → length (skip_whitespace t) ≤ length t
unfolding skip_whitespace
length-skip_whitespace [] = omega arith
length-skip_whitespace (c ∷ t) = ground (arith, length-skip_whitespace t)

-- A text that starts with a character other than the one that `Peek` gives at the end has it.
pub length-drop-peek : (t : Text) (c : ℕ) → 0 < c → peek t ≡ c → length (drop 1 t) < length t
length-drop-peek [] c h e = absurd (omega (arith, h, e))
length-drop-peek (x ∷ t) c h e = omega arith

pub length-consume :
    (c : ℕ) (t : Text)
    → 0 < c
    → (((consume c t).0 ≡ true) × (length (consume c t).1 < length t))
      ⊎ (((consume c t).0 ≡ false) × (length (consume c t).1 ≤ length t))
unfolding consume
length-consume c t h =
    ground (arith, length-skip_whitespace t, length-drop-peek (skip_whitespace t) c h)

-- What a call leaves is shorter than `n`.
abbrev Within : ℕ → Option (Text × Text) → Type 0
Within n none = Unit {0}
Within n (some (s, rest)) = length rest < n

Within-push : (n : ℕ) (c : ℕ) (o : Option (Text × Text)) → Within n o → Within (suc n) (push c o)
Within-push n c none h = tt
Within-push n c (some (s, rest)) h = omega (arith, h)

string_body-Within : (escaped : Bool) (t : Text) → Within (length t) (string_body escaped t)
unfolding string_body
string_body-Within true [] = tt
string_body-Within false [] = tt
string_body-Within false (c ∷ t) =
    ground (arith, string_body-Within true t, Within-push _ c _ (string_body-Within false t))
string_body-Within true (e ∷ t) = elim (Option-cases (unescape e)) [
  | inl n ↦ ground (arith, n)
  | inr (c, n) ↦ ground (arith, n, Within-push _ c _ (string_body-Within false t))
]

pub parse_string-Within : (t : Text) → Within (length t) (parse_string t)
unfolding parse_string
parse_string-Within t = ground (
  arith,
  string_body-Within false (drop 1 (skip_whitespace t)),
  length-skip_whitespace t,
  length-drop-peek (skip_whitespace t) b'"' (omega arith),
  Option-cases (string_body false (drop 1 (skip_whitespace t))),
)

pub parse_key-Within : (t : Text) → Within (length t) (parse_key t)
unfolding parse_key
parse_key-Within t = elim (Option-cases (parse_string t)) [
  | inl e ↦ ground (arith, e)
  | inr ((s, rest), e) ↦
      ground (arith, e, parse_string-Within t, length-consume b':' rest (omega arith))
]

-- What stands behind an item is shorter than `n`.
abbrev BehindWithin : ℕ → Behind → Type 0
BehindWithin n (Behind.closed rest) = length rest < n
BehindWithin n (Behind.more rest) = length rest < n
BehindWithin n Behind.broken = Unit {0}

pub behind_item-Within :
    (close : ℕ) (t : Text) → 0 < close → BehindWithin (length t) (behind_item close t)
unfolding behind_item
behind_item-Within close t h =
    ground (arith, length-consume close t h, length-consume b',' (consume close t).1 (omega arith))

pub Behind-cases :
    (b : Behind)
    → ((r : Text) × (b ≡ Behind.closed r))
      ⊎ (((r : Text) × (b ≡ Behind.more r)) ⊎ (b ≡ Behind.broken))
Behind-cases (Behind.closed r) = inl (r, refl)
Behind-cases (Behind.more r) = inr (inl (r, refl))
Behind-cases Behind.broken = inr (inr refl)

length-take_digits : (t : Text) → length (take_digits t).0 + length (take_digits t).1 ≡ length t
unfolding take_digits
length-take_digits [] = omega arith
length-take_digits (c ∷ t) = ground (arith, length-take_digits t)

length-take_if : (b : Bool) (t : Text) → length (take_if b t).0 + length (take_if b t).1 ≡ length t
length-take_if true [] = omega arith
length-take_if true (c ∷ t) = omega arith
length-take_if false t = omega arith

length-take_fraction :
    (t : Text) → length (take_fraction t).0 + length (take_fraction t).1 ≡ length t
unfolding take_fraction
length-take_fraction t =
    let point = take_if (peek t == b'.') t in
    ground (
      arith,
      length-take_if (peek t == b'.') t,
      length-take_digits point.1,
      length-append point.0 (take_digits point.1).0,
    )

split_if :
    (b : Bool) (x y : Text × Text) (n : ℕ)
    → length x.0 + length x.1 ≡ n
    → length y.0 + length y.1 ≡ n
    → length (if b then x else y).0 + length (if b then x else y).1 ≡ n
split_if true x y n h h' = h
split_if false x y n h h' = h'

length-take_exponent :
    (t : Text) → length (take_exponent t).0 + length (take_exponent t).1 ≡ length t
unfolding take_exponent
length-take_exponent t =
    let mark = take_if (is_exponent (peek t)) t in
    let sign = take_if (is_sign (peek mark.1)) mark.1 in
    let digits = take_digits sign.1 in
    split_if (is_exponent (peek t)) _ _ (length t)
      (omega (
        arith,
        length-take_if (is_exponent (peek t)) t,
        length-take_if (is_sign (peek mark.1)) mark.1,
        length-take_digits sign.1,
        length-append mark.0 (sign.0 ++ digits.0),
        length-append sign.0 digits.0,
      ))
      (omega arith)

pub length-take_number : (t : Text) → length (take_number t).0 + length (take_number t).1 ≡ length t
unfolding take_number
length-take_number t =
    let minus = take_if (peek t == b'-') t in
    let digits = take_digits minus.1 in
    let fraction = take_fraction digits.1 in
    let exponent = take_exponent fraction.1 in
    omega (
      arith,
      length-take_if (peek t == b'-') t,
      length-take_digits minus.1,
      length-take_fraction digits.1,
      length-take_exponent fraction.1,
      length-append minus.0 (digits.0 ++ (fraction.0 ++ exponent.0)),
      length-append digits.0 (fraction.0 ++ exponent.0),
      length-append fraction.0 exponent.0,
    )

pub length-after_literal :
    (literal rest : Text)
    → text_eq (take (length literal) rest) literal ≡ true
    → 0 < length literal
    → length (drop (length literal) rest) < length rest
unfolding text_eq
length-after_literal [] rest e h = absurd (omega (arith, h))
length-after_literal (c ∷ l) [] e h = cc
length-after_literal (c ∷ l) (x ∷ rest) e h = omega (arith, length-drop (length l) rest)
