-- ===== src/Pattern/RoundTrip.antt =====
-- HelenRuntime/Pattern.cpp: `Parse` reads back every pattern that is written in its notation.
use helen_gamehook.Common.{
  ℕ, zero, suc, ◌+◌, ◌*◌, ◌/◌, ◌%◌, ◌≤◌, ◌<◌, ◌≡◌, ◌≢◌, ◌⊎◌, inl, inr, refl, ap, ◌∙◌, true, false,
  ltb, List, [], ◌∷◌, ◌++◌, length, none, some, if◌then◌else◌, arith, length-append,
}
use helen_gamehook.Paths.{Text, text_eq}
use helen_gamehook.Pattern.{
  Token, is_space, to_upper, try_parse_hex_digit, try_parse_byte_token, skip_spaces, token_text,
  after_token, parse_token, parse_tokens, parse,
}

-- A digit as the notation writes it, in capitals.
unfoldable hex_digit : ℕ → ℕ
hex_digit n = if ltb n 10 then 48 + n else 55 + n

unfoldable token_notation : Token → Text
unfolding hex_digit
token_notation token =
    if token.wildcard
    then 63 ∷ 63 ∷ []
    else hex_digit (token.value / 16) ∷ hex_digit (token.value % 16) ∷ []

-- The notation of a pattern: its tokens, a space behind each.
unfoldable pub notation : List Token → Text
unfolding token_notation
notation [] = []
notation (token ∷ tokens) = token_notation token ++ (32 ∷ notation tokens)

-- A wildcard has no value, and a value is a byte.
abbrev pub IsToken : Token → Type 0
IsToken token =
    ((token.wildcard ≡ true) × (token.value ≡ 0)) ⊎ ((token.wildcard ≡ false) × (token.value < 256))

abbrev pub AreTokens : List Token → Type 0
AreTokens [] = Unit {0}
AreTokens (token ∷ tokens) = IsToken token × AreTokens tokens

hex_digit-is_space : (n : ℕ) → n < 16 → is_space (hex_digit n) ≡ false
unfolding hex_digit is_space
hex_digit-is_space n h = ground arith

try_parse_hex_digit-hex_digit : (n : ℕ) → n < 16 → try_parse_hex_digit (hex_digit n) ≡ some n
unfolding hex_digit try_parse_hex_digit to_upper
try_parse_hex_digit-hex_digit n h = ground arith

hex_digit_question : (n : ℕ) → n < 16 → hex_digit n ≢ 63
unfolding hex_digit
hex_digit_question n h = ground arith

byte_digits : (v : ℕ) → v < 256 → (v / 16 < 16) × (v % 16 < 16) × (v / 16 * 16 + v % 16 ≡ v)
byte_digits v h = (omega (arith, h), omega (arith, h), omega (arith, h))

parse_token-hex_digit :
    (v : ℕ)
    → v < 256
    → parse_token (hex_digit (v / 16) ∷ hex_digit (v % 16) ∷ [])
      ≡ some (record { value = v; wildcard = false })
unfolding parse_token try_parse_byte_token text_eq
parse_token-hex_digit v h =
    let (high, low, whole) = byte_digits v h in
    ground (
      arith,
      high,
      low,
      whole,
      try_parse_hex_digit-hex_digit (v / 16) high,
      try_parse_hex_digit-hex_digit (v % 16) low,
      hex_digit_question (v / 16) high,
    )

-- The two characters of a token.
record IsWritten (token : Token) : Type 0 where
  high : ℕ
  low : ℕ
  written : token_notation token ≡ high ∷ low ∷ []
  high_visible : is_space high ≡ false
  low_visible : is_space low ≡ false
  read_back : parse_token (high ∷ low ∷ []) ≡ some token

token_notation-IsWritten : (token : Token) → IsToken token → IsWritten token
unfolding token_notation
token_notation-IsWritten token (inl (w, z)) = record {
  high = 63;
  low = 63;
  written = ground (arith, w);
  high_visible = unfold is_space in refl;
  low_visible = unfold is_space in refl;
  read_back = unfold parse_token text_eq in ground (arith, w, z);
}
token_notation-IsWritten token (inr (w, b)) =
    let (high, low, whole) = byte_digits token.value b in
    record {
      high = hex_digit (token.value / 16);
      low = hex_digit (token.value % 16);
      written = ground (arith, w);
      high_visible = hex_digit-is_space (token.value / 16) high;
      low_visible = hex_digit-is_space (token.value % 16) low;
      read_back = ground (arith, w, parse_token-hex_digit token.value b);
    }

parse_tokens_written :
    (n high low : ℕ) (rest : Text) (token : Token)
    → is_space high ≡ false
    → is_space low ≡ false
    → parse_token (high ∷ low ∷ []) ≡ some token
    → parse_tokens (suc n) (high ∷ low ∷ 32 ∷ rest)
      ≡ (elim (parse_tokens n (32 ∷ rest)) [ none ↦ none | some tokens ↦ some (token ∷ tokens) ])
unfolding parse_tokens skip_spaces token_text after_token
parse_tokens_written n high low rest token h l r =
    let space : is_space 32 ≡ true = unfold is_space in refl in ground (arith, h, l, r, space)

parse_tokens_space : (n : ℕ) (rest : Text) → parse_tokens n (32 ∷ rest) ≡ parse_tokens n rest
unfolding parse_tokens skip_spaces is_space
parse_tokens_space zero rest = refl
parse_tokens_space (suc n) rest = refl

parse_tokens-notation :
    (tokens : List Token) (n : ℕ)
    → AreTokens tokens
    → length tokens < n
    → parse_tokens n (notation tokens) ≡ some tokens
unfolding notation parse_tokens
parse_tokens-notation [] zero are lt = ground arith
parse_tokens-notation [] (suc n) are lt = unfold skip_spaces in refl
parse_tokens-notation (token ∷ tokens) zero are lt = ground arith
parse_tokens-notation (token ∷ tokens) (suc n) are lt =
    let w = token_notation-IsWritten token are.0 in
    let rest = parse_tokens-notation tokens n are.1 (omega (arith, lt)) in
    let first =
      parse_tokens_written n w.high w.low (notation tokens) token w.high_visible w.low_visible
        w.read_back in
    ap (λ t. parse_tokens (suc n) (t ++ (32 ∷ notation tokens))) w.written
    ∙ first
    ∙ ground (arith, parse_tokens_space n (notation tokens), rest)

length-notation :
    (tokens : List Token) → AreTokens tokens → length tokens ≤ length (notation tokens)
unfolding notation
length-notation [] are = omega arith
length-notation (token ∷ tokens) are = omega (
  arith,
  length-append (token_notation token) (32 ∷ notation tokens),
  length-notation tokens are.1,
)

-- Any pattern with tokens, each a byte or a wildcard, written in capitals with `??` for a wildcard
-- and a space behind each token, is parsed to itself.
pub parse-notation :
    (tokens : List Token) → tokens ≢ [] → AreTokens tokens → parse (notation tokens) ≡ some tokens
unfolding parse
parse-notation [] nonempty are = elim (nonempty refl) [ ]
parse-notation (token ∷ tokens) nonempty are =
    let read =
      parse_tokens-notation (token ∷ tokens) (suc (length (notation (token ∷ tokens)))) are
        (omega (arith, length-notation (token ∷ tokens) are)) in
    ground (arith, read)
