-- ===== src/Pattern.antt =====
-- HelenRuntime/Pattern.cpp: byte patterns with wildcards, as text and as a search.
pub mod Search
pub mod RoundTrip
use helen_gamehook.Common.Words.{Bytes}
use helen_gamehook.Common.{
  ℕ, zero, suc, ◌+◌, ◌-◌, ◌*◌, Bool, true, false, not, ◌&&◌, ◌||◌, ltb, leb, ◌==◌, List, [], ◌∷◌,
  length, get_elem?, Option, none, some, if◌then◌else◌,
}
use helen_gamehook.Paths.{Text, codes, text_eq}

pub record Token : Type 0 where
  pub value : ℕ
  pub wildcard : Bool

-- `isspace` and `toupper` of the C locale.
unfoldable pub is_space : ℕ → Bool
is_space c = (c == 32) || (leb 9 c && leb c 13)

unfoldable pub to_upper : ℕ → ℕ
to_upper c = if leb 97 c && leb c 122 then c - 32 else c

-- `TryParseHexDigit`
unfoldable pub try_parse_hex_digit : ℕ → Option ℕ
unfolding to_upper
try_parse_hex_digit c =
    if leb 48 c && leb c 57
    then some (c - 48)
    else (let upper = to_upper c in
        if leb 65 upper && leb upper 70 then some (10 + (upper - 65)) else none)

-- `TryParseByteToken`; the two digits have no bit in common, so that `|` is `+`.
unfoldable pub try_parse_byte_token : Text → Option ℕ
unfolding try_parse_hex_digit
try_parse_byte_token (a ∷ b ∷ []) = elim (try_parse_hex_digit a) [
  | none ↦ none
  | some high ↦ elim (try_parse_hex_digit b) [ none ↦ none | some low ↦ some (high * 16 + low) ]
]
try_parse_byte_token _ = none

-- The two inner loops of `Parse`: past the spaces, and to the end of the token.
unfoldable pub skip_spaces : Text → Text
unfolding is_space
skip_spaces [] = []
skip_spaces (c ∷ t) = let rest = skip_spaces t in if is_space c then rest else c ∷ t

unfoldable pub token_text : Text → Text
unfolding is_space
token_text [] = []
token_text (c ∷ t) = let rest = token_text t in if is_space c then [] else c ∷ rest

unfoldable pub after_token : Text → Text
unfolding is_space
after_token [] = []
after_token (c ∷ t) = let rest = after_token t in if is_space c then c ∷ t else rest

unfoldable pub parse_token : Text → Option Token
unfolding try_parse_byte_token
parse_token t =
    if text_eq t (codes "?") || text_eq t (codes "??")
    then some (record { value = 0; wildcard = true })
    else elim (try_parse_byte_token t) [
      | none ↦ none
      | some v ↦ some (record { value = v; wildcard = false })
    ]

-- The outer loop of `Parse`, with fuel: each round consumes a character.
unfoldable pub parse_tokens : ℕ → Text → Option (List Token)
unfolding skip_spaces token_text after_token parse_token
parse_tokens zero t = none
parse_tokens (suc n) t = elim (skip_spaces t) [
  | [] ↦ some []
  | c ∷ rest ↦ elim (parse_token (token_text (c ∷ rest))) [
    | none ↦ none
    | some token ↦ elim (parse_tokens n (after_token (c ∷ rest))) [
      | none ↦ none
      | some tokens ↦ some (token ∷ tokens)
    ]
  ]
]

-- `BytePattern::Parse`
unfoldable pub parse : Text → Option (List Token)
unfolding parse_tokens
parse t = elim (parse_tokens (suc (length t)) t) [
  | none ↦ none
  | some [] ↦ none
  | some (token ∷ tokens) ↦ some (token ∷ tokens)
]

abbrev same_byte : Option ℕ → ℕ → Bool
same_byte none v = false
same_byte (some b) v = b == v

-- The inner loop of `FindFirst`.
unfoldable pub matches_at : List Token → Bytes → ℕ → Bool
matches_at [] bytes p = true
matches_at (token ∷ tokens) bytes p =
    let rest = matches_at tokens bytes (suc p) in
    if not token.wildcard && not (same_byte (get_elem? bytes p) token.value) then false else rest

-- The outer loop of `FindFirst`, over the next `n` starts.
unfoldable pub find_from : List Token → Bytes → ℕ → ℕ → Option ℕ
unfolding matches_at
find_from tokens bytes start zero = none
find_from tokens bytes start (suc n) =
    let rest = find_from tokens bytes (suc start) n in
    if matches_at tokens bytes start then some start else rest

abbrev is_nil : List Token → Bool
is_nil [] = true
is_nil (t ∷ ts) = false

-- `FindFirst`: the offset of the match; `none` stands for a null pointer.
unfoldable pub find_first : List Token → Option Bytes → Option ℕ
find_first tokens none = none
find_first tokens (some bytes) =
    if is_nil tokens || ltb (length bytes) (length tokens)
    then none
    else find_from tokens bytes 0 (suc (length bytes - length tokens))
