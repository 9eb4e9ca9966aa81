-- ===== src/Pattern/Search.antt =====
-- HelenRuntime/Pattern.cpp: `FindFirst` finds the first place where the pattern matches, if any.
use helen_gamehook.Common.Words.{Bytes}
use helen_gamehook.Common.{
  ℕ, zero, suc, ◌+◌, ◌-◌, ◌≤◌, ◌<◌, ◌≡◌, ◌≢◌, ◌⊎◌, ◌↔◌, inl, inr, refl, subst, sym, Bool, true,
  List, [], ◌∷◌, length, get_elem?, drop, Option, none, some, if◌then◌else◌, arith, Bool-cases,
  length-drop,
}
use native.Mathlib.Decide.{dec_lt}
use helen_gamehook.Pattern.{Token, matches_at, find_from, find_first}

-- The bytes begin with a match of the pattern.
abbrev pub IsMatch : List Token → Bytes → Type 0
IsMatch [] bytes = Unit {0}
IsMatch (token ∷ tokens) [] = ⊥
IsMatch (token ∷ tokens) (b ∷ bytes) =
    ((token.wildcard ≡ true) ⊎ (b ≡ token.value)) × IsMatch tokens bytes

IsMatch-length :
    (tokens : List Token) (bytes : Bytes) → IsMatch tokens bytes → length tokens ≤ length bytes
IsMatch-length [] bytes m = omega arith
IsMatch-length (token ∷ tokens) [] m = elim m [ ]
IsMatch-length (token ∷ tokens) (b ∷ bytes) m = omega (arith, IsMatch-length tokens bytes m.1)

drop-cases :
    (bytes : Bytes) (p : ℕ)
    → ((get_elem? bytes p ≡ none) × (drop p bytes ≡ []))
      ⊎ ((b : ℕ) × (get_elem? bytes p ≡ some b) × (drop p bytes ≡ b ∷ drop (suc p) bytes))
drop-cases [] zero = inl (refl, refl)
drop-cases [] (suc p) = inl (refl, refl)
drop-cases (b ∷ bytes) zero = inr (b, refl, refl)
drop-cases (b ∷ bytes) (suc p) = drop-cases bytes p

matches_at_iff :
    (tokens : List Token) (bytes : Bytes) (p : ℕ)
    → p + length tokens ≤ length bytes
    → (matches_at tokens bytes p ≡ true) ↔ IsMatch tokens (drop p bytes)
unfolding matches_at
matches_at_iff [] bytes p fits = ground arith
matches_at_iff (token ∷ tokens) bytes p fits = elim (drop-cases bytes p) [
  | inl (e, d) ↦ ground (arith, d, fits, length-drop p bytes)
  | inr (b, e, d) ↦ ground (arith, e, d, matches_at_iff tokens bytes (suc p) (omega (arith, fits)))
]

-- The result of a search from `start`: the first place of a match, or that there is none.
abbrev pub IsFirstFrom : ℕ → List Token → Bytes → Option ℕ → Type 0
IsFirstFrom start tokens bytes none = (j : ℕ) → (j < start) ⊎ ¬ (IsMatch tokens (drop j bytes))
IsFirstFrom start tokens bytes (some i) =
    IsMatch tokens (drop i bytes)
    × ((j : ℕ) → (j < start) ⊎ ((i ≤ j) ⊎ ¬ (IsMatch tokens (drop j bytes))))

too_late :
    (tokens : List Token) (bytes : Bytes) (j : ℕ)
    → length bytes < j + length tokens
    → tokens ≢ []
    → ¬ (IsMatch tokens (drop j bytes))
too_late [] bytes j late nonempty m = nonempty refl
too_late (token ∷ tokens) bytes j late nonempty m =
    omega (arith, late, IsMatch-length (token ∷ tokens) (drop j bytes) m, length-drop j bytes)

still_first :
    (tokens : List Token) (bytes : Bytes) (start : ℕ) (rest : Option ℕ)
    → ¬ (IsMatch tokens (drop start bytes))
    → IsFirstFrom (suc start) tokens bytes rest
    → IsFirstFrom start tokens bytes rest
still_first tokens bytes start none fails later = λ j. elim (later j) [
  | inr m ↦ inr m
  | inl h ↦ elim (dec_lt j start) [
    | yes l ↦ inl l
    | no l ↦ inr (subst (λ (k : ℕ). ¬ (IsMatch tokens (drop k bytes))) (omega (arith, h, l)) fails)
  ]
]
still_first tokens bytes start (some i) fails later = (
  later.0,
  λ j. elim (later.1 j) [
    | inr m ↦ inr m
    | inl h ↦ elim (dec_lt j start) [
      | yes l ↦ inl l
      | no l ↦
          inr
            (inr (subst (λ (k : ℕ). ¬ (IsMatch tokens (drop k bytes))) (omega (arith, h, l)) fails))
    ]
  ],
)

first_of_rest :
    (tokens : List Token) (bytes : Bytes) (start : ℕ) (rest : Option ℕ)
    → (matches_at tokens bytes start ≡ true) ↔ IsMatch tokens (drop start bytes)
    → IsFirstFrom (suc start) tokens bytes rest
    → IsFirstFrom start tokens bytes (if matches_at tokens bytes start then some start else rest)
first_of_rest tokens bytes start rest here later =
    elim (Bool-cases (matches_at tokens bytes start)) [
      | inl e ↦
          subst (λ (b : Bool). IsFirstFrom start tokens bytes (if b then some start else rest))
            (sym e)
            (
              here.0 e,
              λ j. elim (dec_lt j start) [ yes h ↦ inl h | no h ↦ inr (inl (omega (arith, h))) ],
            )
      | inr e ↦
          subst (λ (b : Bool). IsFirstFrom start tokens bytes (if b then some start else rest))
            (sym e) (still_first tokens bytes start rest (λ m. ground (arith, here.1 m, e)) later)
    ]

find_from-IsFirstFrom :
    (tokens : List Token) (bytes : Bytes) (start n : ℕ)
    → tokens ≢ []
    → start + n + length tokens ≡ suc (length bytes)
    → IsFirstFrom start tokens bytes (find_from tokens bytes start n)
unfolding find_from
find_from-IsFirstFrom tokens bytes start zero nonempty all = λ j. elim (dec_lt j start) [
  | yes h ↦ inl h
  | no h ↦ inr (too_late tokens bytes j (omega (arith, all, h)) nonempty)
]
find_from-IsFirstFrom tokens bytes start (suc n) nonempty all =
    first_of_rest tokens bytes start (find_from tokens bytes (suc start) n)
      (matches_at_iff tokens bytes start (omega (arith, all)))
      (find_from-IsFirstFrom tokens bytes (suc start) n nonempty (omega (arith, all)))

-- `FindFirst` over a pattern with tokens returns the first place where every token matches, and none
-- only when there is no such place.
pub find_first-IsFirstFrom :
    (tokens : List Token) (bytes : Bytes)
    → tokens ≢ []
    → IsFirstFrom 0 tokens bytes (find_first tokens (some bytes))
unfolding find_first
find_first-IsFirstFrom [] bytes nonempty = elim (nonempty refl) [ ]
find_first-IsFirstFrom (token ∷ tokens) bytes nonempty =
    elim (dec_lt (length bytes) (length (token ∷ tokens))) [
      | yes h ↦
          let misses : none ≡ find_first (token ∷ tokens) (some bytes) = ground (arith, h) in
          subst (λ r. IsFirstFrom 0 (token ∷ tokens) bytes r) misses
            (λ j. inr (too_late (token ∷ tokens) bytes j (omega (arith, h)) nonempty))
      | no h ↦
          let searches : find_from (token ∷ tokens) bytes 0
                (suc (length bytes - length (token ∷ tokens)))
              ≡ find_first (token ∷ tokens) (some bytes) =
            ground (arith, h) in
          subst (λ r. IsFirstFrom 0 (token ∷ tokens) bytes r) searches
            (find_from-IsFirstFrom (token ∷ tokens) bytes 0
              (suc (length bytes - length (token ∷ tokens))) nonempty (omega (arith, h)))
    ]
