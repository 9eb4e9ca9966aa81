-- ===== src/Json/Fuel.antt =====
-- HelenRuntime/JsonParser.cpp: every call moves the position on, so the parser ends.
use helen_gamehook.Common.{
  ℕ, zero, suc, ◌+◌, ◌*◌, ◌≤◌, ◌<◌, ◌≡◌, ◌≢◌, refl, ◌⊎◌, inl, inr, Bool, true, false, ◌==◌, [], ◌∷◌,
  length, drop, if◌then◌else◌, arith, Option-cases,
}
use helen_gamehook.Json.Numbers.{Doubles}
use helen_gamehook.Json.Parser.{
  behind_item, parse_key, Parsed, exhausted, failed, parsed, parse_literal, parse_number,
  parse_string_value, Start, open_object, open_array, done, open_with, start_value, Mode, value,
  members, elements, parse_mode, parse_document, behind_value,
}
use helen_gamehook.Json.{
  JsonValue, null, boolean, array, object, nil, snoc, end, emplace_member, skip_whitespace, peek,
  consume, parse_string, take_number,
}
use helen_gamehook.Paths.{Text, codes, is_empty}
use helen_gamehook.Json.Lengths.{
  length-skip_whitespace, length-drop-peek, length-consume, parse_string-Within, parse_key-Within,
  behind_item-Within, Behind-cases, length-take_number, length-after_literal,
}

module _ (d : Doubles) where
  -- A call has ended, with less than `n` characters behind it.
  abbrev pub Ends : ℕ → Parsed d → Type 0
  Ends n exhausted = n < 0
  Ends n failed = Unit {0}
  Ends n (parsed v rest) = length rest < n

  Ends-mono : (m n : ℕ) (p : Parsed d) → m ≤ n → Ends m p → Ends n p
  Ends-mono m n exhausted h e = absurd (omega (arith, e))
  Ends-mono m n failed h e = tt
  Ends-mono m n (parsed v rest) h e = omega (arith, h, e)

  parse_literal-Ends :
      (literal : Text) (v : JsonValue d) (t : Text)
      → 0 < length literal
      → Ends (length t) (parse_literal d literal v t)
  unfolding parse_literal
  parse_literal-Ends literal v t h =
      ground (arith, length-after_literal literal (skip_whitespace t), length-skip_whitespace t, h)

  token_cases : (t : Text) → (is_empty t ≡ true) ⊎ ((is_empty t ≡ false) × (0 < length t))
  token_cases [] = inl refl
  token_cases (c ∷ t) = inr (refl, omega arith)

  parse_number-Ends : (t : Text) → Ends (length t) (parse_number d t)
  unfolding parse_number
  parse_number-Ends t =
      let token = take_number (skip_whitespace t) in
      elim (token_cases token.0) [
        | inl e ↦ ground (arith, e)
        | inr (e, h) ↦
            ground (arith, e, h, length-take_number (skip_whitespace t), length-skip_whitespace t)
      ]

  parse_string_value-Ends : (t : Text) → Ends (length t) (parse_string_value d t)
  unfolding parse_string_value
  parse_string_value-Ends t = elim (Option-cases (parse_string t)) [
    | inl e ↦ ground (arith, e)
    | inr ((s, rest), e) ↦ ground (arith, e, parse_string-Within t)
  ]

  -- A loop is left to run on less than `n` characters, or the value has ended.
  abbrev StartWithin : ℕ → Start d → Type 0
  StartWithin n (open_object rest) = length rest < n
  StartWithin n (open_array rest) = length rest < n
  StartWithin n (done p) = Ends n p

  open_with-Within :
      (close : ℕ) (v : JsonValue d) (loop : Text → Start d) (t : Text) (n : ℕ)
      → 0 < close
      → length t < n
      → ((rest : Text) → length rest < n → StartWithin n (loop rest))
      → StartWithin n (open_with d close v loop t)
  unfolding open_with
  open_with-Within close v loop t n h below step = ground (
    arith,
    length-consume close (skip_whitespace t) h,
    length-skip_whitespace t,
    step (consume close (skip_whitespace t)).1,
  )

  if_Within :
      (b : Bool) (n : ℕ) (x y : Start d)
      → (b ≡ true → StartWithin n x)
      → StartWithin n y
      → StartWithin n (if b then x else y)
  if_Within true n x y h h' = h refl
  if_Within false n x y h h' = h'

  start_value-Within : (t : Text) → StartWithin (length t) (start_value d t)
  unfolding start_value
  start_value-Within t =
      let rest = skip_whitespace t in
      let shorter = length-skip_whitespace t in
      let n = length t in
      if_Within (peek rest == b'{') n _ _
        (λ h.
          open_with-Within b'}' (object end) open_object (drop 1 rest) n (omega arith)
            (ground (arith, length-drop-peek rest b'{', shorter, h)) (λ r h. h))
        (if_Within (peek rest == b'[') n _ _
          (λ h.
            open_with-Within b']' (array nil) open_array (drop 1 rest) n (omega arith)
              (ground (arith, length-drop-peek rest b'[', shorter, h)) (λ r h. h))
          (if_Within (peek rest == b'"') n _ _
            (λ _. Ends-mono (length rest) n _ shorter (parse_string_value-Ends rest))
            (if_Within (peek rest == b't') n _ _
              (λ _.
                Ends-mono (length rest) n _ shorter
                  (parse_literal-Ends (codes "true") (boolean true) rest (omega arith)))
              (if_Within (peek rest == b'f') n _ _
                (λ _.
                  Ends-mono (length rest) n _ shorter
                    (parse_literal-Ends (codes "false") (boolean false) rest (omega arith)))
                (if_Within (peek rest == b'n') n _ _
                  (λ _.
                    Ends-mono (length rest) n _ shorter
                      (parse_literal-Ends (codes "null") null rest (omega arith)))
                  (Ends-mono (length rest) n _ shorter (parse_number-Ends rest)))))))

  Start-cases :
      (s : Start d)
      → ((p : Parsed d) × (s ≡ done p))
        ⊎ (((r : Text) × (s ≡ open_object r)) ⊎ ((r : Text) × (s ≡ open_array r)))
  Start-cases (done p) = inl (p, refl)
  Start-cases (open_object r) = inr (inl (r, refl))
  Start-cases (open_array r) = inr (inr (r, refl))

  -- Fuel enough: twice the characters, one for a value and one for an array that it opens.
  abbrev need : Mode d → ℕ → ℕ
  need value n = 2 * n + 1
  need (members m) n = 2 * n + 2
  need (elements a) n = 2 * n + 2

  behind_value-Ends :
      (close k n : ℕ) (item : Parsed d) (finished next : JsonValue d → Text → Parsed d)
      → 0 < close
      → k ≤ n
      → Ends k item
      → ((v : JsonValue d) (r : Text) → length r < k → Ends n (finished v r))
      → ((v : JsonValue d) (r : Text) → length r < k → Ends n (next v r))
      → Ends n (behind_value d close item finished next)
  unfolding behind_value
  behind_value-Ends close k n exhausted finished next c le h f g = absurd (omega (arith, h))
  behind_value-Ends close k n failed finished next c le h f g = tt
  behind_value-Ends close k n (parsed v rest) finished next c le h f g =
      elim (Behind-cases (behind_item close rest)) [
        | inl (r, e) ↦
            let b : length r < length rest = ground (arith, e, behind_item-Within close rest c) in
            ground (arith, e, f v r (omega (arith, b, h)))
        | inr (inl (r, e)) ↦
            let b : length r < length rest = ground (arith, e, behind_item-Within close rest c) in
            ground (arith, e, g v r (omega (arith, b, h)))
        | inr (inr e) ↦ ground (arith, e)
      ]

  parse_mode-Ends :
      (fuel : ℕ) (mode : Mode d) (t : Text)
      → need mode (length t) ≤ fuel
      → Ends (length t) (parse_mode d fuel mode t)
  unfolding parse_mode
  parse_mode-Ends zero mode t h = absurd (ground arith)
  parse_mode-Ends (suc fuel) value t h = elim (Start-cases (start_value d t)) [
    | inl (p, e) ↦ ground (arith, e, start_value-Within t)
    | inr (inl (r, e)) ↦
        let within : length r < length t = ground (arith, e, start_value-Within t) in
        ground (
          arith,
          e,
          Ends-mono (length r) (length t) _ (omega arith)
              (parse_mode-Ends fuel (members end) r (omega (arith, h, within))),
        )
    | inr (inr (r, e)) ↦
        let within : length r < length t = ground (arith, e, start_value-Within t) in
        ground (
          arith,
          e,
          Ends-mono (length r) (length t) _ (omega arith)
              (parse_mode-Ends fuel (elements nil) r (omega (arith, h, within))),
        )
  ]
  parse_mode-Ends (suc fuel) (members m) t h = elim (Option-cases (parse_key t)) [
    | inl e ↦ ground (arith, e)
    | inr ((key, r), e) ↦
        let within : length r < length t = ground (arith, e, parse_key-Within t) in
        let next = λ (v : JsonValue d) (r' : Text) (k : length r' < length r).
          Ends-mono (length r') (length t) _ (omega (arith, k, within)) (
            parse_mode-Ends fuel (members (emplace_member d key v m)) r'
              (omega (arith, h, within, k))) in
        ground (
          arith,
          e,
          behind_value-Ends b'}' (length r) (length t) (parse_mode d fuel value r)
              (λ v r'. parsed (object (emplace_member d key v m)) r')
              (λ v r'. parse_mode d fuel (members (emplace_member d key v m)) r') (omega arith)
              (omega (arith, within)) (parse_mode-Ends fuel value r (omega (arith, h, within)))
              (λ v r' k. omega (arith, k, within)) next,
        )
  ]
  parse_mode-Ends (suc fuel) (elements a) t h =
      behind_value-Ends b']' (length t) (length t) _ _ _ (omega arith) (omega arith)
        (parse_mode-Ends fuel value t (omega (arith, h))) (λ v r' k. k)
        (λ v r' k.
          Ends-mono (length r') (length t) _ (omega (arith, k))
            (parse_mode-Ends fuel (elements (snoc a v)) r' (omega (arith, h, k))))

  -- The parser never runs out of fuel: `JsonParser::Parse` ends with a value or with `nullopt` on
  -- every text.
  pub parse_document-ends : (t : Text) → parse_document d t ≢ exhausted
  unfolding parse_document
  parse_document-ends t h =
      ground (arith, h, parse_mode-Ends (2 * length t + 2) value t (omega arith))
