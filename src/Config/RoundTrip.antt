-- ===== src/Config/RoundTrip.antt =====
-- HelenRuntime/JsonConfigStore.cpp: `Load` reads back what `Save` has written.
use mathlib.Core.List.{append_assoc}
use helen_gamehook.Common.Int.{ℤ}
use helen_gamehook.Common.Maps.{emplace, find}
use helen_gamehook.Common.Results.{ok}
use helen_gamehook.Common.{
  ℕ, zero, suc, ◌+◌, ◌*◌, ◌≡◌, ◌≤◌, ◌<◌, refl, sym, ◌∙◌, ap, Bool, true, false, ◌||◌, ◌==◌, List,
  [], ◌∷◌, ◌++◌, length, some, if◌then◌else◌, arith, length-append,
}
use helen_gamehook.Config.Json.{escape_json_string, serialize_members, serialize_config}
use helen_gamehook.Config.Load.{load_text, load_config}
use helen_gamehook.Json.Numbers.{Doubles}
use helen_gamehook.Json.Parser.{
  parse_key, Parsed, parsed, value, members, parse_mode, parse_document, behind_value, behind_item,
  Behind, start_value, open_object, open_with,
}
use helen_gamehook.Json.Strings.{quoted_key, parse_key-quoted_key, parse_mode-decimal}
use helen_gamehook.Json.{
  JsonValue, number, object, Members, end, emplace_member, list_members, skip_whitespace, consume,
}
use helen_gamehook.Paths.Keys.{text_key}
use helen_gamehook.Paths.{Text}
use helen_gamehook.Pattern.{is_space}
use helen_gamehook.Config.Entries.{
  Exact, AreExact, numbers, emplace_all, members_list-list_members, numbers-emplace,
  load_members-numbers, or_else, find-emplace_all, AreExact-emplace_all,
}

module _ (d : Doubles) where
  emplace_member-numbers :
      (key : Text) (v : ℤ) (m : List (Text × ℤ))
      → emplace_member d key (number (d.of_int v)) (list_members d (numbers d m))
        ≡ list_members d (numbers d (emplace key v m))
  unfolding emplace_member
  emplace_member-numbers key v m =
      ap (λ (l : List (Text × JsonValue d)). list_members d (emplace key (number (d.of_int v)) l))
        (members_list-list_members d (numbers d m))
      ∙ ap (list_members d) (sym (numbers-emplace d key v m))

  -- what stands behind the last entry, and behind any
  abbrev tail : Text
  tail = 10 ∷ b'}' ∷ 10 ∷ []

  abbrev behind : List (Text × ℤ) → Text
  behind m = serialize_members d.shows false m ++ tail

  abbrev entry : Text → ℤ → List (Text × ℤ) → Text
  entry key v m = quoted_key key (b' ' ∷ (d.shows v ++ behind m))

  entry_text :
      (key : Text) (v : ℤ) (m : List (Text × ℤ))
      → (b'"'
            ∷ (escape_json_string key
                ++ (b'"' ∷ b':' ∷ b' ' ∷ (d.shows v ++ serialize_members d.shows false m))))
          ++ tail
        ≡ entry key v m
  entry_text key v m =
      let rest = serialize_members d.shows false m in
      ap (◌∷◌ b'"') (
        append_assoc (escape_json_string key) (b'"' ∷ b':' ∷ b' ' ∷ (d.shows v ++ rest)) tail
        ∙ ap (λ (t : Text). escape_json_string key ++ b'"' ∷ b':' ∷ b' ' ∷ t)
            (append_assoc (d.shows v) rest tail))

  behind-cons :
      (key : Text) (v : ℤ) (m : List (Text × ℤ))
      → behind ((key, v) ∷ m) ≡ b',' ∷ 10 ∷ b' ' ∷ b' ' ∷ entry key v m
  unfolding serialize_members
  behind-cons key v m = ap (λ (t : Text). b',' ∷ 10 ∷ b' ' ∷ b' ' ∷ t) (entry_text key v m)

  -- what the loop does with an entry in the map
  abbrev after_entry : ℕ → Members d → Behind → Parsed d
  after_entry fuel m (Behind.closed r) = parsed (object m) r
  after_entry fuel m (Behind.more r) = parse_mode d fuel (members m) r
  after_entry fuel m Behind.broken = Parsed.failed

  parse_mode-members :
      (fuel : ℕ) (m : Members d) (text key rest rest' : Text) (v : JsonValue d)
      → parse_key text ≡ some (key, rest)
      → parse_mode d fuel value rest ≡ parsed v rest'
      → parse_mode d (suc fuel) (members m) text
        ≡ after_entry fuel (emplace_member d key v m) (behind_item b'}' rest')
  unfolding parse_mode behind_value
  parse_mode-members fuel m text key rest rest' v e e' = ground (arith, e, e')

  behind_item-tail : behind_item b'}' tail ≡ Behind.closed (10 ∷ [])
  unfolding behind_item consume skip_whitespace is_space
  behind_item-tail = refl

  behind_item-comma : (t : Text) → behind_item b'}' (b',' ∷ t) ≡ Behind.more t
  unfolding behind_item consume skip_whitespace is_space
  behind_item-comma t = refl

  skip_whitespace-entry :
      (key : Text) (v : ℤ) (m : List (Text × ℤ))
      → skip_whitespace (10 ∷ b' ' ∷ b' ' ∷ entry key v m) ≡ entry key v m
  unfolding skip_whitespace is_space
  skip_whitespace-entry key v m = refl

  -- the number of an entry, up to what stands behind it
  value-shows :
      (fuel : ℕ) (v : ℤ) (c : ℕ) (t : Text)
      → Exact d v
      → (c == b',' || c == 10) ≡ true
      → parse_mode d (suc fuel) value (b' ' ∷ (d.shows v ++ c ∷ t))
        ≡ parsed (number (d.of_int v)) (c ∷ t)
  value-shows fuel v c t x e =
      parse_mode-decimal d fuel (d.shows v) c t x.decimal e (ap (λ (p : d.Double × ℕ). p.1) x.reads)
      ∙ ap (λ (p : d.Double × ℕ). parsed (number p.0) (c ∷ t)) x.reads

  members_loop :
      (fuel : ℕ) (key : Text) (v : ℤ) (m o : List (Text × ℤ)) (text : Text)
      → Exact d v
      → AreExact d m
      → length m < fuel
      → skip_whitespace text ≡ entry key v m
      → parse_mode d (suc fuel) (members (list_members d (numbers d o))) text
        ≡ parsed (object (list_members d (numbers d (emplace_all d ((key, v) ∷ m) o)))) (10 ∷ [])
  unfolding serialize_members emplace_all
  members_loop zero key v m o text x xs enough h = absurd (omega (arith, enough))
  members_loop (suc fuel) key v [] o text x xs enough h =
      parse_mode-members (suc fuel) _ text key _ tail (number (d.of_int v))
        (parse_key-quoted_key text key _ h) (value-shows fuel v 10 _ x refl)
      ∙ ap (after_entry (suc fuel) _) behind_item-tail
      ∙ ap (λ (n : Members d). parsed (object n) (10 ∷ [])) (emplace_member-numbers key v o)
  members_loop (suc fuel) key v ((k, w) ∷ m) o text x xs enough h =
      parse_mode-members (suc fuel) _ text key _ (b',' ∷ 10 ∷ b' ' ∷ b' ' ∷ entry k w m)
        (number (d.of_int v))
        (parse_key-quoted_key text key _
          (h ∙ ap (λ (t : Text). quoted_key key (b' ' ∷ (d.shows v ++ t))) (behind-cons k w m)))
        (value-shows fuel v b',' _ x refl)
      ∙ ap (after_entry (suc fuel) _) (behind_item-comma _)
      ∙ ap (λ (n : Members d). parse_mode d (suc fuel) (members n) (10 ∷ b' ' ∷ b' ' ∷ entry k w m))
          (emplace_member-numbers key v o)
      ∙ members_loop fuel k w m (emplace key v o) _ xs.0 xs.1 (omega (arith, enough))
          (skip_whitespace-entry k w m)

  -- the text of a map with an entry, up to where the loop of `ParseObject` starts
  open_value :
      (key : Text) (v : ℤ) (m : List (Text × ℤ))
      → start_value d (serialize_config d.shows ((key, v) ∷ m)) ≡ open_object (entry key v m)
  unfolding start_value consume skip_whitespace is_space serialize_config serialize_members
  open_value key v m = ap open_object (entry_text key v m)

  length-serialize_members :
      (first : Bool) (m : List (Text × ℤ)) → length m ≤ length (serialize_members d.shows first m)
  unfolding serialize_members
  length-serialize_members first [] = omega arith
  length-serialize_members first ((key, v) ∷ m) =
      let rest = serialize_members d.shows false m in
      omega (
        arith,
        length-serialize_members false m,
        length-append (if first then [] else b',' ∷ 10 ∷ []) (
            b' '
            ∷ b' '
            ∷ b'"'
            ∷ (escape_json_string key ++ (b'"' ∷ b':' ∷ b' ' ∷ (d.shows v ++ rest)))),
        length-append (escape_json_string key) (b'"' ∷ b':' ∷ b' ' ∷ (d.shows v ++ rest)),
        length-append (d.shows v) rest,
      )

  length-serialize_config : (m : List (Text × ℤ)) → length m < length (serialize_config d.shows m)
  unfolding serialize_config
  length-serialize_config m = omega (
    arith,
    length-serialize_members true m,
    length-append (serialize_members d.shows true m) tail,
  )

  parse_mode-opened :
      (fuel : ℕ) (text rest : Text)
      → start_value d text ≡ open_object rest
      → parse_mode d (suc fuel) value text ≡ parse_mode d fuel (members end) rest
  unfolding parse_mode
  parse_mode-opened fuel text rest h = ground (arith, h)

  parse_document-parsed :
      (text : Text) (v : JsonValue d)
      → parse_mode d (2 * length text + 2) value text ≡ parsed v (10 ∷ [])
      → parse_document d text ≡ parsed v []
  unfolding parse_document skip_whitespace is_space
  parse_document-parsed text v h = ground (arith, h)

  parse_document-serialize_config :
      (m : List (Text × ℤ))
      → AreExact d m
      → parse_document d (serialize_config d.shows m)
        ≡ parsed (object (list_members d (numbers d (emplace_all d m [])))) []
  parse_document-serialize_config [] x =
      unfold parse_document parse_mode start_value open_with consume skip_whitespace is_space
        serialize_config serialize_members numbers emplace_all in
      refl
  parse_document-serialize_config ((key, v) ∷ m) x =
      let text = serialize_config d.shows ((key, v) ∷ m) in
      let fuel : 2 * length text + 2 ≡ suc (suc (2 * length text)) = omega arith in
      parse_document-parsed text _ (
        ap (λ (n : ℕ). parse_mode d n value text) fuel
        ∙ parse_mode-opened _ text _ (open_value key v m)
        ∙ unfold numbers in
          members_loop (2 * length text) key v m [] (entry key v m) x.0 x.1
            (omega (arith, length-serialize_config ((key, v) ∷ m)))
            (unfold skip_whitespace is_space in refl))

  find-loaded :
      (m : List (Text × ℤ)) (k : Text) → find k (emplace_all d (emplace_all d m []) []) ≡ find k m
  unfolding or_else find
  find-loaded m k = find-emplace_all d (emplace_all d m []) [] k ∙ find-emplace_all d m [] k

  -- A file that `SerializeConfig` has written of a map of integers, which the C library prints and
  -- reads exactly, is loaded without an exception to a map in which every key has the value that
  -- it had, and no other key is there.
  pub load_config-serialize_config :
      (m : List (Text × ℤ)) (k : Text)
      → AreExact d m
      → (loaded : List (Text × ℤ)) × (load_config d true (some (serialize_config d.shows m))
          ≡ ok loaded)
        × (find k loaded ≡ find k m)
  unfolding load_config load_text
  load_config-serialize_config m k x =
      let once = emplace_all d m [] in
      (
        emplace_all d once [],
        ground (
          arith,
          parse_document-serialize_config m x,
          members_list-list_members d (numbers d once),
          load_members-numbers d once [] (AreExact-emplace_all d m [] x tt),
        ),
        find-loaded m k,
      )
