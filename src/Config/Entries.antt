-- ===== src/Config/Entries.antt =====
-- HelenRuntime/JsonConfigStore.cpp: maps of integers, as the parser and `Load` make them entry by entry.
use helen_gamehook.Common.Int.{ℤ}
use helen_gamehook.Common.Maps.{emplace, find, insert, contains}
use helen_gamehook.Common.Maps.Laws.{find-emplace}
use helen_gamehook.Common.Results.{ok}
use helen_gamehook.Common.{
  ◌≡◌, refl, ap, inl, inr, true, false, List, [], ◌∷◌, length, Option, none, some, arith,
  Option-cases, Bool-cases,
}
use helen_gamehook.Config.Load.{int_min, int_max, parse_int_value, load_members}
use helen_gamehook.Json.Numbers.{Doubles}
use helen_gamehook.Json.Strings.{IsDecimal}
use helen_gamehook.Json.{JsonValue, number, members_list, list_members}
use helen_gamehook.Paths.Keys.{text_key}
use helen_gamehook.Paths.{Text}

emplace-there :
    (key : Text) (v : ℤ) (m : List (Text × ℤ)) {w : ℤ} → find key m ≡ some w → emplace key v m ≡ m
unfolding emplace
emplace-there key v m e = ground (arith, e)

module _ (d : Doubles) where
  -- What the C library documents of the number `v`: its output is decimal, `strtod` reads it back
  -- to the double of `v`, which `modf` finds whole and in range, and which converts back to `v`.
  pub record Exact (v : ℤ) : Type 0 where
    pub decimal : IsDecimal (d.shows v)
    pub reads : d.strtod (d.shows v) ≡ (d.of_int v, length (d.shows v))
    pub whole : (d.is_zero (d.modf (d.of_int v)).0 ≡ true) × ((d.modf (d.of_int v)).1 ≡ d.of_int v)
    pub not_below : d.lt (d.of_int v) (d.of_int int_min) ≡ false
    pub not_above : d.lt (d.of_int int_max) (d.of_int v) ≡ false
    pub converts : d.to_int (d.of_int v) ≡ v

  -- Every `int` of the map is exact.
  abbrev pub AreExact : List (Text × ℤ) → Type 0
  AreExact [] = Unit {0}
  AreExact ((key, v) ∷ m) = Exact v × AreExact m

  parse_int_value-number : (v : ℤ) → Exact v → parse_int_value d (number (d.of_int v)) ≡ ok v
  unfolding parse_int_value
  parse_int_value-number v x = ground (arith, x.whole, x.not_below, x.not_above, x.converts)

  -- the entries as the parser makes them
  unfoldable pub numbers : List (Text × ℤ) → List (Text × JsonValue d)
  numbers [] = []
  numbers ((key, v) ∷ m) = (key, number (d.of_int v)) ∷ numbers m

  unfoldable pub emplace_all : List (Text × ℤ) → List (Text × ℤ) → List (Text × ℤ)
  emplace_all [] acc = acc
  emplace_all ((key, v) ∷ m) acc = emplace_all m (emplace key v acc)

  pub members_list-list_members :
      (l : List (Text × JsonValue d)) → members_list d (list_members d l) ≡ l
  members_list-list_members [] = refl
  members_list-list_members ((key, v) ∷ l) = ap (◌∷◌ (key, v)) (members_list-list_members l)

  numbers-insert :
      (key : Text) (v : ℤ) (m : List (Text × ℤ))
      → numbers (insert key v m) ≡ insert key (number (d.of_int v)) (numbers m)
  unfolding numbers insert
  numbers-insert key v [] = refl
  numbers-insert key v ((k, w) ∷ m) = ground (arith, numbers-insert key v m)

  contains-numbers : (key : Text) (m : List (Text × ℤ)) → contains key (numbers m) ≡ contains key m
  unfolding numbers find
  contains-numbers key [] = refl
  contains-numbers key ((k, w) ∷ m) = ground (arith, contains-numbers key m)

  pub numbers-emplace :
      (key : Text) (v : ℤ) (m : List (Text × ℤ))
      → numbers (emplace key v m) ≡ emplace key (number (d.of_int v)) (numbers m)
  unfolding emplace
  numbers-emplace key v m = ground (arith, contains-numbers key m, numbers-insert key v m)

  pub load_members-numbers :
      (m acc : List (Text × ℤ))
      → AreExact m
      → load_members d (numbers m) acc ≡ ok (emplace_all m acc)
  unfolding load_members numbers emplace_all
  load_members-numbers [] acc x = refl
  load_members-numbers ((key, v) ∷ m) acc x =
      ground (arith, parse_int_value-number v x.0, load_members-numbers m (emplace key v acc) x.1)

  unfoldable pub or_else : Option ℤ → Option ℤ → Option ℤ
  or_else none o = o
  or_else (some v) o = some v

  pub find-emplace_all :
      (m acc : List (Text × ℤ)) (k : Text)
      → find k (emplace_all m acc) ≡ or_else (find k acc) (find k m)
  unfolding emplace_all or_else find
  find-emplace_all [] acc k = ground (arith, Option-cases (find k acc))
  find-emplace_all ((key, v) ∷ m) acc k = elim (Option-cases (find key acc)) [
    | inl e ↦ ground (
      arith,
      find-emplace_all m (emplace key v acc) k,
      find-emplace key k v acc e,
      text_key.eqb_iff key k,
    )
    | inr (w, e) ↦ ground (
      arith,
      find-emplace_all m (emplace key v acc) k,
      emplace-there key v acc e,
      text_key.eqb_iff key k,
      e,
    )
  ]

  AreExact-insert :
      (key : Text) (v : ℤ) (m : List (Text × ℤ)) → Exact v → AreExact m → AreExact (insert key v m)
  unfolding insert
  AreExact-insert key v [] x y = (x, tt)
  AreExact-insert key v ((k, w) ∷ m) x y = elim (Bool-cases (text_key.lt key k)) [
    | inl e ↦ rw e (x, y)
    | inr e ↦ rw e (y.0, AreExact-insert key v m x y.1)
  ]

  AreExact-emplace :
      (key : Text) (v : ℤ) (m : List (Text × ℤ)) → Exact v → AreExact m → AreExact (emplace key v m)
  unfolding emplace
  AreExact-emplace key v m x y = elim (Bool-cases (contains key m)) [
    | inl e ↦ rw e y
    | inr e ↦ rw e (AreExact-insert key v m x y)
  ]

  pub AreExact-emplace_all :
      (m acc : List (Text × ℤ)) → AreExact m → AreExact acc → AreExact (emplace_all m acc)
  unfolding emplace_all
  AreExact-emplace_all [] acc x y = y
  AreExact-emplace_all ((key, v) ∷ m) acc x y =
      AreExact-emplace_all m (emplace key v acc) x.1 (AreExact-emplace key v acc x.0 y)
