-- ===== src/Common/Lists/Slices.antt =====
-- Laws of the contiguous parts of a list.
use mathlib.Core.Path.{◌≡◌, refl, ap, sym, ◌∙◌}
use mathlib.Core.List.{List, [], ◌∷◌, ◌++◌}
use Prim.Native.Nat.{ℕ, zero, suc, ◌+◌, ◌-◌, ◌≤◌, min}
use mathlib.Core.Option.{some}
use native.Mathlib.Omega.{arith}
use native.Mathlib.Decide.{dec_le}
use native.Mathlib.Nat.{zero-add, zero-sub, sub-zero, suc-sub-suc, suc-add}
use helen_gamehook.Common.Lists.{length, take, drop, slice, length-drop, get_elem?}

module _ {ℓ} {A : Type ℓ} where
  take-append_left : (n : ℕ) (xs ys : List A) → n ≤ length xs → take n (xs ++ ys) ≡ take n xs
  take-append_left zero xs ys h = refl
  take-append_left (suc n) [] ys h = elim h [ ]
  take-append_left (suc n) (x ∷ xs) ys h = ap (◌∷◌ x) (take-append_left n xs ys (omega arith))

  drop-append_left : (i : ℕ) (xs ys : List A) → i ≤ length xs → drop i (xs ++ ys) ≡ drop i xs ++ ys
  drop-append_left zero xs ys h = refl
  drop-append_left (suc i) [] ys h = elim h [ ]
  drop-append_left (suc i) (x ∷ xs) ys h = drop-append_left i xs ys (omega arith)

  drop-append_right : (i : ℕ) (xs ys : List A) → drop (length xs + i) (xs ++ ys) ≡ drop i ys
  drop-append_right i [] ys = rw zero-add
  drop-append_right i (x ∷ xs) ys = rw (suc-add (length xs) i) (drop-append_right i xs ys)

  drop-nil : (i : ℕ) → drop {A = A} i [] ≡ []
  drop-nil zero = refl
  drop-nil (suc i) = refl

  take-nil : (i : ℕ) → take {A = A} i [] ≡ []
  take-nil zero = refl
  take-nil (suc i) = refl

  pub drop-drop : (i j : ℕ) (xs : List A) → drop j (drop i xs) ≡ drop (i + j) xs
  drop-drop zero j xs = rw zero-add
  drop-drop (suc i) j [] = drop-nil j ∙ sym (drop-nil (suc i + j))
  drop-drop (suc i) j (x ∷ xs) = rw (suc-add i j) (drop-drop i j xs)

  pub take_all : (n : ℕ) (xs : List A) → length xs ≤ n → take n xs ≡ xs
  take_all zero [] h = refl
  take_all zero (x ∷ xs) h = elim h [ ]
  take_all (suc n) [] h = refl
  take_all (suc n) (x ∷ xs) h = ap (◌∷◌ x) (take_all n xs (omega arith))

  take-add : (a b : ℕ) (xs : List A) → take (a + b) xs ≡ take a xs ++ take b (drop a xs)
  take-add zero b xs = rw zero-add
  take-add (suc a) b [] = take-nil (suc a + b) ∙ sym (take-nil b)
  take-add (suc a) b (x ∷ xs) = rw (suc-add a b) (ap (◌∷◌ x) (take-add a b xs))

  pub slice-append_left :
      (i n : ℕ) (xs ys : List A) → i + n ≤ length xs → slice i n (xs ++ ys) ≡ slice i n xs
  unfolding slice
  slice-append_left i n xs ys h =
      ap (take n) (drop-append_left i xs ys (omega arith))
      ∙ take-append_left n (drop i xs) ys (omega (arith, length-drop i xs))

  pub slice-append_right :
      (i n : ℕ) (xs ys : List A) → slice (length xs + i) n (xs ++ ys) ≡ slice i n ys
  unfolding slice
  slice-append_right i n xs ys = ap (take n) (drop-append_right i xs ys)

  pub slice-add :
      (i a b : ℕ) (xs : List A) → slice i (a + b) xs ≡ slice i a xs ++ slice (i + a) b xs
  unfolding slice
  slice-add i a b xs = rw (← drop-drop i a xs) (take-add a b (drop i xs))

  drop-take : (j m : ℕ) (xs : List A) → drop j (take m xs) ≡ take (m - j) (drop j xs)
  drop-take zero m xs = rw sub-zero
  drop-take (suc j) zero xs = rw zero-sub
  drop-take (suc j) (suc m) [] = sym (take-nil (suc m - suc j))
  drop-take (suc j) (suc m) (x ∷ xs) = rw suc-sub-suc (drop-take j m xs)

  take-take : (n m : ℕ) (xs : List A) → n ≤ m → take n (take m xs) ≡ take n xs
  take-take zero m xs h = refl
  take-take (suc n) zero xs h = elim h [ ]
  take-take (suc n) (suc m) [] h = refl
  take-take (suc n) (suc m) (x ∷ xs) h = ap (◌∷◌ x) (take-take n m xs (omega arith))

  pub slice-slice :
      (i m j n : ℕ) (xs : List A) → j + n ≤ m → slice j n (slice i m xs) ≡ slice (i + j) n xs
  unfolding slice
  slice-slice i m j n xs h =
      ap (take n) (drop-take j m (drop i xs))
      ∙ take-take n (m - j) (drop j (drop i xs)) (omega arith)
      ∙ ap (take n) (drop-drop i j xs)

  -- A part that reaches past the end is cut there.
  pub slice_past_end : (i n : ℕ) (xs : List A) → slice i (min n (length xs - i)) xs ≡ slice i n xs
  unfolding slice
  slice_past_end i n xs = elim (dec_le n (length xs - i)) [
    | yes h ↦ ap (λ (k : ℕ). take k (drop i xs)) (omega arith)
    | no h ↦
        take_all _ (drop i xs) (omega (arith, length-drop i xs))
        ∙ sym (take_all n (drop i xs) (omega (arith, length-drop i xs)))
  ]

  drop_all : (i : ℕ) (xs : List A) → length xs ≤ i → drop i xs ≡ []
  drop_all zero [] h = refl
  drop_all zero (x ∷ xs) h = elim h [ ]
  drop_all (suc i) [] h = refl
  drop_all (suc i) (x ∷ xs) h = drop_all i xs (omega arith)

  pub slice_outside : (i n : ℕ) (xs : List A) → length xs ≤ i → slice i n xs ≡ []
  unfolding slice
  slice_outside i n xs h = ap (take n) (drop_all i xs h) ∙ take-nil n

  pub slice-min : (i n : ℕ) (xs : List A) → slice (min i (length xs)) n xs ≡ slice i n xs
  slice-min i n xs = elim (dec_le i (length xs)) [
    | yes h ↦ ap (λ (k : ℕ). slice k n xs) (omega arith)
    | no h ↦ slice_outside _ n xs (omega arith) ∙ sym (slice_outside i n xs (omega arith))
  ]

  pub split_at :
      (xs : List A) (i : ℕ) {c : A}
      → get_elem? xs i ≡ some c
      → xs ≡ take i xs ++ (c ∷ drop (suc i) xs)
  split_at [] i h = cc
  split_at (x ∷ xs) zero h = cc
  split_at (x ∷ xs) (suc i) h = ap (◌∷◌ x) (split_at xs i h)

  pub get_elem?-append_cons :
      (xs ys : List A) (c : A) → get_elem? (xs ++ (c ∷ ys)) (length xs) ≡ some c
  get_elem?-append_cons [] ys c = refl
  get_elem?-append_cons (x ∷ xs) ys c = get_elem?-append_cons xs ys c

  pub drop-append_cons : (xs ys : List A) (c : A) → drop (suc (length xs)) (xs ++ (c ∷ ys)) ≡ ys
  drop-append_cons [] ys c = refl
  drop-append_cons (x ∷ xs) ys c = drop-append_cons xs ys c
