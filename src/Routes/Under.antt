-- ===== src/Routes/Under.antt =====
-- FileWriteRouteResolver.cpp: what `IsWithinRoot` says of normalised paths.
use mathlib.Core.List.{reverse, reverse-cons}
use helen_gamehook.Common.Int.{pos, ◌+ℤ◌}
use helen_gamehook.Common.{
  ℕ, suc, ◌≡◌, refl, ap, sym, subst, ◌⊎◌, inl, inr, Bool, true, false, not, ◌&&◌, ◌||◌, List, [],
  ◌∷◌, ◌++◌, if◌then◌else◌, arith, Bool-cases,
}
use helen_gamehook.Paths.Equality.{text_eq_iff}
use helen_gamehook.Paths.{
  Text, text_eq, FilePath, is_empty, dot, dot_dot, Normal, up, normal_step, normal_names,
  with_separator, lexically_normal,
}
use helen_gamehook.Routes.Relative.{
  strip_common, depth, relative_names, lexically_relative, is_within_root,
}

-- No name is `.` or `..`.
abbrev pub AreNames : List Text → Type 0
AreNames [] = Unit {0}
AreNames (n ∷ ns) = (text_eq n dot || text_eq n dot_dot ≡ false) × AreNames ns

abbrev pub AreEmpty : List Text → Type 0
AreEmpty [] = Unit {0}
AreEmpty (n ∷ ns) = (is_empty n ≡ true) × AreEmpty ns

AreNames-append : (xs ys : List Text) → AreNames xs → AreNames ys → AreNames (xs ++ ys)
AreNames-append [] ys h k = k
AreNames-append (x ∷ xs) ys h k = (h.0, AreNames-append xs ys h.1 k)

AreNames-up :
    (rooted : Bool) (ns : List Text) → rooted ≡ true → AreNames ns → AreNames (up rooted ns).names
unfolding up
AreNames-up rooted [] r h = ground (arith, r)
AreNames-up rooted (n ∷ ns) r h = ground (arith, h)

AreNames-normal_step :
    (rooted : Bool) (s : Normal) (n : Text)
    → rooted ≡ true
    → AreNames s.names
    → AreNames (normal_step rooted s n).names
unfolding normal_step
AreNames-normal_step rooted s n r h = ground (arith, h, AreNames-up rooted s.names r)

AreNames-normal_names :
    (rooted : Bool) (s : Normal) (ns : List Text)
    → rooted ≡ true
    → AreNames s.names
    → AreNames (normal_names rooted s ns).names
unfolding normal_names
AreNames-normal_names rooted s [] r h = h
AreNames-normal_names rooted s (n ∷ ns) r h =
    AreNames-normal_names rooted (normal_step rooted s n) ns r (AreNames-normal_step rooted s n r h)

-- Names with no `..` that lead no level down are separators.
depth_cases :
    (ns : List Text)
    → AreNames ns
    → ((depth ns ≡ pos 0) × AreEmpty ns) ⊎ ((k : ℕ) × (depth ns ≡ pos (suc k)))
unfolding depth ◌+ℤ◌
depth_cases [] h = inl (refl, tt)
depth_cases (n ∷ ns) h = elim (depth_cases ns h.1) [
  | inr (k, e) ↦ elim (Bool-cases (is_empty n)) [
    | inl f ↦ inr (k, ground (arith, h, e, f))
    | inr f ↦ inr (suc k, ground (arith, h, e, f))
  ]
  | inl (e, es) ↦ elim (Bool-cases (is_empty n)) [
    | inl f ↦ inl (ground (arith, h, e, f), (f, es))
    | inr f ↦ inr (0, ground (arith, h, e, f))
  ]
]

ap2_cons :
    {a b : Text} {as' bs : List Text} → a ≡ b → as' ≡ bs → ◌≡◌ {A = List Text} (a ∷ as') (b ∷ bs)
ap2_cons h k = cc

strip_common_lem :
    (as' bs : List Text)
    → (common : List Text) × (as' ≡ common ++ (strip_common as' bs).0)
      × (bs ≡ common ++ (strip_common as' bs).1)
unfolding strip_common
strip_common_lem [] bs = ([], refl, refl)
strip_common_lem (a ∷ as') [] = ([], refl, refl)
strip_common_lem (a ∷ as') (b ∷ bs) = elim (Bool-cases (text_eq a b)) [
  | inr e ↦ rw e ([], refl, refl)
  | inl e ↦
      let (common, p, q) = strip_common_lem as' bs in
      let same : b ≡ a = sym ((text_eq_iff a b).0 e) in
      rw e (a ∷ common, ap (◌∷◌ a) p, ap2_cons same q)
]

AreNames-reverse : (ns : List Text) → AreNames ns → AreNames (reverse ns)
AreNames-reverse [] h = tt
AreNames-reverse (n ∷ ns) h =
    rw (reverse-cons n ns)
      (AreNames-append (reverse ns) (n ∷ []) (AreNames-reverse ns h.1) (h.0, tt))

AreNames-with_separator :
    (ns : List Text) (trailing : Bool) → AreNames ns → AreNames (with_separator ns trailing)
unfolding with_separator text_eq
AreNames-with_separator [] trailing h = tt
AreNames-with_separator (n ∷ ns) trailing h =
    AreNames-reverse (if trailing && not (text_eq n dot_dot) then [] ∷ n ∷ ns else n ∷ ns)
      (ground (arith, h))

lexically_normal-rooted :
    (p : FilePath)
    → p.rooted ≡ true
    → (lexically_normal p).names ≡ (
        let s = normal_names p.rooted (record { names = []; trailing = false }) p.names in
        with_separator s.names s.trailing)
unfolding lexically_normal
lexically_normal-rooted p r = ground (arith, r)

AreNames-behind : (xs ys : List Text) → AreNames (xs ++ ys) → AreNames ys
AreNames-behind [] ys h = h
AreNames-behind (x ∷ xs) ys h = AreNames-behind xs ys h.1

-- A normalised path with a root directory goes nowhere up.
pub AreNames-lexically_normal :
    (p : FilePath) → p.rooted ≡ true → AreNames (lexically_normal p).names
AreNames-lexically_normal p r =
    let s = normal_names p.rooted (record { names = []; trailing = false }) p.names in
    rw (lexically_normal-rooted p r) (
      AreNames-with_separator s.names s.trailing
        (AreNames-normal_names p.rooted (record { names = []; trailing = false }) p.names r tt))

-- The path lies under the directory: it has the same root, and its names are those of the
-- directory, but for a separator at the end, and names behind them that are not `..`.
pub record IsUnder (root path : FilePath) : Type 0 where
  pub common : List Text
  pub separators : List Text
  pub below : List Text
  pub same_root : (path.root_name ≡ root.root_name) × (path.rooted ≡ root.rooted)
  pub root_names : root.names ≡ common ++ separators
  pub are_separators : AreEmpty separators
  pub path_names : path.names ≡ common ++ below

-- no level up, and the same root
is_within_root-depth :
    (path root : FilePath)
    → is_within_root path root ≡ true
    → AreNames (strip_common path.names root.names).1
    → ((path.root_name ≡ root.root_name) × (path.rooted ≡ root.rooted))
      × AreEmpty (strip_common path.names root.names).1
unfolding is_within_root lexically_relative relative_names text_eq
is_within_root-depth path root e h = ground (
  arith,
  e,
  depth_cases (strip_common path.names root.names).1 h,
  text_eq_iff path.root_name root.root_name,
)

pub is_within_root-IsUnder :
    (path root : FilePath)
    → AreNames root.names
    → is_within_root path root ≡ true
    → IsUnder root path
is_within_root-IsUnder path root h e =
    let (common, p, q) = strip_common_lem path.names root.names in
    let rest = strip_common path.names root.names in
    let (same, up) =
      is_within_root-depth path root e (AreNames-behind common rest.1 (subst AreNames q h)) in
    record {
      common = common;
      separators = rest.1;
      below = rest.0;
      same_root = same;
      root_names = q;
      are_separators = up;
      path_names = p;
    }
