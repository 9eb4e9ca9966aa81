-- ===== src/Paths.antt =====
-- `std::filesystem::path` as the runtime uses it, on Windows: a path by its parts. The last name is
-- empty where the text ends in a separator. A text is a sequence of code units: of bytes for a
-- `std::string`, of UTF-16 units for a `std::wstring`.
pub mod Equality
pub mod Keys
use helen_gamehook.Common.{
  ℕ, ◌+◌, Bool, true, false, not, ◌&&◌, ◌||◌, List, [], ◌∷◌, ◌++◌, ltb, leb, ◌==◌, if◌then◌else◌,
  map,
}
use mathlib.Core.List.{reverse}
use Prim.Native.String.{String}
use Prim.Native.Char.{code}

abbrev pub Text : Type 0
Text = List ℕ

-- The code points of a literal of the source, which is ASCII.
abbrev pub codes : String → Text
codes String.[] = []
codes (String.◌∷◌ c s) = code c ∷ codes s

unfoldable pub text_eq : Text → Text → Bool
text_eq [] [] = true
text_eq (a ∷ as') (b ∷ bs) = (a == b) && text_eq as' bs
text_eq _ _ = false

-- `operator<` of strings, by code units.
unfoldable pub text_lt : Text → Text → Bool
text_lt [] [] = false
text_lt [] (b ∷ bs) = true
text_lt (a ∷ as') [] = false
text_lt (a ∷ as') (b ∷ bs) = ltb a b || (a == b) && text_lt as' bs

abbrev pub is_empty {ℓ} : {A : Type ℓ} → List A → Bool
is_empty [] = true
is_empty (x ∷ xs) = false

pub record FilePath : Type 0 where
  pub root_name : Text
  pub rooted : Bool
  pub names : List Text

-- `path::empty`
abbrev pub path_empty : FilePath → Bool
path_empty p = is_empty p.root_name && (not p.rooted && is_empty p.names)

abbrev pub has_root_name : FilePath → Bool
has_root_name p = not (is_empty p.root_name)

abbrev pub has_root_directory : FilePath → Bool
has_root_directory p = p.rooted

abbrev pub dot : Text
dot = b'.' ∷ []

abbrev pub dot_dot : Text
dot_dot = b'.' ∷ b'.' ∷ []

abbrev separator : ℕ
separator = b'/'

-- The names that are left of a path that is being normalised, last first, and whether a separator
-- now ends it.
pub record Normal : Type 0 where
  pub names : List Text
  pub trailing : Bool

-- `..` takes the name before it away, unless that is `..` too; under a root directory it goes
-- nowhere.
unfoldable pub up : Bool → List Text → Normal
up rooted [] =
    if rooted
    then record { names = []; trailing = true }
    else record { names = dot_dot ∷ []; trailing = false }
up rooted (n ∷ ns) =
    if text_eq n dot_dot
    then record { names = dot_dot ∷ n ∷ ns; trailing = false }
    else record { names = ns; trailing = true }

unfoldable pub normal_step : Bool → Normal → Text → Normal
unfolding up
normal_step rooted s n =
    if is_empty n || text_eq n dot
    then record s { trailing = true }
    else if text_eq n dot_dot
    then up rooted s.names
    else record { names = n ∷ s.names; trailing = false }

unfoldable pub normal_names : Bool → Normal → List Text → Normal
normal_names rooted s [] = s
normal_names rooted s (n ∷ ns) = normal_names rooted (normal_step rooted s n) ns

-- A separator at the end stays behind a name, but not behind `..`.
unfoldable pub with_separator : List Text → Bool → List Text
with_separator [] trailing = []
with_separator (n ∷ ns) trailing =
    reverse (if trailing && not (text_eq n dot_dot) then [] ∷ n ∷ ns else n ∷ ns)

-- `path::lexically_normal`
unfoldable pub lexically_normal : FilePath → FilePath
unfolding normal_names normal_step with_separator text_eq
lexically_normal p =
    if path_empty p
    then p
    else (let s = normal_names p.rooted (record { names = []; trailing = false }) p.names in
        let q : FilePath = record p { names = with_separator s.names s.trailing } in
        if path_empty q then record q { names = dot ∷ [] } else q)

-- `path == "."`
unfoldable pub is_dot : FilePath → Bool
is_dot p = is_empty p.root_name && (not p.rooted && only_dot p.names)
  where
    only_dot : List Text → Bool
    only_dot (n ∷ []) = text_eq n dot
    only_dot _ = false

unfoldable pub join_names : List Text → Text
join_names [] = []
join_names (n ∷ []) = n
join_names (n ∷ m ∷ ns) = n ++ separator ∷ join_names (m ∷ ns)

-- `path::generic_wstring`
unfoldable pub generic_text : FilePath → Text
unfolding join_names
generic_text p = p.root_name ++ ((if p.rooted then separator ∷ [] else []) ++ join_names p.names)

-- `towlower` in the "C" locale, which the process keeps.
unfoldable pub to_lower : ℕ → ℕ
to_lower c = if leb b'A' c && leb c b'Z' then c + 32 else c

unfoldable pub lower_text : Text → Text
unfolding to_lower
lower_text t = map to_lower t

-- The elements that an iteration over a path visits.
unfoldable pub elements : FilePath → List Text
elements p =
    (if is_empty p.root_name then [] else p.root_name ∷ [])
    ++ ((if p.rooted then (separator ∷ []) ∷ [] else []) ++ p.names)

-- `a / b`: a rooted `b` or one with another root name replaces `a`.
unfoldable pub append_path : FilePath → FilePath → FilePath
append_path a b =
    if has_root_name b && not (text_eq b.root_name a.root_name) || has_root_name b && b.rooted
    then b
    else if b.rooted
    then record { root_name = a.root_name; rooted = true; names = b.names }
    else record a { names = without_separator a.names ++ b.names }
  where
    without_separator : List Text → List Text
    without_separator [] = []
    without_separator (n ∷ []) = if is_empty n then [] else n ∷ []
    without_separator (n ∷ m ∷ ns) = n ∷ without_separator (m ∷ ns)
