-- ===== src/Routes/Relative.antt =====
-- `path::lexically_relative`, and `IsWithinRoot` of FileWriteRouteResolver.cpp.
use helen_gamehook.Common.{
  ℕ, zero, suc, Bool, true, false, not, ◌&&◌, ◌||◌, List, [], ◌∷◌, Option, none, some,
  if◌then◌else◌,
}
use helen_gamehook.Common.Int.{ℤ, pos, negsuc, ◌+ℤ◌}
use helen_gamehook.Paths.{Text, text_eq, FilePath, is_empty, dot, dot_dot}

-- What is left of two lists behind the elements that they have in common.
unfoldable pub strip_common : List Text → List Text → List Text × List Text
unfolding text_eq
strip_common [] bs = ([], bs)
strip_common (a ∷ as') [] = (a ∷ as', [])
strip_common (a ∷ as') (b ∷ bs) =
    let rest = strip_common as' bs in if text_eq a b then rest else (a ∷ as', b ∷ bs)

-- How many levels names go down: one for a name, one up for `..`.
unfoldable pub depth : List Text → ℤ
unfolding text_eq ◌+ℤ◌
depth [] = pos 0
depth (n ∷ ns) =
    if text_eq n dot_dot
    then depth ns +ℤ negsuc 0
    else (if is_empty n || text_eq n dot then depth ns else depth ns +ℤ pos 1)

abbrev up_levels : ℕ → List Text → List Text
up_levels zero ns = ns
up_levels (suc k) ns = dot_dot ∷ up_levels k ns

abbrev starts_empty : List Text → Bool
starts_empty [] = true
starts_empty (n ∷ ns) = is_empty n

-- the names of the relative path behind two paths with the same root
unfoldable pub relative_names : ℤ → List Text → Option (List Text)
relative_names (negsuc k) ns = none
relative_names (pos zero) ns = some (if starts_empty ns then dot ∷ [] else ns)
relative_names (pos (suc k)) ns = some (up_levels (suc k) ns)

-- `lexically_relative`: none for the empty path
unfoldable pub lexically_relative : FilePath → FilePath → Option (List Text)
unfolding text_eq strip_common depth relative_names
lexically_relative p base =
    let rest = strip_common p.names base.names in
    if text_eq p.root_name base.root_name
      && ((p.rooted && base.rooted) || (not p.rooted && not base.rooted))
    then relative_names (depth rest.1) rest.0
    else none

abbrev is_dot_dot_first : List Text → Bool
is_dot_dot_first [] = true
is_dot_dot_first (n ∷ ns) = text_eq n dot_dot

-- `IsWithinRoot`
unfoldable pub is_within_root : FilePath → FilePath → Bool
unfolding lexically_relative text_eq
is_within_root candidate root = elim (lexically_relative candidate root) [
  | none ↦ false
  | some names ↦ not (is_dot_dot_first names)
]
