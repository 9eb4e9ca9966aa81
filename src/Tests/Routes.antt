-- ===== src/Tests/Routes.antt =====
-- Two routes under a game directory that is written with a separator at its end.
use helen_gamehook.Common.Results.{ok, err}
use helen_gamehook.Common.{◌≡◌, refl, true, false, List, [], ◌∷◌, map}
use helen_gamehook.Common.Int.{◌+ℤ◌}
use helen_gamehook.Files.{FileSystem}
use helen_gamehook.Paths.{
  Text, codes, text_eq, FilePath, lexically_normal, normal_names, normal_step, with_separator, up,
  append_path, generic_text, join_names, lower_text, to_lower,
}
use helen_gamehook.Routes.Relative.{
  is_within_root, lexically_relative, strip_common, depth, relative_names,
}
use helen_gamehook.Routes.Resolved.{
  AreRoutesOf, AreDistinct, folded_id, target_key, try_resolve-AreRoutesOf,
}
use helen_gamehook.Routes.{
  RouteDefinition, Route, Failure, WritePolicy, ReadPolicy, mem_text, roots_are_supported,
  requires_root, is_missing, selected_root, are_plain, has_colon, is_safe_relative_path,
  resolve_routes, try_resolve,
}
use helen_gamehook.Tests.Disk.{disk}

abbrev under_c : List Text → FilePath
under_c names = record { root_name = codes "C:"; rooted = true; names = names }

abbrev relative : List Text → FilePath
relative names = record { root_name = []; rooted = false; names = names }

abbrev files : FileSystem
files = record disk { is_directory = λ p. true }

abbrev declare : Text → Text → List Text → RouteDefinition
declare id root names = record {
  id = id;
  root = root;
  path = relative names;
  write_policy = WritePolicy.redirect;
  read_policy = ReadPolicy.redirected;
}

abbrev declared : List RouteDefinition
declared =
    declare (codes "Config") (codes "game") (codes "Cfg" ∷ codes "a.ini" ∷ [])
    ∷ declare (codes "save") (codes "documents") (codes "s.dat" ∷ [])
    ∷ []

abbrev route : Text → List Text → Route
route id names = record {
  id = id;
  original_path = under_c names;
  write_policy = WritePolicy.redirect;
  read_policy = ReadPolicy.redirected;
}

abbrev routes : List Route
routes =
    route (codes "Config") (codes "G" ∷ codes "Cfg" ∷ codes "a.ini" ∷ [])
    ∷ route (codes "save") (codes "D" ∷ codes "s.dat" ∷ [])
    ∷ []

abbrev game_root : FilePath
game_root = under_c (codes "G" ∷ [] ∷ [])

abbrev documents_root : FilePath
documents_root = under_c (codes "x" ∷ codes ".." ∷ codes "D" ∷ [])

resolved : try_resolve files game_root documents_root declared ≡ ok routes
unfolding try_resolve resolve_routes roots_are_supported requires_root is_missing selected_root
    is_safe_relative_path are_plain has_colon mem_text is_within_root lexically_relative
    strip_common depth relative_names ◌+ℤ◌ lexically_normal normal_names normal_step with_separator
    up append_path generic_text join_names lower_text to_lower text_eq
resolved = refl

try_resolve-AreRoutesOf_example :
    AreRoutesOf (lexically_normal game_root) (lexically_normal documents_root) declared routes
    × AreDistinct (map folded_id routes)
    × AreDistinct (map target_key routes)
try_resolve-AreRoutesOf_example =
    try_resolve-AreRoutesOf files game_root documents_root declared resolved

-- Two names of one file, up to case.
same_file :
    try_resolve files game_root documents_root (
      declare (codes "a") (codes "game") (codes "x" ∷ [])
      ∷ declare (codes "b") (codes "game") (codes "X" ∷ [])
      ∷ [])
    ≡ err Failure.same_target
unfolding try_resolve resolve_routes roots_are_supported requires_root is_missing selected_root
    is_safe_relative_path are_plain has_colon mem_text is_within_root lexically_relative
    strip_common depth relative_names ◌+ℤ◌ lexically_normal normal_names normal_step with_separator
    up append_path generic_text join_names lower_text to_lower text_eq
same_file = refl
