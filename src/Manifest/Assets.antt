-- ===== src/Manifest/Assets.antt =====
-- HelenRuntime/PackAssetResolver.cpp: paths to a pack's assets, held inside the pack's directory.
pub mod Contained
use helen_gamehook.Common.{
  Bool, true, false, not, ◌&&◌, ◌||◌, List, [], ◌∷◌, Option, none, some, if◌then◌else◌,
}
use helen_gamehook.Common.Results.{Result, ok, err, ◌>>=◌, ◌>>◌, reject, or_throw}
use helen_gamehook.Files.{FileSystem}
use helen_gamehook.Paths.{
  Text, text_eq, FilePath, path_empty, has_root_name, has_root_directory, lexically_normal, is_dot,
  elements, append_path,
}

pub data Error : Type 0 where
  empty_root missing_root not_directory build_outside_pack : Error

pub record Resolver : Type 0 where
  pub pack_root : FilePath
  pub build_root : FilePath

unfoldable pub starts_with : List Text → List Text → Bool
starts_with candidate [] = true
starts_with [] (r ∷ root) = false
starts_with (c ∷ candidate) (r ∷ root) = text_eq c r && starts_with candidate root

-- `IsWithinRoot`: the elements of the root are the first elements of the candidate.
unfoldable pub is_within_root : FilePath → FilePath → Bool
is_within_root candidate root = starts_with (elements candidate) (elements root)

unfoldable pub normalize_existing_directory : FileSystem → FilePath → Result Error FilePath
normalize_existing_directory fs path = do
  reject (path_empty path) empty_root
  reject (not (fs.exists path)) missing_root
  reject (not (fs.is_directory path)) not_directory
  normal ← or_throw (fs.weakly_canonical path) not_directory
  reject (path_empty normal) not_directory
  ok normal

-- The constructor.
unfoldable pub make_resolver : FileSystem → FilePath → FilePath → Result Error Resolver
make_resolver fs pack_root build_root = do
  pack ← normalize_existing_directory fs pack_root
  build ← normalize_existing_directory fs build_root
  reject (not (is_within_root build pack)) build_outside_pack
  ok (record { pack_root = pack; build_root = build })

unfoldable pub try_resolve_candidate_path : FileSystem → FilePath → FilePath → Option FilePath
try_resolve_candidate_path fs build_root relative =
    elim (fs.weakly_canonical (append_path build_root relative)) [
      | none ↦ none
      | some resolved ↦ if path_empty resolved then none else some resolved
    ]

-- The end of `Resolve`: a path that left the pack is dropped.
unfoldable pub keep_inside : Resolver → Option FilePath → Option FilePath
keep_inside r none = none
keep_inside r (some resolved) = if is_within_root resolved r.pack_root then some resolved else none

unfoldable pub resolve : FileSystem → Resolver → FilePath → Option FilePath
unfolding keep_inside try_resolve_candidate_path
resolve fs r relative =
    if path_empty relative || (has_root_name relative || has_root_directory relative)
    then none
    else (let normal = lexically_normal relative in
        if path_empty normal || is_dot normal
        then none
        else keep_inside r (try_resolve_candidate_path fs r.build_root normal))
