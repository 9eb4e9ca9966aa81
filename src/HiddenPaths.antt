-- ===== src/HiddenPaths.antt =====
-- HelenRuntime/HiddenPathMatcher.cpp: the files of the game that the runtime hides.
use helen_gamehook.Common.{
  ℕ, ◌≡◌, refl, ap, ◌∙◌, Bool, true, false, ◌||◌, ◌==◌, List, [], ◌∷◌, ◌++◌, map, Option, none,
  some, if◌then◌else◌, arith, Bool-cases,
}
use helen_gamehook.Common.Results.{Result, ok, ◌>>=◌, ◌>>◌, reject, or_throw}
use helen_gamehook.Files.{FileSystem}
use helen_gamehook.Paths.Equality.{text_eq_iff}
use helen_gamehook.Paths.{
  Text, FilePath, path_empty, is_empty, to_lower, lexically_normal, append_path, generic_text,
  join_names,
}
use helen_gamehook.Routes.Relative.{lexically_relative, strip_common, depth, relative_names}
use helen_gamehook.Routes.{is_absolute, mem_text}

-- `std::replace` and `towlower` of `FoldPath`
unfoldable pub fold_character : ℕ → ℕ
unfolding to_lower
fold_character c = if c == b'\\' then b'/' else to_lower c

unfoldable pub without_slashes : Text → Text
without_slashes [] = []
without_slashes (c ∷ t) = let rest = without_slashes t in if c == b'/' then rest else c ∷ t

-- `FoldPath`
unfoldable pub fold_path : Text → Text
unfolding fold_character without_slashes
fold_path t = without_slashes (map fold_character t)

pub record HiddenPathMatcher : Type 0 where
  pub game_root : FilePath
  pub request_base_directory : FilePath
  pub hidden_paths : List Text

pub data Error : Type 0 where
  not_canonical empty_root : Error

-- The constructor; a root that cannot be made canonical throws.
unfoldable pub make_matcher :
    FileSystem
    → (game_root request_base_directory : FilePath) → (hidden_paths : List Text)
    → Result Error HiddenPathMatcher
unfolding fold_path
make_matcher fs game_root request_base_directory hidden_paths = do
  root ← or_throw (fs.weakly_canonical game_root) not_canonical
  base ← or_throw (fs.weakly_canonical request_base_directory) not_canonical
  reject (path_empty root || path_empty base) empty_root
  ok (record {
    game_root = root;
    request_base_directory = base;
    hidden_paths = map fold_path hidden_paths;
  })

-- the text of a relative path, empty for the empty path
abbrev relative_text : Option (List Text) → Text
relative_text none = []
relative_text (some names) = join_names names

-- `NormalizeToRelativeGamePath`
unfoldable pub normalize_to_relative_game_path : HiddenPathMatcher → FilePath → Text
unfolding fold_path lexically_normal lexically_relative generic_text join_names
normalize_to_relative_game_path m candidate =
    let normal = lexically_normal candidate in
    fold_path (
      if is_absolute normal
      then relative_text (lexically_relative normal m.game_root)
      else generic_text normal)

-- `ShouldHidePath`
unfoldable pub should_hide_path : HiddenPathMatcher → FilePath → Bool
unfolding normalize_to_relative_game_path mem_text append_path lexically_normal
should_hide_path m candidate =
    let resolved = lexically_normal (append_path m.request_base_directory candidate) in
    if mem_text (normalize_to_relative_game_path m candidate) m.hidden_paths
    then true
    else (if is_absolute candidate
        then false
        else mem_text (normalize_to_relative_game_path m resolved) m.hidden_paths)

strip_common-append : (xs ys : List Text) → strip_common (xs ++ ys) xs ≡ (ys, [])
unfolding strip_common
strip_common-append [] [] = refl
strip_common-append [] (y ∷ ys) = refl
strip_common-append (x ∷ xs) ys =
    ground (arith, (text_eq_iff x x).1 refl, strip_common-append xs ys)

lexically_relative-under :
    (p root : FilePath) (n : Text) (ns : List Text)
    → p.root_name ≡ root.root_name
    → p.rooted ≡ root.rooted
    → p.names ≡ root.names ++ n ∷ ns
    → is_empty n ≡ false
    → lexically_relative p root ≡ some (n ∷ ns)
unfolding lexically_relative relative_names depth
lexically_relative-under p root n ns same rooted names e = ground (
  arith,
  (text_eq_iff p.root_name root.root_name).1 same,
  rooted,
  ap (λ (xs : List Text). strip_common xs root.names) names
      ∙ strip_common-append root.names (n ∷ ns),
  e,
)

-- An absolute path that normalises to names behind those of the game's root is hidden exactly if
-- those names, joined by slashes and in lower case, are among the hidden paths.
pub should_hide_path-under :
    (m : HiddenPathMatcher) (candidate : FilePath) (n : Text) (ns : List Text)
    → is_absolute candidate ≡ true
    → (lexically_normal candidate).root_name ≡ m.game_root.root_name
    → is_absolute (lexically_normal candidate) ≡ true
    → m.game_root.rooted ≡ true
    → (lexically_normal candidate).names ≡ m.game_root.names ++ n ∷ ns
    → is_empty n ≡ false
    → should_hide_path m candidate ≡ mem_text (fold_path (join_names (n ∷ ns))) m.hidden_paths
unfolding should_hide_path normalize_to_relative_game_path
should_hide_path-under m candidate n ns absolute same normal rooted names e = ground (
  arith,
  absolute,
  normal,
  lexically_relative-under (lexically_normal candidate) m.game_root n ns same
      (ground (arith, normal, rooted)) names e,
  Bool-cases (mem_text (fold_path (join_names (n ∷ ns))) m.hidden_paths),
)
