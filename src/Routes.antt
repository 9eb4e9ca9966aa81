-- ===== src/Routes.antt =====
-- HelenRuntime/FileWriteRouteResolver.cpp: the files whose writes a pack may route, under the game's
-- or the user's documents directory.
pub mod Transaction
pub mod Relative
pub mod Under
pub mod Resolved
use helen_gamehook.Common.Results.{Result, ok, err, ◌>>=◌, ◌>>◌, reject}
use helen_gamehook.Common.{
  ℕ, ◌+◌, Bool, true, false, not, ◌&&◌, ◌||◌, ◌==◌, List, [], ◌∷◌, ◌++◌, if◌then◌else◌,
}
use helen_gamehook.Files.{FileSystem}
use helen_gamehook.Paths.{
  Text, codes, text_eq, FilePath, path_empty, is_empty, has_root_name, dot, dot_dot,
  lexically_normal, append_path, generic_text, lower_text,
}
use helen_gamehook.Routes.Relative.{is_within_root}

pub data WritePolicy : Type 0 where
  deny redirect : WritePolicy

pub data ReadPolicy : Type 0 where
  original redirected : ReadPolicy

-- `FileWriteRouteDefinition`
pub record RouteDefinition : Type 0 where
  pub id : Text
  pub root : Text
  pub path : FilePath
  pub write_policy : WritePolicy
  pub read_policy : ReadPolicy

-- `FileWriteRoute`
pub record Route : Type 0 where
  pub id : Text
  pub original_path : FilePath
  pub write_policy : WritePolicy
  pub read_policy : ReadPolicy

-- What `failure_reason` tells apart; a failure leaves no routes.
pub data Failure : Type 0 where
  unsupported_root game_root_missing documents_root_missing : Failure
  bad_identifier_or_path escapes_root same_target : Failure

abbrev pub is_absolute : FilePath → Bool
is_absolute p = has_root_name p && p.rooted

-- `path::has_filename`: the last name is there and is not empty.
abbrev pub has_filename : List Text → Bool
has_filename [] = false
has_filename (n ∷ []) = not (is_empty n)
has_filename (n ∷ m ∷ ns) = has_filename (m ∷ ns)

-- The loop of `IsSafeRelativePath` over the components.
unfoldable pub are_plain : List Text → Bool
unfolding text_eq
are_plain [] = true
are_plain (n ∷ ns) = not (is_empty n || text_eq n dot || text_eq n dot_dot) && are_plain ns

unfoldable pub has_colon : Text → Bool
has_colon [] = false
has_colon (c ∷ t) = c == b':' || has_colon t

-- `IsSafeRelativePath`
unfoldable pub is_safe_relative_path : FilePath → Bool
unfolding are_plain has_colon generic_text
is_safe_relative_path p =
    if path_empty p || is_absolute p || has_root_name p || p.rooted || not (has_filename p.names)
    then false
    else are_plain p.names && not (has_colon (generic_text p))

-- `set::insert(…).second` is the negation.
unfoldable pub mem_text : Text → List Text → Bool
unfolding text_eq
mem_text t [] = false
mem_text t (x ∷ xs) = text_eq x t || mem_text t xs

abbrev pub game : Text
game = codes "game"

abbrev pub documents : Text
documents = codes "documents"

-- The first loop of `TryResolve`: every root is known.
unfoldable pub roots_are_supported : List RouteDefinition → Bool
unfolding text_eq
roots_are_supported [] = true
roots_are_supported (d ∷ ds) =
    (text_eq d.root game || text_eq d.root documents) && roots_are_supported ds

unfoldable pub requires_root : Text → List RouteDefinition → Bool
unfolding text_eq
requires_root name [] = false
requires_root name (d ∷ ds) = text_eq d.root name || requires_root name ds

-- A root that is required is an absolute directory.
unfoldable pub is_missing : FileSystem → FilePath → Bool
is_missing fs root = path_empty root || not (is_absolute root) || not (fs.is_directory root)

unfoldable pub selected_root : (game_root documents_root : FilePath) → Text → FilePath
unfolding text_eq
selected_root game_root documents_root name =
    if text_eq name game
    then game_root
    else (if text_eq name documents
        then documents_root
        else record { root_name = []; rooted = false; names = [] })

abbrev pub route_of : RouteDefinition → FilePath → Route
route_of d path = record {
  id = d.id;
  original_path = path;
  write_policy = d.write_policy;
  read_policy = d.read_policy;
}

module _ (game_root documents_root : FilePath) where
  -- The second loop of `TryResolve`, with the folded identifiers and targets seen so far.
  unfoldable pub resolve_routes :
      List RouteDefinition → (route_ids route_targets : List Text) → Result Failure (List Route)
  unfolding lower_text is_safe_relative_path mem_text selected_root append_path lexically_normal
      is_within_root generic_text
  resolve_routes [] route_ids route_targets = ok []
  resolve_routes (d ∷ ds) route_ids route_targets =
      let folded_id = lower_text d.id in
      let root = selected_root game_root documents_root d.root in
      let original_path = lexically_normal (append_path root d.path) in
      let target = lower_text (generic_text original_path) in
      let rest = resolve_routes ds (folded_id ∷ route_ids) (target ∷ route_targets) in
      reject (is_empty d.id || mem_text folded_id route_ids || not (is_safe_relative_path d.path))
        Failure.bad_identifier_or_path
      >> (reject (path_empty root) Failure.unsupported_root
          >> (reject (not (is_within_root original_path root)) Failure.escapes_root
              >> (reject (mem_text target route_targets) Failure.same_target
                  >> (rest >>= λ routes. ok (route_of d original_path ∷ routes)))))

-- `TryResolve`, of the resolver that holds the two roots
unfoldable pub try_resolve :
    FileSystem
    → (game_root documents_root : FilePath) → List RouteDefinition
    → Result Failure (List Route)
unfolding resolve_routes lexically_normal roots_are_supported requires_root is_missing
try_resolve fs game_root documents_root definitions =
    let normalized_game_root = lexically_normal game_root in
    let normalized_documents_root = lexically_normal documents_root in
    reject (not (roots_are_supported definitions)) Failure.unsupported_root
    >> (reject (requires_root game definitions && is_missing fs normalized_game_root)
          Failure.game_root_missing
        >> (reject (requires_root documents definitions && is_missing fs normalized_documents_root)
              Failure.documents_root_missing
            >> resolve_routes normalized_game_root normalized_documents_root definitions [] []))
