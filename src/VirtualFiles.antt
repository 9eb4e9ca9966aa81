-- ===== src/VirtualFiles.antt =====
-- HelenRuntime/VirtualFileService.cpp: the files that a pack puts in the place of the game's. What
-- Windows answers within one call (a new event handle, whether a handle closes) is an argument.
pub mod Sources
pub mod Lookup
pub mod Served
pub mod Handles
use helen_gamehook.Common.Int.{ℤ, pos, negsuc, ◌+ℤ◌, ◌-ℤ◌, ltb_ℤ}
use helen_gamehook.Common.Maps.{find, contains, emplace, assign, erase}
use helen_gamehook.Common.Results.{Result, ok, err}
use helen_gamehook.Common.{
  ℕ, ◌+◌, ◌-◌, ◌^◌, Bool, true, false, not, ◌&&◌, ◌||◌, List, [], ◌∷◌, ltb, leb, ◌==◌,
  if◌then◌else◌, length, drop, get_elem?, Option, none, some, min,
}
use helen_gamehook.Common.Words.{Bytes, u32_mod}
use helen_gamehook.Files.{FileSystem}
use helen_gamehook.Hgdelta.{load}
use helen_gamehook.Manifest.Assets.{resolve}
use helen_gamehook.Manifest.{Registration}
use helen_gamehook.Paths.Keys.{text_key, nat_key}
use helen_gamehook.Paths.{
  Text, codes, text_eq, FilePath, path_empty, has_root_name, has_root_directory, lexically_normal,
  is_dot, dot_dot, elements, generic_text, lower_text, is_empty,
}
use helen_gamehook.Source.Delta.Open.{is_delta_kind, matches_declared_metadata}
use helen_gamehook.Source.{ReadOutcome, done, failed, spinning}
use Sources.{Source, source_size, source_read, create_source}

-- `NormalizeLookupPath`
unfoldable pub normalize_lookup_path : FilePath → Option Text
normalize_lookup_path path =
    if path_empty path
    then none
    else (let normal = lexically_normal path in
        if path_empty normal || is_dot normal
        then none
        else (let text = lower_text (generic_text normal) in
            if is_empty text then none else some text))

unfoldable pub has_dot_dot : List Text → Bool
has_dot_dot [] = false
has_dot_dot (n ∷ ns) = text_eq n dot_dot || has_dot_dot ns

-- `NormalizeDeclaredPath`
unfoldable pub normalize_declared_path : FilePath → Option Text
unfolding has_dot_dot
normalize_declared_path path =
    if path_empty path || (has_root_name path || has_root_directory path)
    then none
    else (let normal = lexically_normal path in
        if path_empty normal || is_dot normal
        then none
        else if has_dot_dot (elements normal)
        then none
        else (let text = lower_text (generic_text normal) in
            if is_empty text then none else some text))

unfoldable pub is_slash : Option ℕ → Bool
is_slash none = false
is_slash (some c) = c == b'/'

-- `MatchesDeclaredPath`
unfoldable pub matches_declared_path : Text → Text → Bool
unfolding is_slash
matches_declared_path lookup declared =
    if text_eq lookup declared
    then true
    else if leb (length lookup) (length declared)
    then false
    else (let suffix_offset = length lookup - length declared in
        if not (text_eq (drop suffix_offset lookup) declared)
        then false
        else is_slash (get_elem? lookup (suffix_offset - 1)))

pub record Registered : Type 0 where
  pub registration : Registration
  pub shared_source : Option Source

pub record VirtualHandle : Type 0 where
  pub source : Option Source
  pub read_position : ℕ

pub record Service : Type 0 where
  pub cache_directory : FilePath
  pub virtual_files : List (Text × Registered)
  pub open_handles : List (ℕ × VirtualHandle)

-- The constructor.
unfoldable pub new_service : FilePath → Service
new_service cache = record { cache_directory = cache; virtual_files = []; open_handles = [] }

abbrev is_ok : {E A : Type 0} → Result E A → Bool
is_ok (ok a) = true
is_ok (err e) = false

-- `ValidateDeltaSourceAsset`
unfoldable pub validate_delta_source_asset : FileSystem → Registration → Bool
validate_delta_source_asset fs r = elim (resolve fs r.asset_resolver r.definition.source.path) [
  | none ↦ false
  | some path ↦ elim (load fs path) [
    | err e ↦ false
    | ok d ↦ matches_declared_metadata d r.definition
  ]
]

abbrev no_path : FilePath
no_path = record { root_name = []; rooted = false; names = [] }

-- The source that a registration shares among its handles: none in the outer option where the
-- registration is refused, none in the inner one where each handle makes its own.
unfoldable pub registration_source : FileSystem → Service → Registration → Option (Option Source)
registration_source fs s r =
    if text_eq r.definition.mode (codes "replace-on-read")
    then elim (create_source fs s.cache_directory r no_path) [
      | none ↦ none
      | some source ↦ some (some source)
    ]
    else if not (text_eq r.definition.mode (codes "delta-on-read"))
        || not (is_delta_kind r.definition.source.kind)
    then none
    else if not (validate_delta_source_asset fs r)
    then none
    else some none

-- `RegisterVirtualFile`
unfoldable pub register_virtual_file : FileSystem → Service → Registration → Bool × Service
register_virtual_file fs s r = elim (normalize_declared_path r.definition.game_path) [
  | none ↦ (false, s)
  | some path ↦ elim (registration_source fs s r) [
    | none ↦ (false, s)
    | some shared ↦
        if contains path s.virtual_files
        then (false, s)
        else (let entry : Registered = record { registration = r; shared_source = shared } in
            (true, record s { virtual_files = emplace path entry s.virtual_files }))
  ]
]

unfoldable pub first_match : Text → List (Text × Registered) → Option Registered
first_match lookup [] = none
first_match lookup ((path, entry) ∷ m) =
    if matches_declared_path lookup path then some entry else first_match lookup m

-- `FindRegisteredVirtualFile`
unfoldable pub find_registered_virtual_file : Service → Text → Option Registered
unfolding first_match
find_registered_virtual_file s lookup = elim (find lookup s.virtual_files) [
  | some entry ↦ some entry
  | none ↦ first_match lookup s.virtual_files
]
