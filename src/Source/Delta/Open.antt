-- ===== src/Source/Delta/Open.antt =====
-- HelenRuntime/DeltaVirtualFileSource.cpp: a delta source is made only for the base file, the
-- container and the manifest entry that agree with one another.
use helen_gamehook.Common.{Bool, true, false, not, ◌&&◌, ◌||◌, [], ◌∷◌, ◌++◌, ◌==◌, take, Option}
use helen_gamehook.Common.Results.{Result, ok, ◌>>=◌, ◌>>◌, reject, or_throw, rethrow}
use helen_gamehook.Files.Fingerprint.{FileFingerprint, from_path}
use helen_gamehook.Files.{FileSystem}
use helen_gamehook.Hgdelta.{HgdeltaFile, load}
use helen_gamehook.Manifest.Assets.{Resolver, resolve}
use helen_gamehook.Manifest.{
  HashDefinition, SourceKind, full_file, delta_file, VirtualFileDefinition,
}
use helen_gamehook.Paths.{
  Text, codes, FilePath, path_empty, text_eq, lower_text, generic_text, append_path,
}

pub record DeltaSource : Type 0 where
  pub base_file_path : FilePath
  pub delta_file_path : FilePath
  pub base_fingerprint : FileFingerprint
  pub delta_fingerprint : FileFingerprint
  pub delta : HgdeltaFile
  pub resolved_file_path : FilePath

pub data Error : Type 0 where
  no_cache_directory no_base_path not_a_delta unresolved_asset : Error
  no_base_fingerprint no_delta_fingerprint bad_container : Error
  base_differs metadata_differs base_not_of_delta not_hashed : Error

abbrev pub is_delta_kind : SourceKind → Bool
is_delta_kind full_file = false
is_delta_kind delta_file = true

-- `MatchesFingerprint`
unfoldable pub matches_fingerprint : FileFingerprint → HashDefinition → Bool
matches_fingerprint f expected =
    (f.file_size == expected.file_size) && text_eq f.sha256 (lower_text expected.sha256)

-- `MatchesTargetFingerprint`
unfoldable pub matches_target_fingerprint : FileFingerprint → HgdeltaFile → Bool
matches_target_fingerprint f d =
    (f.file_size == d.target_file_size) && text_eq f.sha256 d.target_sha256

-- The container against the manifest entry, `MatchesDeclaredDeltaMetadata` of VirtualFileService.cpp
-- and the same test in the constructor.
unfoldable pub matches_declared_metadata : HgdeltaFile → VirtualFileDefinition → Bool
matches_declared_metadata d definition =
    (d.chunk_size == definition.source.chunk_size)
    && ((d.base_file_size == definition.source.base.file_size)
        && ((d.target_file_size == definition.source.target.file_size)
            && (text_eq d.base_sha256 (lower_text definition.source.base.sha256)
                && text_eq d.target_sha256 (lower_text definition.source.target.sha256))))

unfoldable pub newline : Text
newline = b'\n' ∷ []

-- `ComputeIdentityDigest`
unfoldable pub compute_identity_digest :
    FileSystem → Resolver → Text → FileFingerprint → FileFingerprint → Option Text
unfolding newline
compute_identity_digest fs r id base delta = fs.sha256 (
    generic_text r.pack_root
    ++ (newline
        ++ (generic_text r.build_root
            ++ (newline ++ (id ++ (newline ++ (base.sha256 ++ (newline ++ delta.sha256))))))))

unfoldable pub file_name : Text → FilePath
file_name n = record { root_name = []; rooted = false; names = n ∷ [] }

-- `BuildResolvedFilePath`, from the digest.
unfoldable pub build_resolved_file_path : FilePath → Text → FilePath
unfolding file_name
build_resolved_file_path cache digest =
    append_path
      (append_path (append_path cache (file_name (codes "resolved"))) (file_name (take 2 digest)))
      (file_name (digest ++ codes ".bin"))

-- The checks of the constructor on what it has loaded.
unfoldable pub check_delta :
    VirtualFileDefinition → FileFingerprint → HgdeltaFile → Result Error (Unit {0})
check_delta definition base d = do
  reject (not (matches_fingerprint base definition.source.base)) base_differs
  reject (not (matches_declared_metadata d definition)) metadata_differs
  reject (not (d.base_file_size == base.file_size) || not (text_eq d.base_sha256 base.sha256))
      base_not_of_delta

-- The constructor of `DeltaVirtualFileSource`.
unfoldable pub open_delta :
    FileSystem → Resolver → FilePath → FilePath → VirtualFileDefinition → Result Error DeltaSource
open_delta fs r cache base_path definition = do
  reject (path_empty cache) no_cache_directory
  reject (path_empty base_path) no_base_path
  reject
      (not (text_eq definition.mode (codes "delta-on-read"))
        || not (is_delta_kind definition.source.kind))
      not_a_delta
  delta_path ← or_throw (resolve fs r definition.source.path) unresolved_asset
  base ← rethrow (from_path fs base_path) no_base_fingerprint
  container ← rethrow (from_path fs delta_path) no_delta_fingerprint
  d ← rethrow (load fs delta_path) bad_container
  check_delta definition base d
  digest ← or_throw (compute_identity_digest fs r definition.id base container) not_hashed
  ok (record {
    base_file_path = base_path;
    delta_file_path = delta_path;
    base_fingerprint = base;
    delta_fingerprint = container;
    delta = d;
    resolved_file_path = build_resolved_file_path cache digest;
  })
