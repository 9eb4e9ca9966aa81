-- ===== src/Source/Delta/Accepted.antt =====
-- HelenRuntime/DeltaVirtualFileSource.cpp: a source that the constructor accepts serves its target.
use helen_gamehook.Common.Results.{
  ok, bind-eq-ok, ok-injective, reject, or_throw, or_throw-eq-ok, rethrow, rethrow-eq-ok,
}
use helen_gamehook.Common.Words.{Bytes, u32_mod}
use helen_gamehook.Common.{◌≤◌, ◌<◌, ◌≡◌, sym, ap, ◌∙◌, subst, not, ◌||◌, length, arith, some}
use helen_gamehook.Files.Fingerprint.{FileFingerprint, from_path}
use helen_gamehook.Files.{FileSystem, YieldsBytes}
use helen_gamehook.Hgdelta.Layout.{IsWellFormed}
use helen_gamehook.Hgdelta.Loaded.{load-IsWellFormed}
use helen_gamehook.Hgdelta.{HgdeltaFile, load}
use helen_gamehook.Manifest.Assets.{Resolver, resolve}
use helen_gamehook.Manifest.{VirtualFileDefinition}
use helen_gamehook.Paths.{FilePath, path_empty, codes, text_eq}
use helen_gamehook.Source.Delta.Open.{
  DeltaSource, check_delta, open_delta, compute_identity_digest, is_delta_kind, no_cache_directory,
  no_base_path, not_a_delta, unresolved_asset, no_base_fingerprint, no_delta_fingerprint,
  bad_container, not_hashed,
}
use helen_gamehook.Source.Delta.Read.{IsBase}
use helen_gamehook.Source.Delta.{max_stream_offset}

-- A file system whose files hold still: `file_size` is the number of bytes that the stream yields,
-- and a stream can be positioned on each of them.
pub record IsSteady (fs : FileSystem) : Type 0 where
  pub yields : YieldsBytes fs
  pub sized :
      (p : FilePath) (bytes : Bytes)
      → fs.contents p ≡ some bytes
      → fs.file_size p ≡ some (length bytes)
  pub addressable :
      (p : FilePath) (bytes : Bytes) → fs.contents p ≡ some bytes → length bytes ≤ max_stream_offset

from_path-file_size :
    (fs : FileSystem) (path : FilePath) (bytes : Bytes) {f : FileFingerprint}
    → IsSteady fs
    → fs.contents path ≡ some bytes
    → from_path fs path ≡ ok f
    → f.file_size ≡ length bytes
unfolding from_path
from_path-file_size fs path bytes steady opened p =
    ground (arith, p, opened, steady.sized path bytes opened)

check_delta-base :
    (definition : VirtualFileDefinition) (f : FileFingerprint) (d : HgdeltaFile)
    → check_delta definition f d ≡ ok tt
    → d.base_file_size ≡ f.file_size
unfolding check_delta
check_delta-base definition f d p = ground (arith, p)

-- What a source that the constructor returns has been checked for.
pub record IsAccepted (base_path : FilePath) (base : Bytes) (s : DeltaSource) : Type 0 where
  pub reads_base : s.base_file_path ≡ base_path
  pub well_formed : IsWellFormed s.delta
  pub payload_fits : length s.delta.payload_bytes < u32_mod
  pub base_fits : IsBase s.delta base

-- What the constructor has found out on the way.
pub open_delta-ok :
    (fs : FileSystem) (r : Resolver) (cache base_path : FilePath)
    (definition : VirtualFileDefinition) {s : DeltaSource}
    → open_delta fs r cache base_path definition ≡ ok s
    → (s.base_file_path ≡ base_path)
      × (from_path fs base_path ≡ ok s.base_fingerprint)
      × (load fs s.delta_file_path ≡ ok s.delta)
      × (check_delta definition s.base_fingerprint s.delta ≡ ok tt)
      × (resolve fs r definition.source.path ≡ some s.delta_file_path)
unfolding open_delta
open_delta-ok fs r cache base_path definition p =
    let (_, _, p1) = bind-eq-ok (reject (path_empty cache) no_cache_directory) _ p in
    let (_, _, p2) = bind-eq-ok (reject (path_empty base_path) no_base_path) _ p1 in
    let (_, _, p3) =
      bind-eq-ok
        (reject
          (not (text_eq definition.mode (codes "delta-on-read"))
            || not (is_delta_kind definition.source.kind))
          not_a_delta)
        _ p2 in
    let (delta_path, resolved, p4) =
      bind-eq-ok (or_throw (resolve fs r definition.source.path) unresolved_asset) _ p3 in
    let (f, fingerprint, p5) =
      bind-eq-ok (rethrow (from_path fs base_path) no_base_fingerprint) _ p4 in
    let (g, _, p6) = bind-eq-ok (rethrow (from_path fs delta_path) no_delta_fingerprint) _ p5 in
    let (d, loaded, p7) = bind-eq-ok (rethrow (load fs delta_path) bad_container) _ p6 in
    let (_, checked, p8) = bind-eq-ok (check_delta definition f d) _ p7 in
    let (digest, _, p9) =
      bind-eq-ok (or_throw (compute_identity_digest fs r definition.id f g) not_hashed) _ p8 in
    let made = ok-injective p9 in
    (
      ap (λ (x : DeltaSource). x.base_file_path) (sym made),
      rethrow-eq-ok (from_path fs base_path) no_base_fingerprint fingerprint
          ∙ ap (λ (x : DeltaSource). ok x.base_fingerprint) made,
      subst (λ (x : DeltaSource). load fs x.delta_file_path ≡ ok x.delta) made
          (rethrow-eq-ok (load fs delta_path) bad_container loaded),
      subst (λ (x : DeltaSource). check_delta definition x.base_fingerprint x.delta ≡ ok tt) made
          checked,
      or_throw-eq-ok (resolve fs r definition.source.path) unresolved_asset resolved
          ∙ ap (λ (x : DeltaSource). some x.delta_file_path) made,
    )

-- On a file system that holds still, whatever the container and the manifest say, a source that the
-- constructor returns reads the base file that it was given, through a well-formed container that was
-- made for a base of that size.
pub open_delta-IsAccepted :
    (fs : FileSystem) (r : Resolver) (cache base_path : FilePath)
    (definition : VirtualFileDefinition) (base : Bytes) {s : DeltaSource}
    → IsSteady fs
    → fs.contents base_path ≡ some base
    → open_delta fs r cache base_path definition ≡ ok s
    → IsAccepted base_path base s
open_delta-IsAccepted fs r cache base_path definition base {s} steady opened p =
    let (path, fingerprint, loaded, checked, _) = open_delta-ok fs r cache base_path definition p in
    let (well_formed, fits) = load-IsWellFormed fs s.delta_file_path steady.yields loaded in
    let declared = check_delta-base definition s.base_fingerprint s.delta checked in
    let measured = from_path-file_size fs base_path base steady opened fingerprint in
    record {
      reads_base = path;
      well_formed = well_formed;
      payload_fits = fits;
      base_fits = record {
        exact = sym (declared ∙ measured);
        addressable = steady.addressable base_path base opened;
      };
    }
