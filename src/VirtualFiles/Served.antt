-- ===== src/VirtualFiles/Served.antt =====
-- HelenRuntime/VirtualFileService.cpp: a game file that the service replaces, from the registration and
-- the files on disk to the bytes that the game reads.
use helen_gamehook.Common.Results.{ok, Result-cases}
use helen_gamehook.Common.Words.{Bytes, u64_mod}
use helen_gamehook.Common.{
  ℕ, ◌<◌, ◌≡◌, ◌⊎◌, refl, sym, ap, ◌∙◌, subst, true, false, [], ◌∷◌, length, take, take-length,
  arith, some, none, List, Bool-cases, Option-cases, inl, inr,
}
use helen_gamehook.Files.{FileSystem}
use helen_gamehook.Hgdelta.{HgdeltaFile, load}
use helen_gamehook.Manifest.Assets.{resolve}
use helen_gamehook.Manifest.{Registration}
use helen_gamehook.Paths.{FilePath, Text, codes, text_eq}
use helen_gamehook.Source.Delta.Accepted.{IsSteady, open_delta-ok, open_delta-IsAccepted}
use helen_gamehook.Source.Delta.Open.{DeltaSource, open_delta}
use helen_gamehook.Source.Delta.Target.{target}
use helen_gamehook.VirtualFiles.Handles.Lifecycle.{open-reads}
use helen_gamehook.VirtualFiles.Handles.Reads.{
  Holds, full-Holds, delta-Holds, reads, delivered, sum, AreCounts,
}
use helen_gamehook.VirtualFiles.Handles.{open_virtual_file, handle_source, is_null_handle}
use helen_gamehook.VirtualFiles.Sources.{
  Source, full, delta, read_sized, load_replacement_bytes, create_source,
}
use helen_gamehook.VirtualFiles.{
  Service, Registered, normalize_lookup_path, find_registered_virtual_file,
}
use helen_gamehook.Common.Maps.{find}
use helen_gamehook.Paths.Keys.{nat_key}

-- The file that a source stands for, over the bytes of the installed file.
abbrev pub content_of : Bytes → Source → Bytes
content_of base (full bytes) = bytes
content_of base (delta s) = target s.delta base

load_replacement_bytes-lt :
    (fs : FileSystem) (r : Registration) (asset : FilePath) {bytes : Bytes}
    → load_replacement_bytes fs r asset ≡ some bytes
    → length bytes < u64_mod
unfolding load_replacement_bytes
load_replacement_bytes-lt fs r asset p = ground (arith, p)

create_source-cases :
    (fs : FileSystem) (cache : FilePath) (r : Registration) (path : FilePath) {source : Source}
    → create_source fs cache r path ≡ some source
    → ((bytes : Bytes) × (text_eq r.definition.mode (codes "replace-on-read") ≡ true)
        × (load_replacement_bytes fs r r.definition.source.path ≡ some bytes)
        × (source ≡ full bytes))
      ⊎ ((s : DeltaSource) × (text_eq r.definition.mode (codes "replace-on-read") ≡ false)
          × (open_delta fs r.asset_resolver cache path r.definition ≡ ok s)
          × (source ≡ delta s))
unfolding create_source
create_source-cases fs cache r path p =
    elim (Bool-cases (text_eq r.definition.mode (codes "replace-on-read"))) [
      | inl replaces ↦ elim (Option-cases (load_replacement_bytes fs r r.definition.source.path)) [
        | inl e ↦ ground (arith, p, replaces, e)
        | inr (bytes, e) ↦ inl (bytes, replaces, e, ground (arith, p, replaces, e))
      ]
      | inr not_replaces ↦
          elim (Result-cases (open_delta fs r.asset_resolver cache path r.definition)) [
            | inl (s, e) ↦ inr (s, not_replaces, e, ground (arith, p, not_replaces, e))
            | inr (x, e) ↦ ground (arith, p, not_replaces, e)
          ]
    ]

-- A source that `CreateSource` makes for an opened file holds its own content.
pub create_source-own_content :
    (fs : FileSystem) (cache : FilePath) (r : Registration) (path : FilePath) (base : Bytes)
    {source : Source}
    → IsSteady fs
    → fs.contents path ≡ some base
    → create_source fs cache r path ≡ some source
    → Holds fs source (content_of base source)
create_source-own_content fs cache r path base steady opened p =
    elim (create_source-cases fs cache r path p) [
      | inl (bytes, _, loaded, e) ↦
          subst (λ (s : Source). Holds fs s (content_of base s)) (sym e)
            (full-Holds fs bytes (load_replacement_bytes-lt fs r r.definition.source.path loaded))
      | inr (s, _, made, e) ↦
          let accepted =
            open_delta-IsAccepted fs r.asset_resolver cache path r.definition base steady opened
              made in
          subst (λ (x : Source). Holds fs x (content_of base x)) (sym e)
            (delta-Holds fs s base (ap fs.contents accepted.reads_base ∙ opened)
              accepted.well_formed accepted.base_fits accepted.payload_fits)
    ]

-- What the files on disk make of a registration for an opened game file with the bytes `base`: the
-- asset's bytes, all of them, or the target of the container in the asset over `base`.
abbrev pub IsContent : FileSystem → Registration → (base content : Bytes) → Type 0
IsContent fs r base content =
    (asset : FilePath) × (resolve fs r.asset_resolver r.definition.source.path ≡ some asset)
    × (((text_eq r.definition.mode (codes "replace-on-read") ≡ true)
          × (fs.contents asset ≡ some content))
        ⊎ ((text_eq r.definition.mode (codes "replace-on-read") ≡ false)
            × ((d : HgdeltaFile) × (load fs asset ≡ ok d) × (content ≡ target d base))))

read_sized-all : (stream : Bytes) → read_sized stream (length stream) ≡ some stream
unfolding read_sized
read_sized-all [] = refl
read_sized-all (b ∷ bs) = ground (arith, take-length (b ∷ bs))

-- What is loaded is the whole asset.
load_replacement_bytes-contents :
    (fs : FileSystem) (r : Registration) (path : FilePath) {bytes : Bytes}
    → IsSteady fs
    → load_replacement_bytes fs r path ≡ some bytes
    → (asset : FilePath) × (resolve fs r.asset_resolver path ≡ some asset)
      × (fs.contents asset ≡ some bytes)
unfolding load_replacement_bytes
load_replacement_bytes-contents fs r path steady p =
    elim (Option-cases (resolve fs r.asset_resolver path)) [
      | inl e ↦ ground (arith, p, e)
      | inr (asset, e) ↦ elim (Option-cases (fs.contents asset)) [
        | inl closed ↦ ground (arith, p, e, closed)
        | inr (stream, opened) ↦ (
          asset,
          e,
          ground (arith, p, e, opened, steady.sized asset stream opened, read_sized-all stream),
        )
      ]
    ]

-- On a file system that holds still, a source that `CreateSource` makes for an opened file holds what
-- the files on disk make of the registration: it has the size and delivers the bytes of the resolved
-- asset, all of them, in mode replace-on-read, and else of the target of the container that the
-- resolved asset holds, over the opened file.
pub create_source-Holds :
    (fs : FileSystem) (cache : FilePath) (r : Registration) (path : FilePath) (base : Bytes)
    {source : Source}
    → IsSteady fs
    → fs.contents path ≡ some base
    → create_source fs cache r path ≡ some source
    → (content : Bytes) × IsContent fs r base content × Holds fs source content
create_source-Holds fs cache r path base steady opened p =
    let held = create_source-own_content fs cache r path base steady opened p in
    elim (create_source-cases fs cache r path p) [
      | inl (bytes, replaces, loaded, e) ↦
          let (asset, resolved, whole) =
            load_replacement_bytes-contents fs r r.definition.source.path steady loaded in
          (
            bytes,
            (asset, resolved, inl (replaces, whole)),
            subst (λ (s : Source). Holds fs s bytes) (sym e)
                (full-Holds fs bytes
                  (load_replacement_bytes-lt fs r r.definition.source.path loaded)),
          )
      | inr (s, not_replaces, made, e) ↦
          let (_, _, loaded, _, resolved) =
            open_delta-ok fs r.asset_resolver cache path r.definition made in
          (
            target s.delta base,
            (s.delta_file_path, resolved, inr (not_replaces, (s.delta, loaded, refl))),
            subst (λ (x : Source). Holds fs x (target s.delta base)) (sym e)
                (subst (λ (x : Source). Holds fs x (content_of base x)) e held),
          )
    ]

-- A game file with a registration whose source is made on opening: once it is open, reads of any
-- counts below 2^32, one behind the other, deliver the beginning of the file that the source stands
-- for, as many bytes as were asked for or as there are. The files on disk hold still.
pub open-create_source-reads :
    (fs : FileSystem) (s : Service) (event : ℕ) (path : FilePath) (lookup : Text)
    (entry : Registered) (base : Bytes) (source : Source) (cs : List ℕ)
    → IsSteady fs
    → fs.contents path ≡ some base
    → normalize_lookup_path path ≡ some lookup
    → find_registered_virtual_file s lookup ≡ some entry
    → entry.shared_source ≡ none
    → create_source fs s.cache_directory entry.registration path ≡ some source
    → is_null_handle event ≡ false
    → find event s.open_handles ≡ none
    → AreCounts cs
    → let r = open_virtual_file fs s event path in
      (r.0 ≡ some event)
      × (delivered (reads fs r.1 event cs).0 ≡ take (sum cs) (content_of base source))
open-create_source-reads fs s event path lookup entry base source cs steady opened looked found
      shared made n f c =
    let own : handle_source fs s path entry ≡ some source =
      unfold handle_source in ground (arith, shared, made) in
    open-reads fs s event path lookup entry source (content_of base source) cs looked found own n f
      (create_source-own_content fs s.cache_directory entry.registration path base steady opened
        made)
      c
