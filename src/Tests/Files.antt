-- ===== src/Tests/Files.antt =====
-- The virtual files on the disk of Tests/Disk.antt.
use helen_gamehook.Common.Int.{negsuc}
use helen_gamehook.Common.Maps.{find, emplace, insert}
use helen_gamehook.Common.Results.{ok, err}
use helen_gamehook.Common.Words.{Bytes, u32_mod}
use helen_gamehook.Common.{
  ◌<◌, ◌≡◌, ◌↔◌, refl, true, false, [], ◌∷◌, length, slice, take, none, some, arith,
}
use helen_gamehook.Files.Fingerprint.{from_path}
use helen_gamehook.Hgdelta.Layout.{IsWellFormed}
use helen_gamehook.Hgdelta.Loaded.{load-IsWellFormed}
use helen_gamehook.Hgdelta.Table.{
  read_u32, read_u64, check_place, check_source, validate_chunk_entry,
}
use helen_gamehook.Hgdelta.{
  read_all_bytes, bytes_to_lower_hex, same_bytes, read_header, check_header, read_entry,
  accept_entry, load_chunk, load_chunks, assemble, load_body, load_bytes, load,
}
use helen_gamehook.Manifest.{full_file, Registration}
use helen_gamehook.Manifest.Assets.{
  starts_with, is_within_root, try_resolve_candidate_path, keep_inside, resolve,
}
use helen_gamehook.Paths.Keys.{text_key, nat_key}
use helen_gamehook.Paths.{
  codes, text_eq, lexically_normal, generic_text, to_lower, lower_text, elements, append_path,
  is_dot, join_names,
}
use helen_gamehook.Source.Delta.Accepted.{IsAccepted, open_delta-IsAccepted}
use helen_gamehook.Source.Delta.Open.{
  matches_fingerprint, matches_declared_metadata, compute_identity_digest, build_resolved_file_path,
  check_delta, open_delta,
}
use helen_gamehook.Source.Delta.Target.{target, concatenation, chunk_bytes}
use helen_gamehook.Tests.Disk.{
  base, container, contents, file_size, disk, disk-IsSteady, pack, declared, registration, cache,
  game_path, loaded, opened, relative,
}
use helen_gamehook.VirtualFiles.Handles.{
  open_virtual_file, handle_source, is_virtual_handle, lookup_handle, invalid_handle, close, seek,
  seek_base,
}
use helen_gamehook.VirtualFiles.Handles.Lifecycle.{
  registers, opens, closes, step, run, IsSoundAt, open-reads, step-names_handle,
  run-new_service-IsSoundAt, close-is_virtual_handle,
}
use helen_gamehook.VirtualFiles.Handles.Seeks.{SeeksTo, after_seek, seek-SeeksTo}
use helen_gamehook.VirtualFiles.Lookup.{
  EndsIn, Answers, matches_declared_path_iff, find_registered_virtual_file-Answers,
}
use helen_gamehook.Source.Delta.Read.{IsBase, delta_read-full_read, delta_read-target}
use helen_gamehook.Source.Delta.{delta_read, delta_size}
use helen_gamehook.Source.{done, full_read, full_size}
use helen_gamehook.VirtualFiles.Handles.Reads.{Holds, at, full-Holds, reads, reads-slice, delivered}
use helen_gamehook.VirtualFiles.Served.{
  content_of, IsContent, create_source-own_content, create_source-Holds, open-create_source-reads,
}
use helen_gamehook.VirtualFiles.Sources.{
  full, delta, read_sized, load_replacement_bytes, create_source,
}
use helen_gamehook.VirtualFiles.{
  Service, Registered, new_service, register_virtual_file, registration_source,
  validate_delta_source_asset, find_registered_virtual_file, first_match, normalize_lookup_path,
  normalize_declared_path, has_dot_dot, matches_declared_path,
}

load_ok : load disk (relative (codes "pack" ∷ codes "d.hgdelta" ∷ [])) ≡ ok loaded
unfolding load read_all_bytes file_size contents text_eq load_bytes read_header same_bytes read_u32
    read_u64 load_body check_header load_chunks load_chunk read_entry accept_entry
    validate_chunk_entry check_place check_source assemble bytes_to_lower_hex slice
load_ok = refl

abbrev entry : Registered
entry = record { registration = registration; shared_source = none }

abbrev service : Service
service = record {
  cache_directory = cache;
  virtual_files = (codes "a.bin", entry) ∷ [];
  open_handles = [];
}

registered : register_virtual_file disk (new_service cache) registration ≡ (true, service)
unfolding register_virtual_file new_service registration_source validate_delta_source_asset
    normalize_declared_path has_dot_dot find emplace insert resolve is_within_root starts_with
    keep_inside try_resolve_candidate_path matches_declared_metadata text_eq lexically_normal
    elements append_path is_dot generic_text lower_text to_lower load read_all_bytes file_size
    contents load_bytes read_header same_bytes read_u32 read_u64 load_body check_header load_chunks
    load_chunk read_entry accept_entry validate_chunk_entry check_place check_source assemble
    bytes_to_lower_hex slice
registered = refl

created : create_source disk cache registration game_path ≡ some (delta opened)
unfolding create_source open_delta resolve is_within_root starts_with keep_inside
    try_resolve_candidate_path matches_declared_metadata text_eq lexically_normal elements
    append_path is_dot generic_text lower_text to_lower from_path contents file_size check_delta
    matches_fingerprint compute_identity_digest build_resolved_file_path
created = rw load_ok refl

looked_up : normalize_lookup_path game_path ≡ some (codes "game/a.bin")
unfolding normalize_lookup_path text_eq lexically_normal elements is_dot generic_text lower_text
    to_lower join_names
looked_up = refl

found : find_registered_virtual_file service (codes "game/a.bin") ≡ some entry
unfolding find_registered_virtual_file first_match find matches_declared_path text_eq
found = refl

open-create_source-reads_example :
    ((open_virtual_file disk service 4 game_path).0 ≡ some 4)
    × (delivered (reads disk (open_virtual_file disk service 4 game_path).1 4 (3 ∷ 5 ∷ [])).0
        ≡ take 8 (content_of base (delta opened)))
open-create_source-reads_example =
    open-create_source-reads disk service 4 game_path (codes "game/a.bin") entry base (delta opened)
      (3 ∷ 5 ∷ []) disk-IsSteady (unfold contents text_eq in refl) looked_up found refl created refl
      (unfold find in refl) (omega arith, (omega arith, tt))

delivers_six : take 8 (content_of base (delta opened)) ≡ 1 ∷ 2 ∷ 3 ∷ 4 ∷ 9 ∷ 8 ∷ []
unfolding concatenation chunk_bytes slice
delivers_six = refl

-- What the container promises.
load-IsWellFormed_example : IsWellFormed loaded × (length loaded.payload_bytes < u32_mod)
load-IsWellFormed_example =
    load-IsWellFormed disk (relative (codes "pack" ∷ codes "d.hgdelta" ∷ [])) disk-IsSteady.yields
      load_ok

pub loaded-IsBase : IsBase loaded base
loaded-IsBase = record { exact = refl; addressable = omega arith }

pub loaded-IsWellFormed : IsWellFormed loaded
loaded-IsWellFormed =
    (load-IsWellFormed disk (relative (codes "pack" ∷ codes "d.hgdelta" ∷ [])) disk-IsSteady.yields
      load_ok).0

delta_read-full_read_example :
    (delta_read loaded (some base) 3 true 10 ≡ full_read (target loaded base) 3 true 10)
    × (delta_size loaded ≡ full_size (target loaded base))
delta_read-full_read_example =
    delta_read-full_read loaded base loaded-IsWellFormed loaded-IsBase (omega arith) 3 10 true
      (omega arith)

delta_read-target_example :
    delta_read loaded (some base) 3 true 10 ≡ done (slice 3 10 (target loaded base))
delta_read-target_example =
    delta_read-target loaded base loaded-IsWellFormed loaded-IsBase (omega arith) 3 10 (omega arith)

accepted : open_delta disk pack cache game_path declared ≡ ok opened
unfolding open_delta resolve is_within_root starts_with keep_inside try_resolve_candidate_path
    matches_declared_metadata text_eq lexically_normal elements append_path is_dot generic_text
    lower_text to_lower from_path contents file_size check_delta matches_fingerprint
    compute_identity_digest build_resolved_file_path
accepted = rw load_ok refl

open_delta-IsAccepted_example : IsAccepted game_path base opened
open_delta-IsAccepted_example =
    open_delta-IsAccepted disk pack cache game_path declared base disk-IsSteady
      (unfold contents text_eq in refl) accepted

create_source-Holds_example :
    (content : Bytes) × IsContent disk registration base content × Holds disk (delta opened) content
create_source-Holds_example =
    create_source-Holds disk cache registration game_path base disk-IsSteady
      (unfold contents text_eq in refl) created

-- The other mode: the whole of the asset is loaded.
abbrev replacing : Registration
replacing = record registration {
  definition = record declared {
    mode = codes "replace-on-read";
    source = record declared.source { kind = full_file };
  };
}

replaced : create_source disk cache replacing game_path ≡ some (full container)
unfolding create_source load_replacement_bytes read_sized resolve is_within_root starts_with
    keep_inside try_resolve_candidate_path text_eq lexically_normal elements append_path is_dot
    contents file_size
replaced = refl

-- One handle on a replacement.
abbrev reading : Service
reading = record {
  cache_directory = cache;
  virtual_files = [];
  open_handles = (4, record { source = some (full base); read_position = 1 }) ∷ [];
}

base-Holds : Holds disk (full base) base
base-Holds = full-Holds disk base (omega arith)

reads-slice_example :
    (delivered (reads disk reading 4 (2 ∷ 1 ∷ [])).0 ≡ slice 1 3 base)
    × (find 4 (reads disk reading 4 (2 ∷ 1 ∷ [])).1.open_handles ≡ some (at (full base) 4))
reads-slice_example =
    reads-slice disk (full base) base base-Holds (2 ∷ 1 ∷ []) reading 4 1 refl (unfold find in refl)
      (omega arith) (omega arith, (omega arith, tt))

open-reads_example :
    ((open_virtual_file disk service 4 game_path).0 ≡ some 4)
    × (delivered (reads disk (open_virtual_file disk service 4 game_path).1 4 (6 ∷ [])).0
        ≡ take 6 (content_of base (delta opened)))
open-reads_example =
    open-reads disk service 4 game_path (codes "game/a.bin") entry (delta opened)
      (content_of base (delta opened)) (6 ∷ []) looked_up found (unfold handle_source in created)
      refl (unfold find in refl)
      (create_source-own_content disk cache registration game_path base disk-IsSteady
        (unfold contents text_eq in refl) created)
      (omega arith, tt)

step-names_handle_example :
    find 4 (step disk reading (closes 8 true)).open_handles ≡ find 4 reading.open_handles
step-names_handle_example = step-names_handle disk reading (closes 8 true) 4 refl

run-new_service-IsSoundAt_example : IsSoundAt 4 (
    find 4
      (run disk (new_service cache) (registers registration ∷ opens 4 game_path ∷ [])).open_handles)
run-new_service-IsSoundAt_example =
    run-new_service-IsSoundAt disk cache (registers registration ∷ opens 4 game_path ∷ []) 4

is_open : is_virtual_handle reading 4 ≡ true
unfolding is_virtual_handle find
is_open = refl

close-is_virtual_handle_example :
    (is_virtual_handle (close reading 4 false).1 4 ≡ false)
    × (lookup_handle (close reading 4 false).1 4 ≡ err invalid_handle)
close-is_virtual_handle_example = close-is_virtual_handle reading 4 false is_open

seek-SeeksTo_example :
    let r = seek reading 4 (negsuc 1) 1 in
    SeeksTo 1 (negsuc 1) r.0 × (r.1 ≡ after_seek reading 4 (at (full base) 1) r.0)
seek-SeeksTo_example =
    seek-SeeksTo reading 4 (negsuc 1) 1 (at (full base) 1) 1 refl (unfold find in refl)
      (unfold seek_base in refl) (omega arith) (omega arith)

matches_declared_path_iff_example :
    (matches_declared_path (codes "game/a.bin") (codes "a.bin") ≡ true)
    ↔ EndsIn (codes "game/a.bin") (codes "a.bin")
matches_declared_path_iff_example = matches_declared_path_iff (codes "game/a.bin") (codes "a.bin")

find_registered_virtual_file-Answers_example :
    Answers
      (codes "game/a.bin")
      service.virtual_files
      (find_registered_virtual_file service (codes "game/a.bin"))
find_registered_virtual_file-Answers_example =
    find_registered_virtual_file-Answers service (codes "game/a.bin")
