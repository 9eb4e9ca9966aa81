-- ===== src/VirtualFiles/Sources.antt =====
-- HelenRuntime/VirtualFileService.cpp: the sources behind the handles, and how they are made.
use helen_gamehook.Common.Results.{ok, err}
use helen_gamehook.Common.{
  ℕ, Bool, not, ◌||◌, if◌then◌else◌, length, take, ltb, ◌==◌, ◌^◌, ◌-◌, Option, none, some, [],
}
use helen_gamehook.Common.Words.{Bytes}
use helen_gamehook.Files.{FileSystem}
use helen_gamehook.Manifest.Assets.{resolve}
use helen_gamehook.Manifest.{Registration}
use helen_gamehook.Paths.{codes, text_eq, FilePath}
use helen_gamehook.Source.Delta.Open.{DeltaSource, is_delta_kind, open_delta}
use helen_gamehook.Source.Delta.{delta_size, delta_read}
use helen_gamehook.Source.{ReadOutcome, full_size, full_read, max_size}

pub data Source : Type 0 where
  full : Bytes → Source
  delta : DeltaSource → Source

-- `VirtualFileSource::GetSize`
unfoldable pub source_size : Source → ℕ
source_size (full bytes) = full_size bytes
source_size (delta s) = delta_size s.delta

-- `VirtualFileSource::Read`; a delta opens its base file for each read.
unfoldable pub source_read : FileSystem → Source → ℕ → Bool → ℕ → ReadOutcome
source_read fs (full bytes) offset has_buffer count = full_read bytes offset has_buffer count
source_read fs (delta s) offset has_buffer count =
    delta_read s.delta (fs.contents s.base_file_path) offset has_buffer count

abbrev max_stream_size : ℕ
max_stream_size = 2 ^ 63 - 1

unfoldable pub read_sized : Bytes → ℕ → Option Bytes
read_sized stream size =
    let bytes = take size stream in
    if size == 0 then some [] else if not (length bytes == size) then none else some bytes

-- `LoadReplacementBytes`
unfoldable pub load_replacement_bytes : FileSystem → Registration → FilePath → Option Bytes
unfolding read_sized
load_replacement_bytes fs r asset_path = elim (resolve fs r.asset_resolver asset_path) [
  | none ↦ none
  | some path ↦ elim (fs.file_size path) [
    | none ↦ none
    | some size ↦
        if ltb max_size size || ltb max_stream_size size
        then none
        else elim (fs.contents path) [ none ↦ none | some stream ↦ read_sized stream size ]
  ]
]

-- `CreateSource`
unfoldable pub create_source : FileSystem → FilePath → Registration → FilePath → Option Source
create_source fs cache r opened_path =
    if text_eq r.definition.mode (codes "replace-on-read")
    then (if is_delta_kind r.definition.source.kind
        then none
        else elim (load_replacement_bytes fs r r.definition.source.path) [
          | none ↦ none
          | some bytes ↦ some (full bytes)
        ])
    else if not (text_eq r.definition.mode (codes "delta-on-read"))
        || not (is_delta_kind r.definition.source.kind)
    then none
    else elim (open_delta fs r.asset_resolver cache opened_path r.definition) [
      | err e ↦ none
      | ok s ↦ some (delta s)
    ]
