-- ===== src/Source/Delta.antt =====
-- HelenRuntime/DeltaVirtualFileSource.cpp: reads through a delta, from the base file and the payload.
pub mod Blocks
pub mod Written
pub mod Accepted
pub mod Open
pub mod Target
pub mod Materialize
pub mod Mapped
pub mod Locate
pub mod Read
use helen_gamehook.Common.{
  ℕ, zero, suc, ◌+◌, ◌-◌, ◌*◌, ◌/◌, ◌^◌, Bool, true, false, not, ◌||◌, List, [], ◌∷◌, ◌++◌, ltb,
  leb, ◌==◌, if◌then◌else◌, length, slice, min, get_elem?, Option, none, some,
}
use helen_gamehook.Common.Words.{Bytes, wrap64, wrap_size}
use helen_gamehook.Hgdelta.{HgdeltaFile}
use helen_gamehook.Hgdelta.Table.{Chunk, ChunkKind, base_copy, delta_bytes, unnamed}
use helen_gamehook.Source.{ReadOutcome, done, failed, spinning, max_size}

-- The largest value of the signed 64-bit `streamoff`.
abbrev pub max_stream_offset : ℕ
max_stream_offset = 2 ^ 63 - 1

-- The stream of the base file holds the bytes `base`. A read past the end comes back short.
unfoldable pub read_base_bytes : Bytes → ℕ → ℕ → Option Bytes
read_base_bytes base offset count =
    if count == 0
    then some []
    else if ltb max_stream_offset offset
    then none
    else (let bytes = slice offset count base in
        if not (length bytes == count) then none else some bytes)

-- Where one turn of the read loop copies from: the chunk, the offset in it, the bytes to copy.
pub record Place : Type 0 where
  pub chunk : Chunk
  pub relative : ℕ
  pub copy_size : ℕ

unfoldable pub place_in : Chunk → ℕ → ℕ → Option Place
place_in chunk offset remaining =
    if ltb offset chunk.target_offset
      || leb (wrap64 (chunk.target_offset + chunk.target_size)) offset
    then none
    else (let relative = offset - chunk.target_offset in
        let available = wrap_size (chunk.target_size - relative) in
        some (record { chunk = chunk; relative = relative; copy_size = min remaining available }))

unfoldable pub locate : HgdeltaFile → ℕ → ℕ → Option Place
unfolding place_in
locate d offset remaining =
    let index = offset / d.chunk_size in
    if ltb max_size index || leb (length d.chunks) index
    then none
    else elim (get_elem? d.chunks index) [
      | none ↦ none
      | some chunk ↦ place_in chunk offset remaining
    ]

unfoldable pub fetch_payload : Bytes → ℕ → ℕ → Option Bytes
fetch_payload payload offset count =
    if ltb max_size offset || ltb (length payload) (wrap64 (offset + count))
    then none
    else some (slice offset count payload)

unfoldable pub fetch_kind : HgdeltaFile → Bytes → Place → ChunkKind → Option Bytes
fetch_kind d base p base_copy =
    read_base_bytes base (wrap64 (p.chunk.target_offset + p.relative)) p.copy_size
fetch_kind d base p delta_bytes =
    fetch_payload d.payload_bytes (wrap64 (p.chunk.payload_offset + p.relative)) p.copy_size
fetch_kind d base p (unnamed k) = none

-- The bytes that one turn copies, none where the function returns false.
unfoldable pub fetch : HgdeltaFile → Bytes → Place → Option Bytes
unfolding read_base_bytes fetch_payload fetch_kind
fetch d base p = fetch_kind d base p p.chunk.kind

-- The read loop. Each turn copies at least one byte, so that `remaining` turns are enough.
unfoldable pub read_loop : ℕ → HgdeltaFile → Bytes → ℕ → ℕ → Bytes → ReadOutcome
read_loop zero d base offset remaining copied = if remaining == 0 then done copied else spinning
read_loop (suc fuel) d base offset remaining copied =
    let turn : ReadOutcome = elim (locate d offset remaining) [
      | none ↦ failed copied
      | some p ↦ elim (fetch d base p) [
        | none ↦ failed copied
        | some bytes ↦
            read_loop fuel d base (wrap64 (offset + p.copy_size)) (remaining - p.copy_size)
              (copied ++ bytes)
      ]
    ] in
    if remaining == 0 then done copied else turn

-- `DeltaVirtualFileSource::GetSize`
unfoldable pub delta_size : HgdeltaFile → ℕ
delta_size d = d.target_file_size

-- `DeltaVirtualFileSource::Read`; the stream on the base file opens, or does not.
unfoldable pub delta_read : HgdeltaFile → Option Bytes → ℕ → Bool → ℕ → ReadOutcome
unfolding delta_size
delta_read d base_stream offset has_buffer bytes_to_read =
    if bytes_to_read == 0
    then done []
    else if not has_buffer
    then failed []
    else if leb (delta_size d) offset
    then done []
    else elim base_stream [
      | none ↦ failed []
      | some base ↦
          let remaining = wrap_size (min (delta_size d - offset) bytes_to_read) in
          read_loop remaining d base offset remaining []
    ]
