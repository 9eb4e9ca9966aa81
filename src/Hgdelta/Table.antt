-- ===== src/Hgdelta/Table.antt =====
-- HelenRuntime/HgdeltaFile.cpp and the chunk types of include/HelenHook: the numbers of a container
-- and one entry of its chunk table.
pub mod Checked
use helen_gamehook.Common.{
  ℕ, ◌+◌, ◌-◌, ◌*◌, not, ◌&&◌, ◌||◌, ltb, ◌==◌, if◌then◌else◌, length, slice,
}
use helen_gamehook.Common.Results.{Result, ok, err, ◌>>=◌, ◌>>◌, reject}
use helen_gamehook.Common.Words.{Bytes, wrap64, little_endian}

-- One constructor for each exception that the loader throws.
pub data Error : Type 0 where
  empty_path not_regular_file size_unreadable file_too_large not_opened read_failed : Error
  no_header bad_magic bad_version bad_flags bad_chunk_size table_in_header : Error
  payload_in_table table_overflow no_room_for_table payload_past_end wrong_total : Error
  truncated unknown_kind empty_chunk outside_target wrong_size final_too_large : Error
  outside_base base_with_payload delta_without_payload partial_payload outside_payload : Error

-- An enumeration over a 32-bit word: a value that no enumerator names is possible.
pub data ChunkKind : Type 0 where
  base_copy delta_bytes : ChunkKind
  unnamed : ℕ → ChunkKind

pub record Chunk : Type 0 where
  pub kind : ChunkKind
  pub target_offset : ℕ
  pub target_size : ℕ
  pub payload_offset : ℕ
  pub payload_size : ℕ

-- `static_cast<HgdeltaChunkKind>`
abbrev pub chunk_kind : ℕ → ChunkKind
chunk_kind k = if k == 0 then base_copy else if k == 1 then delta_bytes else unnamed k

unfoldable pub read_u32 : Bytes → ℕ → Result Error ℕ
read_u32 bytes offset = do
  reject (ltb (length bytes) offset || ltb (length bytes - offset) 4) truncated
  ok (little_endian (slice offset 4 bytes))

unfoldable pub read_u64 : Bytes → ℕ → Result Error ℕ
read_u64 bytes offset = do
  reject (ltb (length bytes) offset || ltb (length bytes - offset) 8) truncated
  ok (little_endian (slice offset 8 bytes))

-- The checks on one chunk against the nominal size and its place among the chunks.
unfoldable pub check_place : ℕ → ℕ → ℕ → ℕ → Result Error (Unit {0})
check_place chunk_size index count size =
    if ltb (index + 1) count
    then reject (not (size == chunk_size)) wrong_size
    else reject (ltb chunk_size size) final_too_large

-- The checks on where one chunk takes its bytes.
unfoldable pub check_source : ℕ → ℕ → ℕ → ℕ → ℕ → ℕ → Result Error (Unit {0})
check_source kind base_size target_offset size payload_offset payload_size =
    if kind == 0
    then (do
      reject (ltb base_size target_offset || ltb (base_size - target_offset) size) outside_base
      reject (not (payload_offset == 0) || not (payload_size == 0)) base_with_payload)
    else if payload_size == 0
    then err delta_without_payload
    else reject (not (payload_size == size)) partial_payload

unfoldable pub validate_chunk_entry :
    ℕ → ℕ → ℕ → ℕ → ℕ → ℕ → ℕ → ℕ → ℕ → Bytes → Result Error (Unit {0})
validate_chunk_entry kind chunk_size index count base_size target_size size payload_offset
      payload_size payload =
    do
      reject (not (kind == 0) && not (kind == 1)) unknown_kind
      reject (size == 0) empty_chunk
      let target_offset = wrap64 (index * chunk_size)
      reject (ltb target_size target_offset || ltb (target_size - target_offset) size)
          outside_target
      check_place chunk_size index count size
      check_source kind base_size target_offset size payload_offset payload_size
      reject
          (ltb (length payload) payload_offset
            || ltb (length payload - payload_offset) payload_size)
          outside_payload
