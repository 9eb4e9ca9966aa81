-- ===== src/Hgdelta.antt =====
-- HelenRuntime/HgdeltaFile.cpp: the `.hgdelta` container, read from a file and validated.
pub mod Table
pub mod Layout
pub mod Loaded
pub mod Sound
use Prim.Native.Char.{Char, code}
use helen_gamehook.Common.{
  ℕ, zero, suc, ◌+◌, ◌-◌, ◌*◌, ◌/◌, ◌%◌, ◌^◌, Bool, true, false, not, ◌&&◌, ◌||◌, List, [], ◌∷◌,
  ◌++◌, ltb, leb, ◌==◌, if◌then◌else◌, length, take, drop, slice, Option, none, some,
}
use helen_gamehook.Common.Results.{Result, ok, err, ◌>>=◌, ◌>>◌, reject, or_throw}
use helen_gamehook.Common.Words.{Bytes, u32_mod, u64_mod, wrap64, wrap_size, little_endian}
use helen_gamehook.Files.{FileSystem}
use helen_gamehook.Paths.{FilePath, path_empty}
use Table.{
  Error, Chunk, ChunkKind, chunk_kind, read_u32, read_u64, validate_chunk_entry, empty_path,
  not_regular_file, size_unreadable, file_too_large, not_opened, read_failed, no_header, bad_magic,
  bad_version, bad_flags, bad_chunk_size, table_in_header, payload_in_table, table_overflow,
  no_room_for_table, payload_past_end, wrong_total,
}

abbrev header_size : ℕ
header_size = 116

abbrev chunk_entry_size : ℕ
chunk_entry_size = 20

abbrev digest_byte_count : ℕ
digest_byte_count = 32

-- "HGDL"
abbrev pub magic : Bytes
magic = b'H' ∷ b'G' ∷ b'D' ∷ b'L' ∷ []

pub record HgdeltaFile : Type 0 where
  pub chunk_size : ℕ
  pub base_file_size : ℕ
  pub target_file_size : ℕ
  pub base_sha256 : Bytes
  pub target_sha256 : Bytes
  pub chunks : List Chunk
  pub payload_bytes : Bytes

-- The largest values of `size_t` and of the 64-bit `streamsize`.
abbrev max_size : ℕ
max_size = u32_mod - 1

abbrev max_stream_size : ℕ
max_stream_size = 2 ^ 63 - 1

-- `gcount` is what the stream held, at most what was asked for.
unfoldable pub read_all_bytes : FileSystem → FilePath → Result Error Bytes
read_all_bytes fs path = do
  size ← or_throw (fs.file_size path) size_unreadable
  reject (ltb max_size size) file_too_large
  reject (ltb max_stream_size size) file_too_large
  stream ← or_throw (fs.contents path) not_opened
  let bytes = take size stream
  reject (not (length bytes == size)) read_failed
  ok bytes

abbrev hex_digit : ℕ → ℕ
hex_digit n = if ltb n 10 then b'0' + n else b'a' + (n - 10)

unfoldable pub bytes_to_lower_hex : Bytes → Bytes
bytes_to_lower_hex [] = []
bytes_to_lower_hex (b ∷ bs) = hex_digit (b / 16 % 16) ∷ hex_digit (b % 16) ∷ bytes_to_lower_hex bs

unfoldable pub same_bytes : Bytes → Bytes → Bool
same_bytes [] [] = true
same_bytes (a ∷ as') (b ∷ bs) = (a == b) && same_bytes as' bs
same_bytes _ _ = false

-- The fields of the header that the chunk loop reads.
pub record Header : Type 0 where
  pub chunk_size : ℕ
  pub base_file_size : ℕ
  pub target_file_size : ℕ
  pub chunk_count : ℕ
  pub chunk_table_offset : ℕ
  pub payload_offset : ℕ

unfoldable pub read_header : Bytes → Result Error Header
read_header bytes = do
  reject (ltb (length bytes) header_size) no_header
  reject (not (same_bytes (take 4 bytes) magic)) bad_magic
  version ← read_u32 bytes 4
  reject (not (version == 1)) bad_version
  flags ← read_u32 bytes 8
  reject (not (flags == 0)) bad_flags
  chunk_size ← read_u32 bytes 12
  base_file_size ← read_u64 bytes 16
  target_file_size ← read_u64 bytes 24
  chunk_count ← read_u32 bytes 96
  chunk_table_offset ← read_u64 bytes 100
  payload_offset ← read_u64 bytes 108
  ok (record {
    chunk_size = chunk_size;
    base_file_size = base_file_size;
    target_file_size = target_file_size;
    chunk_count = chunk_count;
    chunk_table_offset = chunk_table_offset;
    payload_offset = payload_offset;
  })

-- The checks on the header that stand before the chunk loop.
unfoldable pub check_header : Bytes → Header → Result Error (Unit {0})
check_header bytes h = do
  reject (h.chunk_size == 0) bad_chunk_size
  reject (ltb h.chunk_table_offset header_size) table_in_header
  reject (ltb h.payload_offset h.chunk_table_offset) payload_in_table
  let table_size = wrap64 (h.chunk_count * chunk_entry_size)
  reject (not (h.chunk_count == 0) && not (table_size / chunk_entry_size == h.chunk_count))
      table_overflow
  reject
      (ltb h.payload_offset h.chunk_table_offset
        || ltb (h.payload_offset - h.chunk_table_offset) table_size)
      no_room_for_table
  reject (ltb (length bytes) h.payload_offset) payload_past_end

-- The numbers of one entry of the chunk table.
pub record Entry : Type 0 where
  pub kind : ℕ
  pub target_size : ℕ
  pub payload_offset : ℕ
  pub payload_size : ℕ

unfoldable pub read_entry : Bytes → ℕ → Result Error Entry
read_entry bytes entry_offset = do
  kind ← read_u32 bytes entry_offset
  target_chunk_size ← read_u32 bytes (wrap_size (entry_offset + 4))
  entry_payload_offset ← read_u64 bytes (wrap_size (entry_offset + 8))
  entry_payload_size ← read_u32 bytes (wrap_size (entry_offset + 16))
  ok (record {
    kind = kind;
    target_size = target_chunk_size;
    payload_offset = entry_payload_offset;
    payload_size = entry_payload_size;
  })

-- The rest of one turn of the chunk loop, at the size reconstructed so far.
unfoldable pub accept_entry : Header → Bytes → ℕ → ℕ → Entry → Result Error Chunk
accept_entry h payload index reconstructed e = do
  validate_chunk_entry e.kind h.chunk_size index h.chunk_count h.base_file_size h.target_file_size
      e.target_size e.payload_offset e.payload_size payload
  ok (record {
    kind = chunk_kind e.kind;
    target_offset = reconstructed;
    target_size = e.target_size;
    payload_offset = e.payload_offset;
    payload_size = e.payload_size;
  })

-- One turn of the chunk loop.
unfoldable pub load_chunk : Bytes → Header → Bytes → ℕ → ℕ → Result Error Chunk
load_chunk bytes h payload index reconstructed = do
  e ←
      read_entry bytes
        (wrap_size (wrap_size h.chunk_table_offset + wrap_size (index * chunk_entry_size)))
  accept_entry h payload index reconstructed e

-- The chunk loop from one index on, with the rounds left: the chunks, and their total size.
unfoldable pub load_chunks : Bytes → Header → Bytes → ℕ → ℕ → ℕ → Result Error (List Chunk × ℕ)
load_chunks bytes h payload zero index reconstructed = ok ([], reconstructed)
load_chunks bytes h payload (suc rounds) index reconstructed = do
  chunk ← load_chunk bytes h payload index reconstructed
  rest ← load_chunks bytes h payload rounds (index + 1) (wrap64 (reconstructed + chunk.target_size))
  ok (chunk ∷ rest.0, rest.1)

-- The model that is returned, from the header and the chunks.
unfoldable pub assemble : Bytes → Header → List Chunk → HgdeltaFile
assemble bytes h chunks = record {
  chunk_size = h.chunk_size;
  base_file_size = h.base_file_size;
  target_file_size = h.target_file_size;
  base_sha256 = bytes_to_lower_hex (slice 32 digest_byte_count bytes);
  target_sha256 = bytes_to_lower_hex (slice 64 digest_byte_count bytes);
  chunks = chunks;
  payload_bytes = drop h.payload_offset bytes;
}

-- `HgdeltaFile::Load` once the header is read.
unfoldable pub load_body : Bytes → Header → Result Error HgdeltaFile
unfolding assemble
load_body bytes h = do
  check_header bytes h
  loaded ← load_chunks bytes h (drop h.payload_offset bytes) h.chunk_count 0 0
  reject (not (loaded.1 == h.target_file_size)) wrong_total
  ok (assemble bytes h loaded.0)

-- `HgdeltaFile::Load` from the point where the bytes are in memory.
unfoldable pub load_bytes : Bytes → Result Error HgdeltaFile
load_bytes bytes = do h ← read_header bytes; load_body bytes h

-- `HgdeltaFile::Load`
unfoldable pub load : FileSystem → FilePath → Result Error HgdeltaFile
load fs path = do
  reject (path_empty path) empty_path
  reject (not (fs.is_regular_file path)) not_regular_file
  bytes ← read_all_bytes fs path
  load_bytes bytes
