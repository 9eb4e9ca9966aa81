-- ===== src/Hgdelta/Layout.antt =====
-- What a container promises to the code that reads through it: its chunks tile the target file in
-- steps of the nominal size, and each takes its bytes from inside the base file or the payload.
use helen_gamehook.Common.{ℕ, ◌+◌, ◌*◌, ◌≤◌, ◌<◌, ◌≡◌, List, [], ◌∷◌, length}
use helen_gamehook.Common.Words.{u32_mod, u64_mod}
use helen_gamehook.Hgdelta.Table.{Chunk, ChunkKind, base_copy, delta_bytes, unnamed}
use helen_gamehook.Hgdelta.{HgdeltaFile}

-- The sizes that a chunk is held against.
pub record Shape : Type 0 where
  pub chunk_size : ℕ
  pub chunk_count : ℕ
  pub base_size : ℕ
  pub target_size : ℕ
  pub payload_length : ℕ

abbrev pub HasSource : Shape → Chunk → ChunkKind → Type 0
HasSource s c base_copy =
    (c.target_offset + c.target_size ≤ s.base_size) × (c.payload_offset ≡ 0) × (c.payload_size ≡ 0)
HasSource s c delta_bytes =
    (c.payload_size ≡ c.target_size) × (c.payload_offset + c.payload_size ≤ s.payload_length)
HasSource s c (unnamed k) = ⊥

-- The chunk at one index of the table.
pub record IsChunk (s : Shape) (index : ℕ) (c : Chunk) : Type 0 where
  pub placed : c.target_offset ≡ index * s.chunk_size
  pub not_empty : 0 < c.target_size
  pub within_nominal : c.target_size ≤ s.chunk_size
  pub full : index + 1 < s.chunk_count → c.target_size ≡ s.chunk_size
  pub within_target : c.target_offset + c.target_size ≤ s.target_size
  pub sourced : HasSource s c c.kind

abbrev pub AreChunks : Shape → ℕ → List Chunk → Type 0
AreChunks s index [] = Unit {0}
AreChunks s index (c ∷ cs) = IsChunk s index c × AreChunks s (index + 1) cs

abbrev pub total_size : List Chunk → ℕ
total_size [] = 0
total_size (c ∷ cs) = c.target_size + total_size cs

abbrev pub shape_of : HgdeltaFile → Shape
shape_of d = record {
  chunk_size = d.chunk_size;
  chunk_count = length d.chunks;
  base_size = d.base_file_size;
  target_size = d.target_file_size;
  payload_length = length d.payload_bytes;
}

pub record IsWellFormed (d : HgdeltaFile) : Type 0 where
  pub steps : 0 < d.chunk_size
  pub chunked : AreChunks (shape_of d) 0 d.chunks
  pub complete : total_size d.chunks ≡ d.target_file_size
  pub size_width : d.chunk_size < u32_mod
  pub count_width : length d.chunks < u32_mod
  pub target_width : d.target_file_size < u64_mod
