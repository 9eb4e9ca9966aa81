-- ===== src/Source/Delta/Target.antt =====
-- What a delta stands for: the target file, each chunk's bytes in turn, and the parts of it.
use helen_gamehook.Common.{
  ℕ, zero, suc, ◌+◌, ◌*◌, ◌≤◌, ◌≡◌, refl, ap, ◌∙◌, List, [], ◌∷◌, ◌++◌, length, slice, get_elem?,
  some, arith, length-append, length-slice, get_elem?-lt_length,
}
use helen_gamehook.Common.Lists.Slices.{slice-append_left, slice-append_right}
use helen_gamehook.Common.Words.{Bytes}
use helen_gamehook.Hgdelta.{HgdeltaFile}
use helen_gamehook.Hgdelta.Table.{Chunk, ChunkKind, base_copy, delta_bytes, unnamed}
use helen_gamehook.Hgdelta.Layout.{Shape, HasSource, IsChunk, AreChunks, total_size}

abbrev pub source_bytes : Bytes → Bytes → Chunk → ChunkKind → Bytes
source_bytes payload base c base_copy = slice c.target_offset c.target_size base
source_bytes payload base c delta_bytes = slice c.payload_offset c.target_size payload
source_bytes payload base c (unnamed k) = []

unfoldable pub chunk_bytes : Bytes → Bytes → Chunk → Bytes
chunk_bytes payload base c = source_bytes payload base c c.kind

unfoldable pub concatenation : Bytes → Bytes → List Chunk → Bytes
concatenation payload base [] = []
concatenation payload base (c ∷ cs) = chunk_bytes payload base c ++ concatenation payload base cs

-- The target file: what the container and the base file reconstruct.
abbrev pub target : HgdeltaFile → Bytes → Bytes
target d base = concatenation d.payload_bytes base d.chunks

module _ (payload base : Bytes) (s : Shape) (b : s.base_size ≤ length base)
    (l : s.payload_length ≡ length payload) where
  pub length-source_bytes :
      (c : Chunk) (k : ChunkKind)
      → HasSource s c k
      → length (source_bytes payload base c k) ≡ c.target_size
  length-source_bytes c base_copy h = omega (arith, length-slice c.target_offset c.target_size base)
  length-source_bytes c delta_bytes h =
      omega (arith, length-slice c.payload_offset c.target_size payload)
  length-source_bytes c (unnamed k) h = elim h [ ]

  pub length-chunk_bytes :
      (i : ℕ) (c : Chunk) → IsChunk s i c → length (chunk_bytes payload base c) ≡ c.target_size
  unfolding chunk_bytes
  length-chunk_bytes i c k = length-source_bytes c c.kind k.sourced

  pub length-concatenation :
      (i : ℕ) (cs : List Chunk)
      → AreChunks s i cs
      → length (concatenation payload base cs) ≡ total_size cs
  unfolding concatenation
  length-concatenation i [] h = refl
  length-concatenation i (c ∷ cs) h = omega (
    arith,
    length-append (chunk_bytes payload base c) (concatenation payload base cs),
    length-chunk_bytes i c h.0,
    length-concatenation (i + 1) cs h.1,
  )

  -- A part of one chunk is a part of the target, at the chunk's offset.
  pub slice-concatenation :
      (i : ℕ) (cs : List Chunk) (k : ℕ) (c : Chunk) (r n : ℕ)
      → i + length cs ≡ s.chunk_count
      → AreChunks s i cs
      → get_elem? cs k ≡ some c
      → r + n ≤ c.target_size
      → slice (k * s.chunk_size + r) n (concatenation payload base cs)
        ≡ slice r n (chunk_bytes payload base c)
  unfolding concatenation
  slice-concatenation i [] k c r n e h g m = cc
  slice-concatenation i (x ∷ cs) zero c r n e h g m =
      let same : x ≡ c = cc in
      let shift : zero * s.chunk_size + r ≡ r = omega arith in
      rw (shift, ← same)
        (slice-append_left r n (chunk_bytes payload base x) (concatenation payload base cs)
          (omega (arith, length-chunk_bytes i x h.0, ap (λ (z : Chunk). z.target_size) same)))
  slice-concatenation i (x ∷ cs) (suc k) c r n e h g m =
      let full = h.0.full (omega (arith, get_elem?-lt_length cs k g)) in
      let shift : suc k * s.chunk_size + r
          ≡ length (chunk_bytes payload base x) + (k * s.chunk_size + r) =
        omega (arith, length-chunk_bytes i x h.0) in
      rw shift (
        slice-append_right (k * s.chunk_size + r) n (chunk_bytes payload base x)
          (concatenation payload base cs)
        ∙ slice-concatenation (i + 1) cs k c r n (omega arith) h.1 g m)
