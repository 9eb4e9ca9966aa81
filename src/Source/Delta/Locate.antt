-- ===== src/Source/Delta/Locate.antt =====
-- HelenRuntime/DeltaVirtualFileSource.cpp: the chunk that the read loop picks holds its offset.
use native.Mathlib.Nat.{div-lt_iff_lt-mul}
use helen_gamehook.Common.{
  ℕ, zero, suc, ◌+◌, ◌-◌, ◌*◌, ◌/◌, ◌≤◌, ◌<◌, ◌≡◌, List, [], ◌∷◌, length, get_elem?, some, arith,
  get_elem?-lt_length, get_elem?-of_lt, min, subst,
}
use native.Mathlib.Decide.{dec_lt}
use helen_gamehook.Hgdelta.{HgdeltaFile}
use helen_gamehook.Hgdelta.Table.{Chunk}
use helen_gamehook.Hgdelta.Layout.{Shape, IsChunk, AreChunks, total_size, shape_of, IsWellFormed}
use helen_gamehook.Source.Delta.{locate}

module _ (s : Shape) where
  AreChunks-get_elem? :
      (i : ℕ) (cs : List Chunk) (k : ℕ) {c : Chunk}
      → AreChunks s i cs
      → get_elem? cs k ≡ some c
      → IsChunk s (i + k) c
  AreChunks-get_elem? i [] k h g = cc
  AreChunks-get_elem? i (x ∷ cs) zero {c} h g =
      let here : i ≡ i + zero = omega arith in let same : x ≡ c = cc in rw (← here, ← same) h.0
  AreChunks-get_elem? i (x ∷ cs) (suc k) h g =
      let next : i + suc k ≡ i + 1 + k = omega arith in
      rw next (AreChunks-get_elem? (i + 1) cs k h.1 g)

  total_size-le :
      (i : ℕ) (cs : List Chunk) → AreChunks s i cs → total_size cs ≤ length cs * s.chunk_size
  total_size-le i [] h = omega arith
  total_size-le i (c ∷ cs) h = omega (arith, h.0.within_nominal, total_size-le (i + 1) cs h.1)

  total_size_last :
      (i : ℕ) (cs : List Chunk) (k : ℕ) {c : Chunk}
      → i + length cs ≡ s.chunk_count
      → AreChunks s i cs
      → get_elem? cs k ≡ some c
      → k + 1 ≡ length cs
      → total_size cs ≡ k * s.chunk_size + c.target_size
  total_size_last i [] k e h g l = cc
  total_size_last i (x ∷ []) zero e h g l = ground arith
  total_size_last i (x ∷ y ∷ cs) zero e h g l = absurd (omega arith)
  total_size_last i (x ∷ cs) (suc k) e h g l =
      let full = h.0.full (omega (arith, get_elem?-lt_length cs k g)) in
      omega (arith, total_size_last (i + 1) cs k (omega arith) h.1 g (omega arith))

module _ (d : HgdeltaFile) (w : IsWellFormed d) where
  -- The chunk that holds one offset of the target.
  pub record Holds (offset : ℕ) (c : Chunk) : Type 0 where
    pub picked : get_elem? d.chunks (offset / d.chunk_size) ≡ some c
    pub is_chunk : IsChunk (shape_of d) (offset / d.chunk_size) c
    pub from_start : c.target_offset ≤ offset
    pub before_end : offset < c.target_offset + c.target_size

  index-lt_length :
      (offset : ℕ) → offset < d.target_file_size → offset / d.chunk_size < length d.chunks
  index-lt_length offset h =
      (div-lt_iff_lt-mul w.steps).1
        (omega (arith, w.complete, total_size-le (shape_of d) 0 d.chunks w.chunked))

  before_end_lem :
      (offset : ℕ) (c : Chunk)
      → offset < d.target_file_size
      → get_elem? d.chunks (offset / d.chunk_size) ≡ some c
      → IsChunk (shape_of d) (offset / d.chunk_size) c
      → offset < c.target_offset + c.target_size
  before_end_lem offset c h g k = elim (dec_lt (offset / d.chunk_size + 1) (length d.chunks)) [
    | yes more ↦ omega (arith, w.steps, k.placed, k.full more)
    | no last ↦ omega (
      arith,
      k.placed,
      w.complete,
      index-lt_length offset h,
      total_size_last (shape_of d) 0 d.chunks (offset / d.chunk_size) (omega arith) w.chunked g
          (omega (arith, index-lt_length offset h)),
    )
  ]

  pub chunk_at : (offset : ℕ) → offset < d.target_file_size → (c : Chunk) × Holds offset c
  chunk_at offset h =
      let (c, g) = get_elem?-of_lt d.chunks (offset / d.chunk_size) (index-lt_length offset h) in
      let at : 0 + offset / d.chunk_size ≡ offset / d.chunk_size = omega arith in
      let k =
        subst (λ (i : ℕ). IsChunk (shape_of d) i c) at
          (AreChunks-get_elem? (shape_of d) 0 d.chunks (offset / d.chunk_size) w.chunked g) in
      (
        c,
        record {
          picked = g;
          is_chunk = k;
          from_start = omega (arith, k.placed, w.steps);
          before_end = before_end_lem offset c h g k;
        },
      )

  -- The loop picks that chunk, and copies up to its end.
  pub locate-Holds :
      (offset remaining : ℕ) (c : Chunk)
      → offset < d.target_file_size
      → Holds offset c
      → locate d offset remaining
        ≡ some (record {
          chunk = c;
          relative = offset - c.target_offset;
          copy_size = min remaining (c.target_offset + c.target_size - offset);
        })
  unfolding locate
  locate-Holds offset remaining c h g = ground (
    arith,
    g.picked,
    g.from_start,
    g.before_end,
    g.is_chunk.within_target,
    w.target_width,
    g.is_chunk.within_nominal,
    w.size_width,
    index-lt_length offset h,
    w.count_width,
  )
