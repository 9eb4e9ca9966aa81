-- ===== src/Source/Delta/Written.antt =====
-- HelenRuntime/DeltaVirtualFileSource.cpp: the copies that write the target file are its bytes.
use mathlib.Core.List.{append-nil, append_assoc}
use helen_gamehook.Common.Words.{Bytes}
use helen_gamehook.Common.{
  ℕ, ◌+◌, ◌≤◌, ◌≡◌, refl, ap, sym, subst, ◌⊎◌, inl, inr, List, [], ◌∷◌, ◌++◌, length, arith,
  length-append, Bool-cases,
}
use helen_gamehook.Hgdelta.Layout.{shape_of, AreChunks, HasSource}
use helen_gamehook.Hgdelta.Table.{Chunk, ChunkKind, base_copy, delta_bytes, unnamed}
use helen_gamehook.Hgdelta.{HgdeltaFile}
use helen_gamehook.Source.Delta.Materialize.{Answers, copied, stopped, write_chunk, write_chunks}
use helen_gamehook.Source.Delta.Read.{IsBase}
use helen_gamehook.Source.Delta.Target.{
  source_bytes, chunk_bytes, concatenation, length-source_bytes,
}
use helen_gamehook.Source.{max_size}
use helen_gamehook.Source.Delta.Blocks.{
  IsEndOf, AreWritten, Wrote, write_base_bytes_to_stream-Wrote,
}

-- A write of one of the chunks ends behind `n` bytes of the target file.
abbrev pub IsWriteEnd : (start : ℕ) → List Chunk → ℕ → Type 0
IsWriteEnd start [] n = ⊥
IsWriteEnd start (c ∷ cs) n =
    IsEndOf start c.kind c.target_size n ⊎ IsWriteEnd (start + c.target_size) cs n

module _ (answers : Answers) where
  AreWritten-chunks :
      (start : ℕ) (c : Chunk) (cs : List Chunk)
      → AreWritten answers (IsEndOf start c.kind c.target_size)
      → AreWritten answers (IsWriteEnd (start + c.target_size) cs)
      → AreWritten answers (IsWriteEnd start (c ∷ cs))
  AreWritten-chunks start c cs own others n (inl end) = own n end
  AreWritten-chunks start c cs own others n (inr end) = others n end

  module _ (d : HgdeltaFile) (base : Bytes) (b : IsBase d base)
      (small : length d.payload_bytes ≤ max_size) where
    write_chunk-Wrote :
        (c : Chunk) (k : ChunkKind) (written : Bytes)
        → HasSource (shape_of d) c k
        → Wrote answers
            (IsEndOf (length written) k c.target_size)
            (written ++ source_bytes d.payload_bytes base c k)
            (write_chunk answers d base c k written)
    unfolding write_chunk
    write_chunk-Wrote c base_copy written h =
        write_base_bytes_to_stream-Wrote answers base b.addressable c.target_offset c.target_size
          written (omega (arith, h, b.exact))
    write_chunk-Wrote c delta_bytes written h =
        elim (Bool-cases (answers.writes (length written + c.payload_size))) [
          | inl ok ↦ inl (
            ground (arith, h, small, ok),
            λ n (k, end, at).
                (let same : n ≡ length written + c.payload_size = omega (arith, h, end, at) in
                  rw same ok),
          )
          | inr refused ↦ inr (
            written,
            _,
            (c.target_size, refl, ground (arith, h)),
            ground (arith, h, small, refused),
            refused,
          )
        ]
    write_chunk-Wrote c (unnamed k) written h = elim h [ ]

    -- the rest of the chunks, once one has been written
    write_chunks-copied :
        (c : Chunk) (cs : List Chunk) (written written' : Bytes)
        → write_chunk answers d base c c.kind written ≡ copied written'
        → write_chunks answers d base (c ∷ cs) written ≡ write_chunks answers d base cs written'
    unfolding write_chunks
    write_chunks-copied c cs written written' h = ground (arith, h)

    write_chunks-stopped :
        (c : Chunk) (cs : List Chunk) (written written' : Bytes)
        → write_chunk answers d base c c.kind written ≡ stopped written'
        → write_chunks answers d base (c ∷ cs) written ≡ stopped written'
    unfolding write_chunks
    write_chunks-stopped c cs written written' h = ground (arith, h)

    pub write_chunks-Wrote :
        (i : ℕ) (cs : List Chunk) (written : Bytes)
        → AreChunks (shape_of d) i cs
        → Wrote answers
            (IsWriteEnd (length written) cs)
            (written ++ concatenation d.payload_bytes base cs)
            (write_chunks answers d base cs written)
    unfolding concatenation chunk_bytes
    write_chunks-Wrote i [] written h =
        inl (unfold write_chunks in ap copied (sym (append-nil written)), λ n end. absurd end)
    write_chunks-Wrote i (c ∷ cs) written h =
        let bytes = source_bytes d.payload_bytes base c c.kind in
        let size : length written + c.target_size ≡ length (written ++ bytes) = omega (
          arith,
          length-append written bytes,
          length-source_bytes d.payload_bytes base (shape_of d) (omega (arith, b.exact)) refl c
              c.kind h.0.sourced,
        ) in
        elim (write_chunk-Wrote c c.kind written h.0.sourced) [
          | inr (w, n, end, e, refused) ↦
              inr (w, n, inl end, write_chunks-stopped c cs written w e, refused)
          | inl (e, own) ↦
              rw
                (
                  write_chunks-copied c cs written _ e,
                  ← append_assoc written bytes (concatenation d.payload_bytes base cs),
                )
                (elim (write_chunks-Wrote (i + 1) cs (written ++ bytes) h.1) [
                  | inl (same, others) ↦ inl (
                    same,
                    AreWritten-chunks (length written) c cs own
                        (subst (λ (z : ℕ). AreWritten answers (IsWriteEnd z cs)) (sym size) others),
                  )
                  | inr (w, n, end, stops, refused) ↦ inr (
                    w,
                    n,
                    inr (subst (λ (z : ℕ). IsWriteEnd z cs n) (sym size) end),
                    stops,
                    refused,
                  )
                ])
        ]
