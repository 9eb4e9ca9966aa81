-- ===== src/Source/Delta/Blocks.antt =====
-- HelenRuntime/DeltaVirtualFileSource.cpp: the loop that copies a chunk of the base file in blocks.
use mathlib.Core.List.{append-nil, append_assoc}
use helen_gamehook.Common.Lists.Slices.{slice-add}
use helen_gamehook.Common.Words.{Bytes, wrap64}
use helen_gamehook.Common.{
  ℕ, zero, suc, ◌+◌, ◌-◌, ◌%◌, ◌≤◌, ◌<◌, ◌≡◌, refl, ap, ◌∙◌, sym, subst, ◌⊎◌, inl, inr, true, false,
  ◌++◌, length, slice, min, arith, length-append, length-slice, Bool-cases, ltb, leb,
}
use helen_gamehook.Hgdelta.Table.{ChunkKind, base_copy, delta_bytes, unnamed}
use helen_gamehook.Source.Delta.Materialize.{
  Answers, Copied, copied, stopped, write_loop, write_base_bytes_to_stream,
}
use helen_gamehook.Source.Delta.{max_stream_offset}

-- Behind how many bytes of a chunk of this size a write of it ends: a chunk of the base file is
-- copied in blocks of 65536 bytes, one of the payload at once.
abbrev pub IsPieceEnd : ChunkKind → (size k : ℕ) → Type 0
IsPieceEnd base_copy size k = (0 < k) × (k ≤ size) × ((k % 65536 ≡ 0) ⊎ (k ≡ size))
IsPieceEnd delta_bytes size k = k ≡ size
IsPieceEnd (unnamed v) size k = ⊥

-- A write of one chunk ends behind `n` bytes of the target file, `start` of them before the chunk.
abbrev pub IsEndOf : (start : ℕ) → ChunkKind → (size n : ℕ) → Type 0
IsEndOf start kind size n = (k : ℕ) × IsPieceEnd kind size k × (n ≡ start + k)

module _ (answers : Answers) where
  -- Every write that ends where `ends` says has gone through.
  abbrev pub AreWritten : (ℕ → Type 0) → Type 0
  AreWritten ends = (n : ℕ) → ends n → answers.writes n ≡ true

  -- The stream holds `bytes` and every write has gone through, or one of them has failed.
  abbrev pub Wrote : (ℕ → Type 0) → Bytes → Copied → Type 0
  Wrote ends bytes result =
      ((result ≡ copied bytes) × AreWritten ends)
      ⊎ ((b : Bytes) × (n : ℕ) × ends n × (result ≡ stopped b) × (answers.writes n ≡ false))

  module _ (base : Bytes) (addressable : length base ≤ max_stream_offset) where
    module _ (fuel offset remaining : ℕ) (written : Bytes) where
      abbrev chunk : ℕ
      chunk = min remaining 65536

      write_loop-zero :
          remaining ≡ 0
          → write_loop answers (suc fuel) base offset remaining written ≡ copied written
      unfolding write_loop
      write_loop-zero h = ground (arith, h)

      write_loop-written :
          0 < remaining
          → offset + remaining ≤ length base
          → answers.writes (length written + chunk) ≡ true
          → write_loop answers (suc fuel) base offset remaining written
            ≡ write_loop answers fuel base
                (offset + chunk)
                (remaining - chunk)
                (written ++ slice offset chunk base)
      unfolding write_loop
      write_loop-written pos fits ok =
          let wrap : wrap64 (offset + chunk) ≡ offset + chunk = omega (arith, fits, addressable) in
          ground (arith, pos, ok, wrap, length-slice offset chunk base, fits)

      write_loop-stopped :
          0 < remaining
          → answers.writes (length written + chunk) ≡ false
          → write_loop answers (suc fuel) base offset remaining written ≡ stopped written
      unfolding write_loop
      write_loop-stopped pos refused = ground (arith, pos, refused)

    two_slices :
        (offset remaining n : ℕ) (written : Bytes)
        → n ≤ remaining
        → (written ++ slice offset n base) ++ slice (offset + n) (remaining - n) base
          ≡ written ++ slice offset remaining base
    two_slices offset remaining n written h =
        let sum : remaining ≡ n + (remaining - n) = omega (arith, h) in
        append_assoc written (slice offset n base) (slice (offset + n) (remaining - n) base)
        ∙ ap (λ (t : Bytes). written ++ t)
            (sym
              (ap (λ (k : ℕ). slice offset k base) sum ∙ slice-add offset n (remaining - n) base))

    no_slice : (offset : ℕ) (written : Bytes) → written ≡ written ++ slice offset 0 base
    no_slice offset written = sym (unfold slice in append-nil written)

    block_end :
        (total copied_bytes remaining : ℕ)
        → copied_bytes + remaining ≡ total
        → (copied_bytes % 65536 ≡ 0) ⊎ (remaining ≡ 0)
        → 0 < remaining
        → IsPieceEnd base_copy total (copied_bytes + min remaining 65536)
    block_end total copied_bytes remaining e aligned pos = omega arith

    next_block :
        (copied_bytes remaining : ℕ)
        → (copied_bytes % 65536 ≡ 0) ⊎ (remaining ≡ 0)
        → ((copied_bytes + min remaining 65536) % 65536 ≡ 0) ⊎ (remaining - min remaining 65536 ≡ 0)
    next_block copied_bytes remaining aligned = omega arith

    -- The writes of a chunk of the base file that are left behind its first `copied_bytes`.
    abbrev IsBlockEnd : (start total copied_bytes n : ℕ) → Type 0
    IsBlockEnd start total copied_bytes n =
        (k : ℕ) × (copied_bytes < k) × IsPieceEnd base_copy total k × (n ≡ start + k)

    one_block :
        (total copied_bytes remaining k : ℕ)
        → copied_bytes + remaining ≡ total
        → (copied_bytes % 65536 ≡ 0) ⊎ (remaining ≡ 0)
        → 0 < remaining
        → copied_bytes < k
        → k ≤ copied_bytes + min remaining 65536
        → IsPieceEnd base_copy total k
        → k ≡ copied_bytes + min remaining 65536
    one_block total copied_bytes remaining k e aligned pos h h' end = omega arith

    -- the next block, and then the rest
    AreWritten-block :
        (start total copied_bytes remaining : ℕ)
        → copied_bytes + remaining ≡ total
        → (copied_bytes % 65536 ≡ 0) ⊎ (remaining ≡ 0)
        → 0 < remaining
        → answers.writes (start + copied_bytes + min remaining 65536) ≡ true
        → AreWritten (IsBlockEnd start total (copied_bytes + min remaining 65536))
        → AreWritten (IsBlockEnd start total copied_bytes)
    AreWritten-block start total copied_bytes remaining e aligned pos ok rest n (k, h, end, at) =
        let next = copied_bytes + min remaining 65536 in
        elim (Bool-cases (leb k next)) [
          | inl near ↦
              let here : k ≡ next =
                one_block total copied_bytes remaining k e aligned pos h (ground (arith, near))
                  end in
              let same : n ≡ start + copied_bytes + min remaining 65536 = omega (arith, at, here) in
              rw same ok
          | inr far ↦ rest n (k, ground (arith, far), end, at)
        ]

    no_block :
        (start total copied_bytes : ℕ)
        → copied_bytes ≡ total
        → AreWritten (IsBlockEnd start total copied_bytes)
    no_block start total copied_bytes e n (k, h, end, at) = absurd (omega arith)

    -- `copied_bytes` of the chunk are in the stream, whole blocks unless they are all.
    write_loop-Wrote :
        (fuel offset remaining : ℕ) (written : Bytes) (start total copied_bytes : ℕ)
        → remaining ≤ fuel
        → offset + remaining ≤ length base
        → length written ≡ start + copied_bytes
        → copied_bytes + remaining ≡ total
        → (copied_bytes % 65536 ≡ 0) ⊎ (remaining ≡ 0)
        → Wrote
            (IsBlockEnd start total copied_bytes)
            (written ++ slice offset remaining base)
            (write_loop answers fuel base offset remaining written)
    write_loop-Wrote zero offset remaining written start total k e h at sum aligned =
        let none_left : remaining ≡ 0 = omega (arith, e) in
        rw none_left (
          inl (
            unfold write_loop in ap copied (no_slice offset written),
            no_block start total k (omega (arith, sum, none_left)),
          ))
    write_loop-Wrote (suc fuel) offset zero written start total k e h at sum aligned = inl (
      write_loop-zero fuel offset 0 written refl ∙ ap copied (no_slice offset written),
      no_block start total k (omega (arith, sum)),
    )
    write_loop-Wrote (suc fuel) offset (suc left) written start total k e h at sum aligned =
        let n = min (suc left) 65536 in
        elim (Bool-cases (answers.writes (length written + n))) [
          | inr refused ↦ inr (
            written,
            _,
            (
              k + n,
              omega arith,
              block_end total k (suc left) sum aligned (omega arith),
              omega (arith, at),
            ),
            write_loop-stopped fuel offset (suc left) written (omega arith) refused,
            refused,
          )
          | inl ok ↦
              let rest =
                write_loop-Wrote fuel (offset + n) (suc left - n) (written ++ slice offset n base)
                  start total (k + n) (omega (arith, e)) (omega (arith, h))
                  (omega (
                    arith,
                    at,
                    h,
                    length-append written (slice offset n base),
                    length-slice offset n base,
                  ))
                  (omega (arith, sum)) (next_block k (suc left) aligned) in
              rw
                (
                  write_loop-written fuel offset (suc left) written (omega arith) h ok,
                  ← two_slices offset (suc left) n written (omega arith),
                )
                (elim rest [
                  | inl (same, all) ↦ inl (
                    same,
                    AreWritten-block start total k (suc left) sum aligned (omega arith)
                        (subst (λ (z : ℕ). answers.writes (z + n) ≡ true) at ok) all,
                  )
                  | inr (w, m, (b, over, end, is), stops, refused) ↦
                      inr (w, m, (b, omega arith, end, is), stops, refused)
                ])
        ]

    write_base_bytes_to_stream-suc :
        (offset n : ℕ) (written : Bytes)
        → offset + suc n ≤ length base
        → write_base_bytes_to_stream answers base offset (suc n) written
          ≡ write_loop answers (suc n) base offset (suc n) written
    unfolding write_base_bytes_to_stream
    write_base_bytes_to_stream-suc offset n written h =
        let within : ltb max_stream_offset offset ≡ false = ground (arith, h, addressable) in
        ground (arith, within)

    pub write_base_bytes_to_stream-Wrote :
        (offset count : ℕ) (written : Bytes)
        → offset + count ≤ length base
        → Wrote
            (IsEndOf (length written) base_copy count)
            (written ++ slice offset count base)
            (write_base_bytes_to_stream answers base offset count written)
    write_base_bytes_to_stream-Wrote offset zero written h = inl (
      unfold write_base_bytes_to_stream in ap copied (no_slice offset written),
      λ n (k, end, at). absurd (omega (arith, end)),
    )
    write_base_bytes_to_stream-Wrote offset (suc n) written h =
        rw (write_base_bytes_to_stream-suc offset n written h)
          (elim (write_loop-Wrote (suc n) offset (suc n) written (length written) (suc n) 0
            (omega arith) h (omega arith) (omega arith) (inl (omega arith))) [
              | inl (same, all) ↦ inl (same, λ m (k, end, at). all m (k, end.0, end, at))
              | inr (w, m, (b, over, end, is), stops, refused) ↦
                  inr (w, m, (b, end, is), stops, refused)
            ])
