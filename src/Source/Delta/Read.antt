-- ===== src/Source/Delta/Read.antt =====
-- HelenRuntime/DeltaVirtualFileSource.cpp: a read through a delta gives the part of the target file
-- that was asked for.
use native.Mathlib.Nat.{mod-eq_of_lt}
use native.Mathlib.Decide.{dec_lt}
use mathlib.Core.List.{append-nil, append_assoc}
use helen_gamehook.Common.{
  ℕ, zero, suc, ◌+◌, ◌-◌, ◌*◌, ◌/◌, ◌%◌, Bool, ◌≤◌, ◌<◌, ◌≡◌, refl, sym, ap, ◌∙◌, [], ◌++◌, length,
  true, false, some, arith, min, slice, length-slice,
}
use helen_gamehook.Common.Lists.Slices.{slice-slice, slice-add, slice_past_end, slice_outside}
use helen_gamehook.Common.Words.{Bytes, u32_mod, wrap64}
use helen_gamehook.Hgdelta.{HgdeltaFile}
use helen_gamehook.Hgdelta.Table.{Chunk, ChunkKind, base_copy, delta_bytes, unnamed}
use helen_gamehook.Hgdelta.Layout.{HasSource, shape_of, IsWellFormed}
use helen_gamehook.Source.Full.{full_read-slice}
use helen_gamehook.Source.{done, full_read, full_size}
use helen_gamehook.Source.Delta.Locate.{Holds, chunk_at, locate-Holds}
use helen_gamehook.Source.Delta.Target.{
  source_bytes, chunk_bytes, target, slice-concatenation, length-concatenation,
}
use helen_gamehook.Source.Delta.{
  Place, read_base_bytes, fetch_payload, fetch_kind, fetch, locate, read_loop, delta_size,
  delta_read, max_stream_offset,
}

-- What the reads need of the installed base file: it is as long as the container says, and the file
-- system can address all of it.
pub record IsBase (d : HgdeltaFile) (base : Bytes) : Type 0 where
  pub exact : length base ≡ d.base_file_size
  pub addressable : length base ≤ max_stream_offset

read_base_bytes-slice :
    (base : Bytes) (offset count : ℕ)
    → offset + count ≤ length base
    → length base ≤ max_stream_offset
    → read_base_bytes base offset count ≡ some (slice offset count base)
unfolding read_base_bytes
read_base_bytes-slice base offset zero h m = unfold slice in refl
read_base_bytes-slice base offset (suc count) h m =
    ground (arith, length-slice offset (suc count) base)

fetch_payload-slice :
    (payload : Bytes) (offset count : ℕ)
    → offset + count ≤ length payload
    → length payload < u32_mod
    → fetch_payload payload offset count ≡ some (slice offset count payload)
unfolding fetch_payload
fetch_payload-slice payload offset count h m = ground arith

module _ (d : HgdeltaFile) (base : Bytes) (w : IsWellFormed d) (b : IsBase d base)
    (fits : length d.payload_bytes < u32_mod) where
  -- The part of the chunk `c` that holds the bytes from `r` on.
  abbrev part : Chunk → ℕ → ℕ → Bytes
  part c r n = slice r n (chunk_bytes d.payload_bytes base c)

  part-slice :
      (c : Chunk) (k : ChunkKind) (r n : ℕ)
      → c.kind ≡ k
      → part c r n ≡ slice r n (source_bytes d.payload_bytes base c k)
  unfolding chunk_bytes
  part-slice c k r n e = ap (λ (z : ChunkKind). slice r n (source_bytes d.payload_bytes base c z)) e

  fetch_kind-part :
      (c : Chunk) (k : ChunkKind) (r n : ℕ)
      → c.kind ≡ k
      → HasSource (shape_of d) c k
      → c.target_offset + c.target_size ≤ d.target_file_size
      → r + n ≤ c.target_size
      → fetch_kind d base (record { chunk = c; relative = r; copy_size = n }) k ≡ some (part c r n)
  unfolding fetch_kind
  fetch_kind-part c base_copy r n e h t m =
      let same : wrap64 (c.target_offset + r) ≡ c.target_offset + r =
        mod-eq_of_lt (omega (arith, w.target_width)) in
      rw (part-slice c base_copy r n e, slice-slice c.target_offset c.target_size r n base m)
        (ap (λ (z : ℕ). read_base_bytes base z n) same
          ∙ read_base_bytes-slice base (c.target_offset + r) n (omega (arith, b.exact))
              b.addressable)
  fetch_kind-part c delta_bytes r n e h t m =
      let same : wrap64 (c.payload_offset + r) ≡ c.payload_offset + r =
        mod-eq_of_lt (omega arith) in
      rw
        (
          part-slice c delta_bytes r n e,
          slice-slice c.payload_offset c.target_size r n d.payload_bytes m,
        )
        (ap (λ (z : ℕ). fetch_payload d.payload_bytes z n) same
          ∙ fetch_payload-slice d.payload_bytes (c.payload_offset + r) n (omega arith) fits)
  fetch_kind-part c (unnamed k) r n e h t m = elim h [ ]

  read_loop_step :
      (fuel offset remaining : ℕ) (copied bytes : Bytes) (p : Place)
      → 0 < remaining
      → locate d offset remaining ≡ some p
      → fetch d base p ≡ some bytes
      → read_loop (suc fuel) d base offset remaining copied
        ≡ read_loop fuel d base
            (wrap64 (offset + p.copy_size))
            (remaining - p.copy_size)
            (copied ++ bytes)
  unfolding read_loop
  read_loop_step fuel offset remaining copied bytes p h l f = ground arith

  part-target :
      (offset n : ℕ) (c : Chunk)
      → Holds d w offset c
      → offset + n ≤ c.target_offset + c.target_size
      → part c (offset - c.target_offset) n ≡ slice offset n (target d base)
  part-target offset n c g m =
      let at : offset / d.chunk_size * d.chunk_size + (offset - c.target_offset) ≡ offset =
        omega (arith, g.is_chunk.placed, g.from_start) in
      sym (
        slice-concatenation d.payload_bytes base (shape_of d) (omega (arith, b.exact)) refl 0
          d.chunks (offset / d.chunk_size) c (offset - c.target_offset) n (omega arith) w.chunked
          g.picked (omega (arith, g.from_start)))
      ∙ ap (λ (z : ℕ). slice z n (target d base)) at

  -- A turn of the loop at an offset inside the target: it copies `n` bytes of the target.
  turn :
      (fuel offset remaining n : ℕ) (copied : Bytes) (c : Chunk)
      → 0 < remaining
      → offset + remaining ≤ d.target_file_size
      → Holds d w offset c
      → n ≡ min remaining (c.target_offset + c.target_size - offset)
      → read_loop (suc fuel) d base offset remaining copied
        ≡ read_loop fuel d base
            (offset + n)
            (remaining - n)
            (copied ++ slice offset n (target d base))
  unfolding fetch
  turn fuel offset remaining n copied c p m g e =
      let place : Place = record {
        chunk = c;
        relative = offset - c.target_offset;
        copy_size = n;
      } in
      let located : locate d offset remaining ≡ some place =
        rw e (locate-Holds d w offset remaining c (omega arith) g) in
      let fetched : fetch d base place ≡ some (part c (offset - c.target_offset) n) =
        fetch_kind-part c c.kind (offset - c.target_offset) n refl g.is_chunk.sourced
          g.is_chunk.within_target (omega (arith, g.from_start, g.before_end)) in
      let same : wrap64 (offset + n) ≡ offset + n = mod-eq_of_lt (omega (arith, w.target_width)) in
      read_loop_step fuel offset remaining copied (part c (offset - c.target_offset) n) place p
        located fetched
      ∙ ap
          (λ (z : ℕ).
            read_loop fuel d base z (remaining - n) (copied ++ part c (offset - c.target_offset) n))
          same
      ∙ ap (λ (z : Bytes). read_loop fuel d base (offset + n) (remaining - n) (copied ++ z))
          (part-target offset n c g (omega (arith, g.before_end)))

  -- The loop copies the next `remaining` bytes of the target behind what it has copied.
  read_loop-target :
      (fuel offset remaining : ℕ) (copied : Bytes)
      → remaining ≤ fuel
      → offset + remaining ≤ d.target_file_size
      → read_loop fuel d base offset remaining copied
        ≡ done (copied ++ slice offset remaining (target d base))
  unfolding read_loop slice
  read_loop-target zero offset zero copied h m = ap done (sym (append-nil copied))
  read_loop-target zero offset (suc k) copied h m = elim h [ ]
  read_loop-target (suc fuel) offset zero copied h m = ap done (sym (append-nil copied))
  read_loop-target (suc fuel) offset (suc k) copied h m =
      let (c, g) = chunk_at d w offset (omega arith) in
      let n = min (suc k) (c.target_offset + c.target_size - offset) in
      let some_copied : 0 < n = omega (arith, g.before_end) in
      let all : n + (suc k - n) ≡ suc k = omega arith in
      turn fuel offset (suc k) n copied c (omega arith) m g refl
      ∙ read_loop-target fuel (offset + n) (suc k - n) (copied ++ slice offset n (target d base))
          (omega arith) (omega arith)
      ∙ ap done (
          append_assoc copied (slice offset n (target d base)) _
          ∙ ap (◌++◌ copied) (
              sym (slice-add offset n (suc k - n) (target d base))
              ∙ ap (λ (z : ℕ). slice offset z (target d base)) all))

  pub length-target : length (target d base) ≡ d.target_file_size
  length-target =
      length-concatenation d.payload_bytes base (shape_of d) (omega (arith, b.exact)) refl 0
        d.chunks w.chunked
      ∙ w.complete

  -- A read through a delta gives exactly the part of the target file that was asked for, cut at its
  -- end, for a well-formed container and the base file that it was made for.
  pub delta_read-target :
      (offset count : ℕ)
      → count < u32_mod
      → delta_read d (some base) offset true count ≡ done (slice offset count (target d base))
  unfolding delta_read delta_size
  delta_read-target offset zero h = unfold slice in refl
  delta_read-target offset (suc k) h = elim (dec_lt offset d.target_file_size) [
    | yes inside ↦
        let m = min (d.target_file_size - offset) (suc k) in
        let same : m % u32_mod ≡ m = mod-eq_of_lt (omega arith) in
        let cut : slice offset m (target d base) ≡ slice offset (suc k) (target d base) =
          ap (λ (z : ℕ). slice offset z (target d base)) (omega (arith, length-target))
          ∙ slice_past_end offset (suc k) (target d base) in
        let whole = read_loop-target m offset m [] (omega arith) (omega arith) in
        ground (arith, same, cut, whole)
    | no outside ↦
        ground (arith, slice_outside offset (suc k) (target d base) (omega (arith, length-target)))
  ]

  reads_agree :
      (offset count : ℕ) (has_buffer : Bool)
      → count < u32_mod
      → delta_read d (some base) offset has_buffer count
        ≡ full_read (target d base) offset has_buffer count
  reads_agree offset count true h =
      delta_read-target offset count h ∙ sym (full_read-slice (target d base) offset count h)
  reads_agree offset count false h = unfold delta_read full_read in ground arith

  -- Through `VirtualFileSource`, the delta cannot be told from a source that holds the target file
  -- whole: they have one size, and every read, at any offset, of any count below 2^32 and with or
  -- without a buffer, gives the same outcome.
  pub delta_read-full_read :
      (offset count : ℕ) (has_buffer : Bool)
      → count < u32_mod
      → (delta_read d (some base) offset has_buffer count
          ≡ full_read (target d base) offset has_buffer count)
        × (delta_size d ≡ full_size (target d base))
  unfolding delta_size full_size
  delta_read-full_read offset count has_buffer h =
      (reads_agree offset count has_buffer h, sym length-target)
