-- ===== src/Hgdelta/Sound.antt =====
-- HelenRuntime/HgdeltaFile.cpp: what `HgdeltaFile::Load` guarantees of a container that it returns.
use native.Mathlib.Nat.{mod-eq_of_lt}
use helen_gamehook.Common.{
  ℕ, zero, suc, ◌+◌, ◌*◌, ◌<◌, ◌≡◌, refl, subst, ap, ◌∙◌, arith, ◌==◌, length, drop, List, ◌∷◌, not,
}
use helen_gamehook.Common.Results.{ok, bind-eq-ok, ok-injective, reject-eq-ok}
use helen_gamehook.Common.Words.{Bytes, AreBytes, u32_mod, u64_mod, wrap64}
use helen_gamehook.Common.Words.Bounds.{mul-lt-u64}
use helen_gamehook.Hgdelta.Table.{Chunk}
use helen_gamehook.Hgdelta.Table.Checked.{
  validate_chunk_entry-Accepted, read_u32-Below, read_u64-Below,
}
use helen_gamehook.Hgdelta.Layout.{Shape, IsChunk, AreChunks, total_size, IsWellFormed}
use helen_gamehook.Hgdelta.{
  HgdeltaFile, Header, read_header, check_header, Entry, read_entry, accept_entry, load_chunk,
  load_chunks, assemble, load_body, load_bytes,
}

-- The widths of the header's fields.
record HasWidths (h : Header) : Type 0 where
  size_width : h.chunk_size < u32_mod
  count_width : h.chunk_count < u32_mod
  target_width : h.target_file_size < u64_mod

read_header-HasWidths :
    (bytes : Bytes) {h : Header} → AreBytes bytes → read_header bytes ≡ ok h → HasWidths h
unfolding read_header
read_header-HasWidths bytes a e =
    ground (arith, read_u32-Below bytes 12 a, read_u32-Below bytes 96 a, read_u64-Below bytes 24 a)

abbrev shape : Header → Bytes → Shape
shape h payload = record {
  chunk_size = h.chunk_size;
  chunk_count = h.chunk_count;
  base_size = h.base_file_size;
  target_size = h.target_file_size;
  payload_length = length payload;
}

module _ (h : Header) (payload : Bytes) (w : HasWidths h) where
  accept_entry-IsChunk :
      (index reconstructed : ℕ) (e : Entry) {c : Chunk}
      → index < h.chunk_count
      → reconstructed ≡ index * h.chunk_size
      → accept_entry h payload index reconstructed e ≡ ok c
      → IsChunk (shape h payload) index c
  unfolding accept_entry
  accept_entry-IsChunk index reconstructed e i at p =
      let fits =
        mod-eq_of_lt (mul-lt-u64 index h.chunk_size (omega (arith, w.count_width)) w.size_width) in
      let a =
        validate_chunk_entry-Accepted e.kind h.chunk_size index h.chunk_count h.base_file_size
          h.target_file_size e.target_size e.payload_offset e.payload_size payload in
      record {
        placed = ground arith;
        not_empty = ground (arith, a);
        within_nominal = ground (arith, a);
        full = ground (arith, a);
        within_target = ground (arith, a, fits);
        sourced = ground (arith, a, fits);
      }

  load_chunk-IsChunk :
      (bytes : Bytes) (index reconstructed : ℕ) {c : Chunk}
      → index < h.chunk_count
      → reconstructed ≡ index * h.chunk_size
      → load_chunk bytes h payload index reconstructed ≡ ok c
      → IsChunk (shape h payload) index c
  unfolding load_chunk
  load_chunk-IsChunk bytes index reconstructed i at p =
      let (e, _, q) = bind-eq-ok (read_entry bytes _) _ p in
      accept_entry-IsChunk index reconstructed e i at q

  -- The running total never wraps, and after a chunk that is not the last it is the next offset.
  next_total :
      (index : ℕ) (c : Chunk)
      → IsChunk (shape h payload) index c
      → wrap64 (index * h.chunk_size + c.target_size) ≡ index * h.chunk_size + c.target_size
  next_total index c k = mod-eq_of_lt (omega (arith, k.placed, k.within_target, w.target_width))

  next_offset :
      (rounds index : ℕ) (c : Chunk)
      → IsChunk (shape h payload) index c
      → index + suc rounds ≡ h.chunk_count
      → 0 < rounds
      → wrap64 (index * h.chunk_size + c.target_size) ≡ (index + 1) * h.chunk_size
  next_offset rounds index c k n more = next_total index c k ∙ omega (arith, k.full (omega arith))

  -- The loop's result, entered at an index with the size that the chunks before it make.
  abbrev Loaded : ℕ → ℕ → ℕ → List Chunk × ℕ → Type 0
  Loaded rounds index reconstructed r =
      AreChunks (shape h payload) index r.0
      × (r.1 ≡ reconstructed + total_size r.0)
      × (length r.0 ≡ rounds)

  Loaded-cons :
      (rounds index reconstructed : ℕ) (c : Chunk) (r : List Chunk × ℕ)
      → reconstructed ≡ index * h.chunk_size
      → IsChunk (shape h payload) index c
      → Loaded rounds (index + 1) (wrap64 (reconstructed + c.target_size)) r
      → Loaded (suc rounds) index reconstructed (c ∷ r.0, r.1)
  Loaded-cons rounds index reconstructed c r at k l =
      ((k, l.0), omega (arith, l.1, next_total index c k), omega (arith, l.2))

  load_chunks-Loaded :
      (bytes : Bytes) (rounds index reconstructed : ℕ) {r : List Chunk × ℕ}
      → index + rounds ≡ h.chunk_count
      → (0 < rounds → reconstructed ≡ index * h.chunk_size)
      → load_chunks bytes h payload rounds index reconstructed ≡ ok r
      → Loaded rounds index reconstructed r
  unfolding load_chunks
  load_chunks-Loaded bytes zero index reconstructed n t p =
      subst (Loaded zero index reconstructed) (ok-injective p) (tt, omega arith, refl)
  load_chunks-Loaded bytes (suc rounds) index reconstructed n t p =
      let (c, pc, q) = bind-eq-ok (load_chunk bytes h payload index reconstructed) _ p in
      let next = wrap64 (reconstructed + c.target_size) in
      let (rest, pr, e) = bind-eq-ok (load_chunks bytes h payload rounds (index + 1) next) _ q in
      let at : reconstructed ≡ index * h.chunk_size = t (omega arith) in
      let k = load_chunk-IsChunk bytes index reconstructed (omega arith) at pc in
      let start = λ (more : 0 < rounds).
        ap (λ (z : ℕ). wrap64 (z + c.target_size)) at ∙ next_offset rounds index c k n more in
      let later = load_chunks-Loaded bytes rounds (index + 1) next (omega arith) start pr in
      subst (Loaded (suc rounds) index reconstructed) (ok-injective e)
        (Loaded-cons rounds index reconstructed c rest at k later)

check_header-steps : (bytes : Bytes) (h : Header) → check_header bytes h ≡ ok tt → 0 < h.chunk_size
unfolding check_header
check_header-steps bytes h e = ground arith

assemble-IsWellFormed :
    (bytes : Bytes) (h : Header) (w : HasWidths h) (r : List Chunk × ℕ)
    → 0 < h.chunk_size
    → r.1 ≡ h.target_file_size
    → Loaded h (drop h.payload_offset bytes) w h.chunk_count 0 0 r
    → IsWellFormed (assemble bytes h r.0)
unfolding assemble
assemble-IsWellFormed bytes h w r steps total l = record {
  steps = steps;
  chunked = rw l.2 l.0;
  complete = omega (arith, l.1);
  size_width = w.size_width;
  count_width = omega (arith, l.2, w.count_width);
  target_width = w.target_width;
}

load_body-IsWellFormed :
    (bytes : Bytes) (h : Header) {d : HgdeltaFile}
    → HasWidths h
    → load_body bytes h ≡ ok d
    → IsWellFormed d
unfolding load_body
load_body-IsWellFormed bytes h w p =
    let payload = drop h.payload_offset bytes in
    let (_, checked, q) = bind-eq-ok (check_header bytes h) _ p in
    let (r, loop, e) = bind-eq-ok (load_chunks bytes h payload h.chunk_count 0 0) _ q in
    let l =
      load_chunks-Loaded h payload w bytes h.chunk_count 0 0 (omega arith) (λ _. omega arith)
        loop in
    let (total, built) = reject-eq-ok (not (r.1 == h.target_file_size)) _ e in
    subst IsWellFormed built
      (assemble-IsWellFormed bytes h w r (check_header-steps bytes h checked) (ground arith) l)

-- Whatever bytes the file holds, a container that `HgdeltaFile::Load` returns is well formed.
pub load_bytes-IsWellFormed :
    (bytes : Bytes) {d : HgdeltaFile} → AreBytes bytes → load_bytes bytes ≡ ok d → IsWellFormed d
unfolding load_bytes
load_bytes-IsWellFormed bytes a p =
    let (h, r, q) = bind-eq-ok (read_header bytes) _ p in
    load_body-IsWellFormed bytes h (read_header-HasWidths bytes a r) q
