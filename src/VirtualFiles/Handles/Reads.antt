-- ===== src/VirtualFiles/Handles/Reads.antt =====
-- HelenRuntime/VirtualFileService.cpp: what a run of reads on one handle delivers.
use helen_gamehook.Common.Lists.Slices.{slice-add, slice-min}
use helen_gamehook.Common.Maps.Laws.{find-assign}
use helen_gamehook.Common.Maps.{find}
use helen_gamehook.Common.Results.{Result, ok, err}
use helen_gamehook.Common.Words.{Bytes, u32_mod, u64_mod}
use helen_gamehook.Common.{
  ℕ, zero, suc, ◌+◌, ◌≤◌, ◌<◌, ◌≡◌, refl, sym, ap, ◌∙◌, true, false, List, [], ◌∷◌, ◌++◌, length,
  slice, length-slice, some, min, arith,
}
use helen_gamehook.Files.{FileSystem}
use helen_gamehook.Hgdelta.Layout.{IsWellFormed}
use helen_gamehook.Paths.Keys.{nat_key}
use helen_gamehook.Source.Delta.Open.{DeltaSource}
use helen_gamehook.Source.Delta.Read.{IsBase, delta_read-target, length-target}
use helen_gamehook.Source.Delta.Target.{target}
use helen_gamehook.Source.Full.{full_read-slice}
use helen_gamehook.Source.{done, full_size}
use helen_gamehook.Source.Delta.{delta_size}
use helen_gamehook.VirtualFiles.Handles.{
  LastError, is_null_handle, lookup_handle, with_position, or_invalid, copied_bytes, read_bytes,
  read,
}
use helen_gamehook.VirtualFiles.Sources.{Source, full, delta, source_size, source_read}
use helen_gamehook.VirtualFiles.{Service, VirtualHandle}

-- The source stands for a file with these bytes.
pub record Holds (fs : FileSystem) (source : Source) (content : Bytes) : Type 0 where
  pub sized : source_size source ≡ length content
  pub addressed : length content < u64_mod
  pub delivers :
      (offset count : ℕ)
      → count < u32_mod
      → source_read fs source offset true count ≡ done (slice offset count content)

-- A full source holds its bytes.
pub full-Holds :
    (fs : FileSystem) (bytes : Bytes) → length bytes < u64_mod → Holds fs (full bytes) bytes
unfolding source_size source_read full_size
full-Holds fs bytes l = record {
  sized = refl;
  addressed = l;
  delivers = λ offset count h. full_read-slice bytes offset count h;
}

-- A delta source holds the target file, as long as the installed base file is the one it was made
-- for.
pub delta-Holds :
    (fs : FileSystem) (s : DeltaSource) (base : Bytes)
    → fs.contents s.base_file_path ≡ some base
    → IsWellFormed s.delta
    → IsBase s.delta base
    → length s.delta.payload_bytes < u32_mod
    → Holds fs (delta s) (target s.delta base)
unfolding source_size source_read delta_size
delta-Holds fs s base o w b l = record {
  sized = sym (length-target s.delta base w b l);
  addressed = omega (arith, length-target s.delta base w b l, w.target_width);
  delivers = λ offset count h. rw o (delta_read-target s.delta base w b l offset count h);
}

-- Reads of the given counts, one behind the other: the bytes that they deliver.
unfoldable pub reads : FileSystem → Service → ℕ → List ℕ → List (Result LastError Bytes) × Service
reads fs s handle [] = ([], s)
reads fs s handle (c ∷ cs) =
    let first = read fs s handle true true c in
    let rest = reads fs first.1 handle cs in (first.0 ∷ rest.0, rest.1)

abbrev pub delivered : List (Result LastError Bytes) → Bytes
delivered [] = []
delivered (ok bytes ∷ rs) = bytes ++ delivered rs
delivered (err e ∷ rs) = delivered rs

abbrev pub sum : List ℕ → ℕ
sum [] = 0
sum (c ∷ cs) = c + sum cs

abbrev pub AreCounts : List ℕ → Type 0
AreCounts [] = Unit {0}
AreCounts (c ∷ cs) = (c < u32_mod) × AreCounts cs

abbrev pub at : Source → ℕ → VirtualHandle
at source position = record { source = some source; read_position = position }

module _ (fs : FileSystem) (source : Source) (content : Bytes) (o : Holds fs source content) where
  read_bytes-slice :
      (p count : ℕ)
      → p ≤ length content
      → count < u32_mod
      → read_bytes fs (at source p) true count
        ≡ ok (slice p count content, min (p + count) (length content))
  unfolding read_bytes copied_bytes or_invalid
  read_bytes-slice p zero l c = unfold slice in ground (arith)
  read_bytes-slice p (suc k) l c =
      let start : min p (source_size source) ≡ p = omega (arith, o.sized) in
      ground (arith, start, o.delivers p (suc k) c, length-slice p (suc k) content, o.addressed)

  -- A read moves the position of its own handle behind what it delivers.
  read-at :
      (s : Service) (handle p count : ℕ)
      → is_null_handle handle ≡ false
      → find handle s.open_handles ≡ some (at source p)
      → p ≤ length content
      → count < u32_mod
      → read fs s handle true true count ≡ (
        ok (slice p count content),
        with_position s handle (at source p) (min (p + count) (length content)),
      )
  unfolding read lookup_handle
  read-at s handle p count n f l c = ground (arith, read_bytes-slice p count l c)

  find-with_position :
      (s : Service) (handle p q : ℕ)
      → find handle (with_position s handle (at source p) q).open_handles ≡ some (at source q)
  unfolding with_position
  find-with_position s handle p q =
      ground (arith, find-assign handle handle (at source q) s.open_handles)

  -- Reads of any counts, one behind the other, deliver the file from the handle's position on: as
  -- many bytes as were asked for, or all that are left. The handle then stands behind them.
  pub reads-slice :
      (cs : List ℕ) (s : Service) (handle p : ℕ)
      → is_null_handle handle ≡ false
      → find handle s.open_handles ≡ some (at source p)
      → p ≤ length content
      → AreCounts cs
      → let r = reads fs s handle cs in
        (delivered r.0 ≡ slice p (sum cs) content)
        × (find handle r.1.open_handles ≡ some (at source (min (p + sum cs) (length content))))
  unfolding reads
  reads-slice [] s handle p n f l h =
      (unfold slice in refl, f ∙ ap (λ (q : ℕ). some (at source q)) (omega arith))
  reads-slice (c ∷ cs) s handle p n f l h =
      let q = min (p + c) (length content) in
      let first = read-at s handle p c n f l h.0 in
      let (bytes, last) =
        reads-slice cs (with_position s handle (at source p) q) handle q n
          (find-with_position s handle p q) (omega arith) h.1 in
      let behind = slice-min (p + c) (sum cs) content in
      let joined = slice-add p c (sum cs) content in
      let same : min (q + sum cs) (length content) ≡ min (p + sum (c ∷ cs)) (length content) =
        omega arith in
      rw first (
        ap (◌++◌ (slice p c content)) (bytes ∙ behind) ∙ sym joined,
        last ∙ ap (λ (z : ℕ). some (at source z)) same,
      )
