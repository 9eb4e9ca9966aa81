-- ===== src/Source/Delta/Materialize.antt =====
-- HelenRuntime/DeltaVirtualFileSource.cpp: the target file, written whole into the cache for a file
-- mapping. What the file system answers is a record of the calls on the way.
use helen_gamehook.Common.{
  ℕ, zero, suc, ◌+◌, ◌-◌, Bool, true, false, not, ◌&&◌, ◌||◌, List, [], ◌∷◌, ◌++◌, ltb, ◌==◌,
  length, slice, min, Option, none, some, if◌then◌else◌,
}
use helen_gamehook.Common.Words.{Bytes, wrap64}
use helen_gamehook.Hgdelta.{HgdeltaFile}
use helen_gamehook.Hgdelta.Table.{Chunk, ChunkKind, base_copy, delta_bytes, unnamed}
use helen_gamehook.Paths.{Text}
use helen_gamehook.Source.Delta.Open.{matches_target_fingerprint}
use helen_gamehook.Source.Delta.{max_stream_offset}
use helen_gamehook.Source.{max_size}

-- `writes n` is whether the write goes through that ends behind `n` bytes; `sha256` is the digest
-- of a file with these bytes, none where it cannot be computed.
pub record Answers : Type 0 where
  pub directory_created : Bool
  pub output_opens : Bool
  pub writes : ℕ → Bool
  pub closes : Bool
  pub removes : Bool
  pub renames : Bool
  pub sha256 : Bytes → Option Text

-- The two files of the cache that are in play, by their bytes.
pub record Cache : Type 0 where
  pub resolved : Option Bytes
  pub temporary : Option Bytes

-- How a copy into the output stream ends, with all its bytes or with an error.
pub data Copied : Type 0 where
  copied : Bytes → Copied
  stopped : Bytes → Copied
  spinning : Copied

module _ (answers : Answers) where
  -- the loop of `WriteBaseBytesToStream`; each turn copies a byte at least
  unfoldable pub write_loop : (fuel : ℕ) → Bytes → (offset remaining : ℕ) → Bytes → Copied
  write_loop zero base offset remaining written =
      if remaining == 0 then copied written else spinning
  write_loop (suc fuel) base offset remaining written =
      let chunk_size = min remaining 65536 in
      let bytes = slice offset chunk_size base in
      let rest =
        write_loop fuel base (wrap64 (offset + chunk_size)) (remaining - chunk_size)
          (written ++ bytes) in
      if remaining == 0
      then copied written
      else (if length bytes == chunk_size && answers.writes (length written + chunk_size)
          then rest
          else stopped written)

  -- `WriteBaseBytesToStream`
  unfoldable pub write_base_bytes_to_stream : Bytes → (offset byte_count : ℕ) → Bytes → Copied
  unfolding write_loop
  write_base_bytes_to_stream base offset byte_count written =
      if byte_count == 0
      then copied written
      else (if ltb max_stream_offset offset
          then stopped written
          else write_loop byte_count base offset byte_count written)

  -- one turn of the loop of `MaterializeResolvedTarget`
  unfoldable pub write_chunk : HgdeltaFile → Bytes → Chunk → ChunkKind → Bytes → Copied
  unfolding write_base_bytes_to_stream
  write_chunk d base c base_copy written =
      write_base_bytes_to_stream base c.target_offset c.target_size written
  write_chunk d base c delta_bytes written =
      if ltb max_size c.payload_offset
        || ltb (length d.payload_bytes) (wrap64 (c.payload_offset + c.payload_size))
      then stopped written
      else (if answers.writes (length written + c.payload_size)
          then copied (written ++ slice c.payload_offset c.payload_size d.payload_bytes)
          else stopped written)
  write_chunk d base c (unnamed k) written = stopped written

  unfoldable pub write_chunks : HgdeltaFile → Bytes → List Chunk → Bytes → Copied
  unfolding write_chunk
  write_chunks d base [] written = copied written
  write_chunks d base (c ∷ cs) written = elim (write_chunk d base c c.kind written) [
    | copied written' ↦ write_chunks d base cs written'
    | stopped written' ↦ stopped written'
    | spinning ↦ spinning
  ]

  -- `RemoveFileIfPresent`
  abbrev remove : Option Bytes → Option Bytes
  remove file = if answers.removes then none else file

  -- `FileFingerprint::FromPath` of a file with these bytes, against the target of the delta
  unfoldable pub has_target_fingerprint : HgdeltaFile → Bytes → Bool
  unfolding matches_target_fingerprint
  has_target_fingerprint d bytes = elim (answers.sha256 bytes) [
    | none ↦ false
    | some digest ↦
        matches_target_fingerprint (record { file_size = length bytes; sha256 = digest }) d
  ]

  -- `IsResolvedFileValid`
  unfoldable pub is_resolved_file_valid : HgdeltaFile → Option Bytes → Bool
  unfolding has_target_fingerprint
  is_resolved_file_valid d none = false
  is_resolved_file_valid d (some bytes) = has_target_fingerprint d bytes

  -- the end of `MaterializeResolvedTarget`, with the output as it was written
  unfoldable pub finish : HgdeltaFile → Cache → Bytes → Bool × Cache
  unfolding has_target_fingerprint
  finish d cache bytes =
      if not answers.closes || not (has_target_fingerprint d bytes)
      then (false, record cache { temporary = remove (some bytes) })
      else (if answers.renames
          then (true, record { resolved = some bytes; temporary = none })
          else (
            false,
            record { resolved = remove cache.resolved; temporary = remove (some bytes) },
          ))

  unfoldable pub after_chunks : HgdeltaFile → Cache → Copied → Bool × Cache
  unfolding finish
  after_chunks d cache (copied bytes) = finish d cache bytes
  after_chunks d cache (stopped bytes) = (false, record cache { temporary = remove (some bytes) })
  after_chunks d cache spinning = (false, cache)

  -- `MaterializeResolvedTarget`; the stream on the base file opens, or does not.
  unfoldable pub materialize_resolved_target : HgdeltaFile → Option Bytes → Cache → Bool × Cache
  unfolding write_chunks after_chunks
  materialize_resolved_target d base_stream cache =
      if not answers.directory_created then (false, cache) else elim base_stream [
        | none ↦ (false, cache)
        | some base ↦
            if answers.output_opens
            then after_chunks d cache (write_chunks d base d.chunks [])
            else (false, record cache { temporary = remove cache.temporary })
      ]

  -- `CreateFileMapping`, up to the file that it maps: none where it gives up before
  unfoldable pub resolve_for_mapping :
      HgdeltaFile → Option Bytes → Cache → Option (Option Bytes) × Cache
  unfolding is_resolved_file_valid materialize_resolved_target
  resolve_for_mapping d base_stream cache =
      if is_resolved_file_valid d cache.resolved
      then (some cache.resolved, cache)
      else (let (done, cache') = materialize_resolved_target d base_stream cache in
          if done then (some cache'.resolved, cache') else (none, cache'))
