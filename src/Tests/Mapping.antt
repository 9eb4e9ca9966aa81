-- ===== src/Tests/Mapping.antt =====
-- The target of the container on the small disk, written into a cache whose old file is stale.
use helen_gamehook.Common.Words.{Bytes}
use helen_gamehook.Common.{
  ◌≡◌, ◌⊎◌, refl, arith, true, ltb, ◌==◌, [], ◌∷◌, length, slice, none, some, if◌then◌else◌,
}
use helen_gamehook.Source.Delta.Mapped.{
  AreGranted, Materialized, Refused, materialize_resolved_target-Materialized,
  resolve_for_mapping-target,
}
use helen_gamehook.Source.Delta.Materialize.{
  Answers, Cache, write_loop, write_base_bytes_to_stream, write_chunk, write_chunks, finish,
  after_chunks, has_target_fingerprint, is_resolved_file_valid, materialize_resolved_target,
  resolve_for_mapping,
}
use helen_gamehook.Source.Delta.Target.{target}
use helen_gamehook.Tests.Disk.{base, loaded, zeros}
use helen_gamehook.Tests.Files.{loaded-IsBase, loaded-IsWellFormed}

-- Every call goes through, and only files of six bytes have the target's digest.
abbrev willing : Answers
willing = record {
  directory_created = true;
  output_opens = true;
  writes = λ n. true;
  closes = true;
  removes = true;
  renames = true;
  sha256 = λ bytes. if length bytes == 6 then some zeros else none;
}

abbrev stale : Cache
stale = record { resolved = some (1 ∷ []); temporary = some (2 ∷ []) }

materialize_resolved_target-Materialized_example :
    Materialized willing loaded base stale
      (materialize_resolved_target willing loaded (some base) stale)
materialize_resolved_target-Materialized_example =
    materialize_resolved_target-Materialized willing loaded base loaded-IsWellFormed loaded-IsBase
      (omega arith) stale

resolve_for_mapping-target_example :
    let r = resolve_for_mapping willing loaded (some base) stale in
    ((bytes : Bytes) × (r.0 ≡ some (some bytes))
      × (some (1 ∷ []) ≡ some bytes)
      × (has_target_fingerprint willing loaded bytes ≡ true))
    ⊎ (((r.0 ≡ some (some (target loaded base))) × AreGranted willing loaded base)
        ⊎ ((r.0 ≡ none) × Refused willing loaded base))
resolve_for_mapping-target_example =
    resolve_for_mapping-target willing loaded base loaded-IsWellFormed loaded-IsBase (omega arith)
      stale

-- A disk that is full behind the fifth byte: the old file stays, and nothing is mapped.
abbrev full_disk : Answers
full_disk = record willing { writes = λ n. ltb n 6 }

kept_on_full_disk :
    resolve_for_mapping full_disk loaded (some base) stale
    ≡ (none, record { resolved = some (1 ∷ []); temporary = none })
unfolding resolve_for_mapping materialize_resolved_target is_resolved_file_valid
    has_target_fingerprint write_chunks after_chunks write_chunk write_base_bytes_to_stream
    write_loop finish slice
kept_on_full_disk = refl
