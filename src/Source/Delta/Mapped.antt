-- ===== src/Source/Delta/Mapped.antt =====
-- HelenRuntime/DeltaVirtualFileSource.cpp: what is mapped is the target file.
use helen_gamehook.Common.Words.{Bytes}
use helen_gamehook.Common.{
  ℕ, ◌≤◌, ◌≡◌, refl, ap, ◌∙◌, ◌⊎◌, inl, inr, Bool, true, false, [], length, Option, none, some,
  if◌then◌else◌, arith, Bool-cases,
}
use helen_gamehook.Hgdelta.Layout.{IsWellFormed}
use helen_gamehook.Hgdelta.{HgdeltaFile}
use helen_gamehook.Source.Delta.Materialize.{
  Answers, Cache, Copied, write_chunks, finish, after_chunks, materialize_resolved_target,
  resolve_for_mapping, has_target_fingerprint, is_resolved_file_valid,
}
use helen_gamehook.Source.Delta.Read.{IsBase}
use helen_gamehook.Source.Delta.Target.{target}
use helen_gamehook.Source.{max_size}
use helen_gamehook.Source.Delta.Written.{IsWriteEnd, write_chunks-Wrote}
use helen_gamehook.Source.Delta.Blocks.{AreWritten, Wrote}

module _ (answers : Answers) where
  -- A call on the way that did not go through, of the writes one that the chunks ask for; or the
  -- target does not have the declared size and digest.
  abbrev pub Refused : HgdeltaFile → Bytes → Type 0
  Refused d base =
      (answers.directory_created ≡ false)
      ⊎ ((answers.output_opens ≡ false)
          ⊎ (((n : ℕ) × IsWriteEnd 0 d.chunks n × (answers.writes n ≡ false))
              ⊎ ((answers.closes ≡ false)
                  ⊎ ((has_target_fingerprint answers d (target d base) ≡ false)
                      ⊎ (answers.renames ≡ false)))))

  -- Every call went through, each write that the chunks ask for too, and the target has the declared
  -- size and digest.
  pub record AreGranted (d : HgdeltaFile) (base : Bytes) : Type 0 where
    pub created : answers.directory_created ≡ true
    pub opens : answers.output_opens ≡ true
    pub written : AreWritten answers (IsWriteEnd 0 d.chunks)
    pub closes : answers.closes ≡ true
    pub fingerprint : has_target_fingerprint answers d (target d base) ≡ true
    pub renames : answers.renames ≡ true

  -- The target is in the cache, and every call went through; or a call was refused, and the cached
  -- file is as before or gone.
  abbrev pub Materialized : HgdeltaFile → Bytes → Cache → Bool × Cache → Type 0
  Materialized d base cache r =
      ((r ≡ (true, record { resolved = some (target d base); temporary = none }))
        × AreGranted d base)
      ⊎ ((r.0 ≡ false) × ((r.1.resolved ≡ cache.resolved) ⊎ (r.1.resolved ≡ none)) × Refused d base)

  module _ (d : HgdeltaFile) (base : Bytes) (cache : Cache) where
    finish_cases :
        ((finish answers d cache (target d base)
            ≡ (true, record { resolved = some (target d base); temporary = none }))
          × (answers.closes ≡ true)
          × (has_target_fingerprint answers d (target d base) ≡ true)
          × (answers.renames ≡ true))
        ⊎ (((finish answers d cache (target d base)).0 ≡ false)
            × (((finish answers d cache (target d base)).1.resolved ≡ cache.resolved)
                ⊎ ((finish answers d cache (target d base)).1.resolved ≡ none))
            × Refused d base)
    unfolding finish
    finish_cases = ground (arith, Bool-cases (has_target_fingerprint answers d (target d base)))

    after_chunks-Materialized :
        (c : Copied)
        → answers.directory_created ≡ true
        → answers.output_opens ≡ true
        → Wrote answers (IsWriteEnd 0 d.chunks) (target d base) c
        → Materialized d base cache (after_chunks answers d cache c)
    unfolding after_chunks
    after_chunks-Materialized c created opens (inl (e, written)) = rw e (elim finish_cases [
      | inl (same, closes, fingerprint, renames) ↦ inl (
        same,
        record {
          created = created;
          opens = opens;
          written = written;
          closes = closes;
          fingerprint = fingerprint;
          renames = renames;
        },
      )
      | inr kept ↦ inr kept
    ])
    after_chunks-Materialized c created opens (inr (w, n, end, e, refused)) =
        rw e (inr (refl, inl refl, inr (inr (inl (n, end, refused)))))

    materialize_cases :
        ((materialize_resolved_target answers d (some base) cache).0 ≡ false)
          × ((materialize_resolved_target answers d (some base) cache).1.resolved ≡ cache.resolved)
          × ((answers.directory_created ≡ false) ⊎ (answers.output_opens ≡ false))
        ⊎ ((answers.directory_created ≡ true)
            × (answers.output_opens ≡ true)
            × (materialize_resolved_target answers d (some base) cache
                ≡ after_chunks answers d cache (write_chunks answers d base d.chunks [])))
    unfolding materialize_resolved_target
    materialize_cases = ground arith

  valid-some :
      (d : HgdeltaFile) (bytes : Bytes)
      → is_resolved_file_valid answers d (some bytes) ≡ true
      → has_target_fingerprint answers d bytes ≡ true
  unfolding is_resolved_file_valid
  valid-some d bytes h = h

  valid_cases :
      (d : HgdeltaFile) (file : Option Bytes)
      → ((bytes : Bytes) × (file ≡ some bytes)
          × (is_resolved_file_valid answers d file ≡ true)
          × (has_target_fingerprint answers d bytes ≡ true))
        ⊎ (is_resolved_file_valid answers d file ≡ false)
  valid_cases d none = inr (unfold is_resolved_file_valid in refl)
  valid_cases d (some bytes) = elim (Bool-cases (is_resolved_file_valid answers d (some bytes))) [
    | inl h ↦ inl (bytes, refl, h, valid-some d bytes h)
    | inr h ↦ inr h
  ]

  module _ (d : HgdeltaFile) (base : Bytes) (w : IsWellFormed d) (b : IsBase d base)
      (small : length d.payload_bytes ≤ max_size) (cache : Cache) where
    -- Over a well-formed container with a payload below 2^32 and a base file of the declared size,
    -- MaterializeResolvedTarget either answers true and leaves the target file in the cache, whole,
    -- and no temporary file, and then every call has gone through, each write too that the chunks ask
    -- for, and the target has the declared size and digest; or it answers false, one of these calls
    -- was refused or the target does not have the declared size and digest, and the cached file is as
    -- before or gone.
    pub materialize_resolved_target-Materialized :
        Materialized d base cache (materialize_resolved_target answers d (some base) cache)
    materialize_resolved_target-Materialized = elim (materialize_cases d base cache) [
      | inl (failed, same, refused) ↦ inr (failed, inl same, first_refused refused)
      | inr (created, opens, e) ↦ rw e (
          after_chunks-Materialized d base cache _ created opens
            (write_chunks-Wrote answers d base b small 0 d.chunks [] w.chunked))
    ]
      where
        first_refused :
            (answers.directory_created ≡ false) ⊎ (answers.output_opens ≡ false) → Refused d base
        first_refused (inl h) = inl h
        first_refused (inr h) = inr (inl h)

    abbrev made : Bool × Cache
    made = materialize_resolved_target answers d (some base) cache

    resolve_for_mapping-valid :
        is_resolved_file_valid answers d cache.resolved ≡ true
        → (resolve_for_mapping answers d (some base) cache).0 ≡ some cache.resolved
    unfolding resolve_for_mapping
    resolve_for_mapping-valid h = ground (arith, h)

    resolve_for_mapping-stale :
        is_resolved_file_valid answers d cache.resolved ≡ false
        → (resolve_for_mapping answers d (some base) cache).0
          ≡ (if made.0 then some made.1.resolved else none)
    unfolding resolve_for_mapping
    resolve_for_mapping-stale h = ground (arith, h)

    -- Under the same conditions, CreateFileMapping goes on to map a file of the cache that has the
    -- target's size and digest, or the target file, for which every call has gone through; else it
    -- gives up, and a call that the materialisation asks for was refused or the target does not have
    -- the declared size and digest.
    pub resolve_for_mapping-target :
        let r = resolve_for_mapping answers d (some base) cache in
        ((bytes : Bytes) × (r.0 ≡ some (some bytes))
          × (cache.resolved ≡ some bytes)
          × (has_target_fingerprint answers d bytes ≡ true))
        ⊎ (((r.0 ≡ some (some (target d base))) × AreGranted d base)
            ⊎ ((r.0 ≡ none) × Refused d base))
    resolve_for_mapping-target = elim (valid_cases d cache.resolved) [
      | inl (bytes, e, valid, found) ↦
          inl (bytes, resolve_for_mapping-valid valid ∙ ap some e, e, found)
      | inr stale ↦ elim materialize_resolved_target-Materialized [
        | inl (e, granted) ↦
            inr (inl (resolve_for_mapping-stale stale ∙ ground (arith, e), granted))
        | inr (failed, _, refused) ↦
            inr (inr (resolve_for_mapping-stale stale ∙ ground (arith, failed), refused))
      ]
    ]
