-- ===== src/Hgdelta/Table/Checked.antt =====
-- HelenRuntime/HgdeltaFile.cpp: what is known of a number that was read, and of a chunk table entry
-- that passed the checks.
use helen_gamehook.Common.{ℕ, ◌+◌, ◌*◌, ◌≤◌, ◌<◌, ◌≡◌, ◌⊎◌, arith, length}
use helen_gamehook.Common.Results.{Result, ok, err}
use helen_gamehook.Common.Words.{Bytes, AreBytes, u32_mod, u64_mod, wrap64}
use helen_gamehook.Common.Words.Bounds.{little_endian-slice-lt}
use helen_gamehook.Hgdelta.Table.{
  Error, read_u32, read_u64, check_place, check_source, validate_chunk_entry,
}

-- The number that is read, if any, is below a bound.
abbrev pub Below : ℕ → Result Error ℕ → Type 0
Below n (ok v) = v < n
Below n (err e) = Unit {0}

pub read_u32-Below : (bs : Bytes) (i : ℕ) → AreBytes bs → Below u32_mod (read_u32 bs i)
unfolding read_u32
read_u32-Below bs i h = ground (arith, little_endian-slice-lt i 4 bs h)

pub read_u64-Below : (bs : Bytes) (i : ℕ) → AreBytes bs → Below u64_mod (read_u64 bs i)
unfolding read_u64
read_u64-Below bs i h = ground (arith, little_endian-slice-lt i 8 bs h)

-- What the checks leave of an entry, for the offset that they computed.
pub record Accepted (kind chunk_size index count base_size target_size size poff psize plen at : ℕ)
    : Type 0 where
  pub not_empty : 0 < size
  pub within_target : at + size ≤ target_size
  pub full : index + 1 < count → size ≡ chunk_size
  pub within_nominal : size ≤ chunk_size
  pub kinds :
      ((kind ≡ 0) × (at + size ≤ base_size) × (poff ≡ 0) × (psize ≡ 0))
      ⊎ ((kind ≡ 1) × (psize ≡ size))
  pub within_payload : poff + psize ≤ plen

pub validate_chunk_entry-Accepted :
    (kind chunk_size index count base_size target_size size poff psize : ℕ) (payload : Bytes)
    → validate_chunk_entry kind chunk_size index count base_size target_size size poff psize payload
      ≡ ok tt
    → Accepted kind chunk_size index count base_size target_size size poff psize
        (length payload)
        (wrap64 (index * chunk_size))
unfolding validate_chunk_entry check_place check_source
validate_chunk_entry-Accepted kind chunk_size index count base_size target_size size poff psize
      payload e =
    record {
      not_empty = ground arith;
      within_target = ground arith;
      full = ground arith;
      within_nominal = ground arith;
      kinds = ground arith;
      within_payload = ground arith;
    }
