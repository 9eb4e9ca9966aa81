-- ===== src/Source/Full.antt =====
-- HelenRuntime/FullFileVirtualFileSource.cpp: what a read of the whole replacement gives.
use native.Mathlib.Decide.{dec_lt}
use helen_gamehook.Common.{ℕ, zero, suc, ◌<◌, ◌≡◌, refl, true, length, slice, arith}
use helen_gamehook.Common.Lists.Slices.{slice_past_end, slice_outside}
use helen_gamehook.Common.Words.{Bytes, u32_mod}
use helen_gamehook.Source.{done, full_read, full_size}

-- A read gives the part of the bytes that was asked for, cut at the end.
pub full_read-slice :
    (bytes : Bytes) (offset count : ℕ)
    → count < u32_mod
    → full_read bytes offset true count ≡ done (slice offset count bytes)
unfolding full_read full_size
full_read-slice bytes offset zero h = unfold slice in refl
full_read-slice bytes offset (suc k) h = elim (dec_lt offset (length bytes)) [
  | yes inside ↦ ground (arith, slice_past_end offset (suc k) bytes)
  | no outside ↦ ground (arith, slice_outside offset (suc k) bytes (omega arith))
]
