-- ===== src/VirtualFiles/Handles/Seeks.antt =====
-- HelenRuntime/VirtualFileService.cpp: where a seek leaves the read position.
use helen_gamehook.Common.Int.{ℤ, pos, negsuc, ◌+ℤ◌, ◌-ℤ◌, ◌≤ℤ◌}
use helen_gamehook.Common.Results.{Result, ok, err}
use helen_gamehook.Common.{ℕ, ◌≤◌, ◌≡◌, ◌+◌, arith, false, some}
use helen_gamehook.Common.Maps.{find}
use helen_gamehook.Paths.Keys.{nat_key}
use helen_gamehook.VirtualFiles.Handles.{
  LastError, invalid_parameter, negative_seek, is_null_handle, lookup_handle, seek_base,
  seek_target, seek, max_int64, min_int64, with_position, or_invalid,
}
use helen_gamehook.VirtualFiles.{Service, VirtualHandle}

-- What a seek by `offset` from `base` comes to: the sum, in exact integers, if a file position can
-- be that; else the error that says on which side it falls.
abbrev pub SeeksTo : ℕ → ℤ → Result LastError ℕ → Type 0
SeeksTo base offset (ok target) = (pos base +ℤ offset ≡ pos target) × (target ≤ max_int64)
SeeksTo base offset (err negative_seek) = pos base +ℤ offset ≤ℤ negsuc 0
SeeksTo base offset (err invalid_parameter) = pos (max_int64 + 1) ≤ℤ pos base +ℤ offset
SeeksTo base offset (err _) = ⊥

seek_target-SeeksTo :
    (base : ℕ) (offset : ℤ)
    → base ≤ max_int64
    → min_int64 ≤ℤ offset
    → offset ≤ℤ pos max_int64
    → SeeksTo base offset (seek_target base offset)
unfolding seek_target ◌+ℤ◌ ◌-ℤ◌
seek_target-SeeksTo base (pos n) b l h = ground arith
seek_target-SeeksTo base (negsuc n) b l h = ground arith

seek_base-le : (h : VirtualHandle) (method : ℕ) {b : ℕ} → seek_base h method ≡ ok b → b ≤ max_int64
unfolding seek_base or_invalid
seek_base-le h method e = ground arith

-- The service behind a seek of one handle.
abbrev pub after_seek : Service → ℕ → VirtualHandle → Result LastError ℕ → Service
after_seek s handle h (ok target) = with_position s handle h target
after_seek s handle h (err e) = s

-- A seek on an open handle, from the base that its method names, goes to the exact integer sum if
-- that is a file position, and else reports the error and leaves every handle as it was.
pub seek-SeeksTo :
    (s : Service) (handle : ℕ) (distance : ℤ) (method : ℕ) (h : VirtualHandle) (b : ℕ)
    → is_null_handle handle ≡ false
    → find handle s.open_handles ≡ some h
    → seek_base h method ≡ ok b
    → min_int64 ≤ℤ distance
    → distance ≤ℤ pos max_int64
    → let r = seek s handle distance method in
      SeeksTo b distance r.0 × (r.1 ≡ after_seek s handle h r.0)
unfolding seek lookup_handle
seek-SeeksTo s handle distance method h b n f e l u =
    ground (arith, seek_target-SeeksTo b distance (seek_base-le h method e) l u)
