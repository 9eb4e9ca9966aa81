-- ===== src/VirtualFiles/Handles/Lifecycle.antt =====
-- HelenRuntime/VirtualFileService.cpp: the open handles over any history of calls.
use helen_gamehook.Common.Int.{ℤ}
use helen_gamehook.Common.Maps.Laws.{find-assign, find-emplace, find-erase}
use helen_gamehook.Common.Maps.{find}
use helen_gamehook.Common.Results.{err}
use helen_gamehook.Common.{
  ℕ, ◌≡◌, ◌≢◌, Bool, true, false, List, [], ◌∷◌, Option, none, some, arith, take, slice, ◌==◌,
}
use helen_gamehook.Common.Words.{Bytes}
use helen_gamehook.Files.{FileSystem}
use helen_gamehook.Manifest.{Registration}
use helen_gamehook.Paths.Keys.{nat_key}
use helen_gamehook.Paths.{Text, FilePath}
use helen_gamehook.VirtualFiles.Handles.{
  invalid_handle, is_null_handle, is_virtual_handle, lookup_handle, handle_source, with_position,
  open_virtual_file, read, seek, close,
}
use helen_gamehook.VirtualFiles.Handles.Reads.{Holds, AreCounts, sum, reads, delivered, reads-slice}
use helen_gamehook.VirtualFiles.Sources.{Source}
use helen_gamehook.VirtualFiles.{
  Service, VirtualHandle, Registered, new_service, register_virtual_file, normalize_lookup_path,
  find_registered_virtual_file,
}

-- The calls that change the service, with what Windows answers within each.
pub data Call : Type 0 where
  registers : Registration → Call
  opens : ℕ → FilePath → Call
  reads_from : ℕ → Bool → Bool → ℕ → Call
  seeks : ℕ → ℤ → ℕ → Call
  closes : ℕ → Bool → Call

unfoldable pub step : FileSystem → Service → Call → Service
step fs s (registers r) = (register_virtual_file fs s r).1
step fs s (opens event path) = (open_virtual_file fs s event path).1
step fs s (reads_from handle has_buffer has_count count) =
    (read fs s handle has_buffer has_count count).1
step fs s (seeks handle distance method) = (seek s handle distance method).1
step fs s (closes handle flag) = (close s handle flag).1

unfoldable pub run : FileSystem → Service → List Call → Service
run fs s [] = s
run fs s (c ∷ cs) = run fs (step fs s c) cs

-- An open handle is not one of the null handles, and has a source.
abbrev pub IsSoundAt : ℕ → Option VirtualHandle → Type 0
IsSoundAt k none = Unit {0}
IsSoundAt k (some h) = (is_null_handle k ≡ false) × (h.source ≢ none)

abbrev pub IsSound : Service → Type 0
IsSound s = (k : ℕ) → IsSoundAt k (find k s.open_handles)

-- The handle that a call may change.
abbrev pub names_handle : Call → ℕ → Bool
names_handle (registers r) k = false
names_handle (opens event path) k = event == k
names_handle (reads_from handle _ _ _) k = handle == k
names_handle (seeks handle _ _) k = handle == k
names_handle (closes handle _) k = handle == k

-- A call leaves every handle alone that it does not name.
pub step-names_handle :
    (fs : FileSystem) (s : Service) (c : Call) (k : ℕ)
    → names_handle c k ≡ false
    → find k (step fs s c).open_handles ≡ find k s.open_handles
unfolding step
step-names_handle fs s (registers r) k h = unfold register_virtual_file in ground arith
step-names_handle fs s (opens event path) k h =
    unfold open_virtual_file in grind (arith, find-emplace)
step-names_handle fs s (reads_from handle has_buffer has_count count) k h =
    unfold read with_position in grind (arith, find-assign)
step-names_handle fs s (seeks handle distance method) k h =
    unfold seek with_position in grind (arith, find-assign)
step-names_handle fs s (closes handle flag) k h =
    unfold close in ground (arith, find-erase handle k s.open_handles)

step-IsSoundAt :
    (fs : FileSystem) (s : Service) (c : Call) (k : ℕ)
    → IsSoundAt k (find k s.open_handles)
    → IsSoundAt k (find k (step fs s c).open_handles)
unfolding step
step-IsSoundAt fs s (registers r) k h = unfold register_virtual_file in ground arith
step-IsSoundAt fs s (opens event path) k h = unfold open_virtual_file in grind (arith, find-emplace)
step-IsSoundAt fs s (reads_from handle has_buffer has_count count) k h =
    unfold read with_position lookup_handle in grind (arith, find-assign)
step-IsSoundAt fs s (seeks handle distance method) k h =
    unfold seek with_position lookup_handle in grind (arith, find-assign)
step-IsSoundAt fs s (closes handle flag) k h =
    unfold close in ground (arith, find-erase handle k s.open_handles)

run-IsSound : (fs : FileSystem) (s : Service) (cs : List Call) → IsSound s → IsSound (run fs s cs)
unfolding run
run-IsSound fs s [] h = h
run-IsSound fs s (c ∷ cs) h = run-IsSound fs (step fs s c) cs (λ k. step-IsSoundAt fs s c k (h k))

-- After any history of calls on a new service, every open handle has a source and is neither of the
-- null handles.
pub run-new_service-IsSoundAt :
    (fs : FileSystem) (cache : FilePath) (cs : List Call) (k : ℕ)
    → IsSoundAt k (find k (run fs (new_service cache) cs).open_handles)
unfolding new_service
run-new_service-IsSoundAt fs cache cs k =
    run-IsSound fs (new_service cache) cs (λ j. unfold find in tt) k

-- A closed handle is no longer virtual, whatever `CloseHandle` answers, and every later call on it
-- finds an invalid handle.
pub close-is_virtual_handle :
    (s : Service) (handle : ℕ) (flag : Bool)
    → is_virtual_handle s handle ≡ true
    → (is_virtual_handle (close s handle flag).1 handle ≡ false)
      × (lookup_handle (close s handle flag).1 handle ≡ err invalid_handle)
unfolding close is_virtual_handle lookup_handle
close-is_virtual_handle s handle flag h = grind (arith, find-erase)

-- An open that is refused leaves the service as it was.
pub open_virtual_file-none :
    (fs : FileSystem) (s : Service) (event : ℕ) (path : FilePath)
    → (open_virtual_file fs s event path).0 ≡ none
    → (open_virtual_file fs s event path).1 ≡ s
unfolding open_virtual_file
open_virtual_file-none fs s event path h = ground arith

-- An open that finds a registration and its source returns the event's handle, at the start.
pub open_virtual_file_found :
    (fs : FileSystem) (s : Service) (event : ℕ) (path : FilePath) (lookup : Text)
    (entry : Registered) (source : Source)
    → normalize_lookup_path path ≡ some lookup
    → find_registered_virtual_file s lookup ≡ some entry
    → handle_source fs s path entry ≡ some source
    → is_null_handle event ≡ false
    → find event s.open_handles ≡ none
    → let r = open_virtual_file fs s event path in
      (r.0 ≡ some event)
      × (find event r.1.open_handles ≡ some (record { source = some source; read_position = 0 }))
unfolding open_virtual_file
open_virtual_file_found fs s event path lookup entry source l r h n f =
    let opened : VirtualHandle = record { source = some source; read_position = 0 } in
    (ground arith, ground (arith, find-emplace event event opened s.open_handles))

-- A game file that a registration replaces: its open succeeds, and reads of any counts from the new
-- handle deliver the replacement from its first byte on.
pub open-reads :
    (fs : FileSystem) (s : Service) (event : ℕ) (path : FilePath) (lookup : Text)
    (entry : Registered) (source : Source) (content : Bytes) (cs : List ℕ)
    → normalize_lookup_path path ≡ some lookup
    → find_registered_virtual_file s lookup ≡ some entry
    → handle_source fs s path entry ≡ some source
    → is_null_handle event ≡ false
    → find event s.open_handles ≡ none
    → Holds fs source content
    → AreCounts cs
    → let r = open_virtual_file fs s event path in
      (r.0 ≡ some event) × (delivered (reads fs r.1 event cs).0 ≡ take (sum cs) content)
open-reads fs s event path lookup entry source content cs l r h n f o c =
    let (opened, at_start) =
      open_virtual_file_found fs s event path lookup entry source l r h n f in
    let delivers =
      (reads-slice fs source content o cs (open_virtual_file fs s event path).1 event 0 n at_start
        (omega arith) c).0 in
    (opened, unfold slice in delivers)
