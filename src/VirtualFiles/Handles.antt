-- ===== src/VirtualFiles/Handles.antt =====
-- HelenRuntime/VirtualFileService.cpp: the calls on one handle. An error is the code that the call
-- leaves for `GetLastError`; `unset` is a refusal that sets none.
pub mod Seeks
pub mod Reads
pub mod Lifecycle
use helen_gamehook.Common.Int.{ℤ, pos, negsuc, ◌+ℤ◌, ◌-ℤ◌, ltb_ℤ, pos_part}
use helen_gamehook.Common.Maps.{find, contains, emplace, assign, erase}
use helen_gamehook.Common.Results.{Result, ok, err, ◌>>=◌, ◌>>◌, reject}
use helen_gamehook.Common.{
  ℕ, ◌+◌, ◌-◌, ◌^◌, Bool, true, false, not, ◌&&◌, ◌||◌, ltb, ◌==◌, if◌then◌else◌, length, Option,
  none, some, min, [],
}
use helen_gamehook.Common.Words.{Bytes, u32_mod, wrap64}
use helen_gamehook.Files.{FileSystem}
use helen_gamehook.Paths.Keys.{nat_key}
use helen_gamehook.Paths.{FilePath}
use helen_gamehook.Source.{ReadOutcome, done, failed, spinning}
use helen_gamehook.VirtualFiles.Sources.{Source, source_size, source_read, create_source}
use helen_gamehook.VirtualFiles.{
  Registered, VirtualHandle, Service, normalize_lookup_path, find_registered_virtual_file,
}

pub data LastError : Type 0 where
  invalid_parameter invalid_handle negative_seek unset : LastError

-- `nullptr` or `INVALID_HANDLE_VALUE`
abbrev pub is_null_handle : ℕ → Bool
is_null_handle handle = handle == 0 || handle == u32_mod - 1

-- A registration's shared source, or a new one for the opened path.
unfoldable pub handle_source : FileSystem → Service → FilePath → Registered → Option Source
handle_source fs s path entry = elim entry.shared_source [
  | some source ↦ some source
  | none ↦ create_source fs s.cache_directory entry.registration path
]

-- `OpenVirtualFile`; `event` is what `CreateEventW` returns.
unfoldable pub open_virtual_file : FileSystem → Service → ℕ → FilePath → Option ℕ × Service
open_virtual_file fs s event path = elim (normalize_lookup_path path) [
  | none ↦ (none, s)
  | some lookup ↦
      if is_null_handle event then (none, s) else elim (find_registered_virtual_file s lookup) [
        | none ↦ (none, s)
        | some entry ↦ elim (handle_source fs s path entry) [
          | none ↦ (none, s)
          | some source ↦
              if contains event s.open_handles
              then (none, s)
              else (let opened : VirtualHandle = record {
                source = some source;
                read_position = 0;
              } in
                  (some event, record s { open_handles = emplace event opened s.open_handles }))
        ]
      ]
]

-- `IsVirtualHandle`
unfoldable pub is_virtual_handle : Service → ℕ → Bool
is_virtual_handle s handle = if is_null_handle handle then false else contains handle s.open_handles

-- The lookup that every call on a handle begins with.
unfoldable pub lookup_handle : Service → ℕ → Result LastError VirtualHandle
lookup_handle s handle =
    if is_null_handle handle
    then err invalid_handle
    else elim (find handle s.open_handles) [ none ↦ err invalid_handle | some h ↦ ok h ]

unfoldable pub with_position : Service → ℕ → VirtualHandle → ℕ → Service
with_position s handle h position = record s {
  open_handles = assign handle (record h { read_position = position }) s.open_handles;
}

unfoldable pub or_invalid : Option Source → Result LastError Source
or_invalid none = err invalid_handle
or_invalid (some source) = ok source

-- The bytes that a source returns, at most as many as a `DWORD` counts.
unfoldable pub copied_bytes : ReadOutcome → Result LastError Bytes
copied_bytes (done bytes) =
    if ltb (u32_mod - 1) (length bytes) then err invalid_parameter else ok bytes
copied_bytes (failed bytes) = err unset
copied_bytes spinning = err unset

-- `Read`: the bytes that the buffer gets, and the position behind them.
unfoldable pub read_bytes : FileSystem → VirtualHandle → Bool → ℕ → Result LastError (Bytes × ℕ)
unfolding copied_bytes
read_bytes fs h has_buffer count = if count == 0 then ok ([], h.read_position) else (do
  reject (not has_buffer) invalid_parameter
  source ← or_invalid h.source
  let start = min h.read_position (source_size source)
  bytes ← copied_bytes (source_read fs source start has_buffer count)
  ok (bytes, wrap64 (start + length bytes)))

-- `Read` on a service; the second flag says that the place for the count is not null.
unfoldable pub read : FileSystem → Service → ℕ → Bool → Bool → ℕ → Result LastError Bytes × Service
unfolding read_bytes
read fs s handle has_buffer has_count count =
    if not has_count then (err invalid_parameter, s) else elim (lookup_handle s handle) [
      | err e ↦ (err e, s)
      | ok h ↦ elim (read_bytes fs h has_buffer count) [
        | err e ↦ (err e, s)
        | ok (bytes, position) ↦ (ok bytes, with_position s handle h position)
      ]
    ]

-- The limits of a signed 64-bit word.
abbrev pub max_int64 : ℕ
max_int64 = 2 ^ 63 - 1

abbrev pub min_int64 : ℤ
min_int64 = negsuc max_int64

abbrev pub file_begin : ℕ
file_begin = 0

abbrev pub file_current : ℕ
file_current = 1

abbrev pub file_end : ℕ
file_end = 2

abbrev signed : ℕ → Result LastError ℕ
signed n = if ltb max_int64 n then err invalid_parameter else ok n

-- Where a seek counts from.
unfoldable pub seek_base : VirtualHandle → ℕ → Result LastError ℕ
seek_base h method =
    if method == file_begin
    then ok 0
    else if method == file_current
    then signed h.read_position
    else if method == file_end
    then (do source ← or_invalid h.source; signed (source_size source))
    else err invalid_parameter

-- The checks of a seek on the sum, written so that no step overflows.
unfoldable pub seek_target : ℕ → ℤ → Result LastError ℕ
seek_target base offset = do
  reject
      (ltb_ℤ (pos 0) offset && ltb_ℤ (pos max_int64 -ℤ offset) (pos base)
        || ltb_ℤ offset (pos 0) && ltb_ℤ (pos base) (min_int64 -ℤ offset))
      invalid_parameter
  let target = pos base +ℤ offset
  reject (ltb_ℤ target (pos 0)) negative_seek
  ok (pos_part target)

-- `Seek`: the new position, which the caller may ask for.
unfoldable pub seek : Service → ℕ → ℤ → ℕ → Result LastError ℕ × Service
seek s handle distance method = elim (lookup_handle s handle) [
  | err e ↦ (err e, s)
  | ok h ↦ elim (do base ← seek_base h method; seek_target base distance) [
    | err e ↦ (err e, s)
    | ok target ↦ (ok target, with_position s handle h target)
  ]
]

-- `GetSize`; the flag says that the place for the size is not null.
unfoldable pub get_size : Service → ℕ → Bool → Result LastError ℕ
get_size s handle has_size = do
  reject (not has_size) invalid_parameter
  h ← lookup_handle s handle
  source ← or_invalid h.source
  signed (source_size source)

-- `Close`; the flag is what `CloseHandle` returns.
unfoldable pub close : Service → ℕ → Bool → Result LastError (Unit {0}) × Service
close s handle closes = elim (lookup_handle s handle) [
  | err e ↦ (err e, s)
  | ok h ↦ (
    (if closes then ok tt else err unset),
    record s { open_handles = erase handle s.open_handles },
  )
]
