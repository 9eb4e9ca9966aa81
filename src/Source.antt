-- ===== src/Source.antt =====
-- include/HelenHook/VirtualFileSource.h: what a backing source answers to a read, and the source
-- that holds the whole replacement, HelenRuntime/FullFileVirtualFileSource.cpp.
pub mod Delta
pub mod Full
use helen_gamehook.Common.{
  ℕ, ◌+◌, ◌-◌, ◌*◌, ◌^◌, Bool, true, false, [], ltb, ◌==◌, ◌||◌, if◌then◌else◌, length, slice, min,
  Option, none, some,
}
use helen_gamehook.Common.Words.{Bytes, u32_mod}

-- `read` returned true, or false, with the bytes that are in the front of the buffer (`bytes_read`
-- of them). `spinning` is a loop whose fuel ran out.
pub data ReadOutcome : Type 0 where
  done : Bytes → ReadOutcome
  failed : Bytes → ReadOutcome
  spinning : ReadOutcome

abbrev pub max_size : ℕ
max_size = u32_mod - 1

-- `FullFileVirtualFileSource::GetSize`
unfoldable pub full_size : Bytes → ℕ
full_size bytes = length bytes

-- `FullFileVirtualFileSource::Read`; the flag says that the buffer is not null.
unfoldable pub full_read : Bytes → ℕ → Bool → ℕ → ReadOutcome
unfolding full_size
full_read bytes offset has_buffer bytes_to_read =
    if bytes_to_read == 0
    then done []
    else if has_buffer
    then (let size = full_size bytes in
        let start = min offset size in
        let available = size - start in
        let copied = min available bytes_to_read in
        if copied == 0
        then done []
        else if ltb max_size copied
        then failed []
        else done (slice start copied bytes))
    else failed []

-- The file mapping that a source is asked for: its size, or the error code.
pub data MappingSize : Type 0 where
  mapped : ℕ → MappingSize
  file_invalid invalid_parameter : MappingSize

-- `FullFileVirtualFileSource::CreateFileMapping`, up to the calls that make the mapping.
unfoldable pub full_mapping_size : Bytes → ℕ → ℕ → MappingSize
unfolding full_size
full_mapping_size bytes size_high size_low =
    if length bytes == 0
    then file_invalid
    else (let requested = size_high * u32_mod + size_low in
        let payload = full_size bytes in
        let mapping = if requested == 0 then payload else requested in
        if ltb mapping payload || ltb max_size mapping then invalid_parameter else mapped mapping)
