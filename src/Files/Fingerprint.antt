-- ===== src/Files/Fingerprint.antt =====
-- HelenRuntime/FileFingerprint.cpp: the size and digest of a file.
use helen_gamehook.Common.{ℕ, not}
use helen_gamehook.Common.Results.{Result, ok, ◌>>=◌, ◌>>◌, reject, or_throw}
use helen_gamehook.Files.{FileSystem}
use helen_gamehook.Paths.{FilePath, Text, path_empty}

pub record FileFingerprint : Type 0 where
  pub file_size : ℕ
  pub sha256 : Text

pub data Error : Type 0 where
  empty_path not_regular_file size_unreadable not_hashed : Error

-- `FileFingerprint::FromPath`; the digest fails if the stream does not open.
unfoldable pub from_path : FileSystem → FilePath → Result Error FileFingerprint
from_path fs path = do
  reject (path_empty path) empty_path
  reject (not (fs.is_regular_file path)) not_regular_file
  size ← or_throw (fs.file_size path) size_unreadable
  bytes ← or_throw (fs.contents path) not_hashed
  digest ← or_throw (fs.sha256 bytes) not_hashed
  ok (record { file_size = size; sha256 = digest })
