-- ===== src/Files.antt =====
-- The file system and the hash provider as the runtime sees them, parameters of the model: what the
-- Windows calls behind `std::filesystem`, `std::ifstream` and CryptoAPI answer.
pub mod Fingerprint
use helen_gamehook.Common.{ℕ, Bool, Option, ◌≡◌, some}
use helen_gamehook.Common.Words.{Bytes, AreBytes}
use helen_gamehook.Paths.{FilePath, Text}

pub record FileSystem : Type 0 where
  -- False also where the call reports an error.
  pub exists : FilePath → Bool
  pub is_directory : FilePath → Bool
  pub is_regular_file : FilePath → Bool
  -- None where the call reports an error.
  pub file_size : FilePath → Option ℕ
  -- What a binary input stream on the path yields, none where it does not open.
  pub contents : FilePath → Option Bytes
  -- `weakly_canonical`, none where it reports an error.
  pub weakly_canonical : FilePath → Option FilePath
  -- The SHA-256 digest in lowercase hexadecimal text, none where the provider fails.
  pub sha256 : Bytes → Option Text

-- A stream yields bytes.
abbrev pub YieldsBytes : FileSystem → Type 0
YieldsBytes fs = (p : FilePath) (bytes : Bytes) → fs.contents p ≡ some bytes → AreBytes bytes
