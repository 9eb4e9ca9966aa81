-- ===== src/Manifest.antt =====
-- include/HelenHook/VirtualFile*.h and PackScopedVirtualFileRegistration.h: the declarations of a
-- pack's manifest that the virtual files read.
pub mod Assets
use helen_gamehook.Common.{ℕ}
use helen_gamehook.Paths.{FilePath, Text}
use Assets.{Resolver}

pub record HashDefinition : Type 0 where
  pub file_size : ℕ
  pub sha256 : Text

pub data SourceKind : Type 0 where
  full_file delta_file : SourceKind

pub record SourceDefinition : Type 0 where
  pub kind : SourceKind
  pub path : FilePath
  pub base : HashDefinition
  pub target : HashDefinition
  pub chunk_size : ℕ

pub record VirtualFileDefinition : Type 0 where
  pub id : Text
  pub game_path : FilePath
  pub mode : Text
  pub source : SourceDefinition

pub record Registration : Type 0 where
  pub pack_id : Text
  pub build_id : Text
  pub asset_resolver : Resolver
  pub definition : VirtualFileDefinition
