-- ===== src/Tests/Disk.antt =====
-- A disk with one game file and one container that turns its five bytes into six.
use helen_gamehook.Common.Words.{Bytes, AreBytes}
use helen_gamehook.Common.{
  ℕ, zero, suc, ◌≡◌, ◌≤◌, refl, ap, subst, Bool, true, false, ◌&&◌, ltb, List, [], ◌∷◌, ◌++◌,
  length, Option, none, some, if◌then◌else◌, arith,
}
use helen_gamehook.Files.{FileSystem}
use helen_gamehook.Hgdelta.Table.{base_copy, delta_bytes}
use helen_gamehook.Hgdelta.{HgdeltaFile, magic}
use helen_gamehook.Manifest.Assets.{Resolver}
use helen_gamehook.Manifest.{delta_file, VirtualFileDefinition, Registration}
use helen_gamehook.Paths.{Text, codes, text_eq, FilePath}
use helen_gamehook.Source.Delta.Accepted.{IsSteady}
use helen_gamehook.Source.Delta.Open.{DeltaSource}
use helen_gamehook.Source.Delta.{max_stream_offset}

abbrev pub relative : List Text → FilePath
relative names = record { root_name = []; rooted = false; names = names }

abbrev replicate : ℕ → ℕ → Bytes
replicate zero b = []
replicate (suc n) b = b ∷ replicate n b

abbrev small32 : ℕ → Bytes
small32 n = n ∷ 0 ∷ 0 ∷ 0 ∷ []

abbrev small64 : ℕ → Bytes
small64 n = small32 n ++ small32 0

abbrev pub base : Bytes
base = 1 ∷ 2 ∷ 3 ∷ 4 ∷ 5 ∷ []

abbrev table : Bytes
table =
    small32 0
    ++ (small32 4
        ++ (small64 0 ++ (small32 0 ++ (small32 1 ++ (small32 2 ++ (small64 0 ++ small32 2))))))

-- The first chunk is copied from the base, the second one is in the payload.
abbrev pub container : Bytes
container =
    magic
    ++ (small32 1
        ++ (small32 0
            ++ (small32 4
                ++ (small64 5
                    ++ (small64 6
                        ++ (replicate 64 0
                            ++ (small32 2
                                ++ (small64 116 ++ (small64 156 ++ (table ++ (9 ∷ 8 ∷ [])))))))))))

abbrev pub zeros : Text
zeros = replicate 64 48

abbrev is_game : List Text → Bool
is_game [] = false
is_game (n ∷ ns) = text_eq n (codes "game")

unfoldable pub contents : FilePath → Option Bytes
unfolding text_eq
contents p = some (if is_game p.names then base else container)

unfoldable pub file_size : FilePath → Option ℕ
unfolding contents
file_size p = elim (contents p) [ none ↦ none | some bytes ↦ some (length bytes) ]

abbrev pub disk : FileSystem
disk = record {
  exists = λ p. true;
  is_directory = λ p. true;
  is_regular_file = λ p. true;
  file_size = file_size;
  contents = contents;
  weakly_canonical = λ p. some p;
  sha256 = λ bytes. some zeros;
}

abbrev all_bytes : Bytes → Bool
all_bytes [] = true
all_bytes (b ∷ bs) = ltb b 256 && all_bytes bs

all_bytes-AreBytes : (bs : Bytes) → all_bytes bs ≡ true → AreBytes bs
all_bytes-AreBytes [] h = tt
all_bytes-AreBytes (b ∷ bs) h = (ground arith, all_bytes-AreBytes bs (ground arith))

yields_bytes : (b : Bool) → all_bytes (if b then base else container) ≡ true
yields_bytes true = refl
yields_bytes false = refl

short : (b : Bool) → length (if b then base else container) ≤ max_stream_offset
short true = omega arith
short false = omega arith

pub disk-IsSteady : IsSteady disk
unfolding contents file_size
disk-IsSteady = record {
  yields = λ p bytes h. all_bytes-AreBytes bytes (
      subst (λ (b : Bytes). all_bytes b ≡ true) (some-injective h)
        (yields_bytes (is_game p.names)));
  sized = λ p bytes h. ap (λ (b : Bytes). some (length b)) (some-injective h);
  addressable = λ p bytes h.
      subst (λ (b : Bytes). length b ≤ max_stream_offset) (some-injective h)
        (short (is_game p.names));
}
  where
    some-injective : {a b : Bytes} → some a ≡ some b → a ≡ b
    some-injective h = cc

abbrev pub pack : Resolver
pack = record {
  pack_root = relative (codes "pack" ∷ []);
  build_root = relative (codes "pack" ∷ []);
}

abbrev pub declared : VirtualFileDefinition
declared = record {
  id = codes "v";
  game_path = relative (codes "a.bin" ∷ []);
  mode = codes "delta-on-read";
  source = record {
    kind = delta_file;
    path = relative (codes "d.hgdelta" ∷ []);
    base = record { file_size = 5; sha256 = zeros };
    target = record { file_size = 6; sha256 = zeros };
    chunk_size = 4;
  };
}

abbrev pub registration : Registration
registration = record {
  pack_id = codes "p";
  build_id = codes "b";
  asset_resolver = pack;
  definition = declared;
}

abbrev pub cache : FilePath
cache = relative (codes "cache" ∷ [])

abbrev pub game_path : FilePath
game_path = relative (codes "game" ∷ codes "a.bin" ∷ [])

abbrev pub loaded : HgdeltaFile
loaded = record {
  chunk_size = 4;
  base_file_size = 5;
  target_file_size = 6;
  base_sha256 = zeros;
  target_sha256 = zeros;
  chunks =
      record {
        kind = base_copy;
        target_offset = 0;
        target_size = 4;
        payload_offset = 0;
        payload_size = 0;
      }
      ∷ record {
        kind = delta_bytes;
        target_offset = 4;
        target_size = 2;
        payload_offset = 0;
        payload_size = 2;
      }
      ∷ [];
  payload_bytes = 9 ∷ 8 ∷ [];
}

abbrev pub opened : DeltaSource
opened = record {
  base_file_path = game_path;
  delta_file_path = relative (codes "pack" ∷ codes "d.hgdelta" ∷ []);
  base_fingerprint = record { file_size = 5; sha256 = zeros };
  delta_fingerprint = record { file_size = 158; sha256 = zeros };
  delta = loaded;
  resolved_file_path =
      relative (codes "cache" ∷ codes "resolved" ∷ codes "00" ∷ (zeros ++ codes ".bin") ∷ []);
}
