-- ===== src/Tests/Packs.antt =====
-- Asset paths of a pack on a drive, resolved.
use helen_gamehook.Common.Results.{ok}
use helen_gamehook.Common.{
  ℕ, ◌≡◌, refl, ◌∙◌, subst, true, ◌&&◌, List, [], ◌∷◌, some, none, if◌then◌else◌, arith,
}
use helen_gamehook.Files.{FileSystem}
use helen_gamehook.Manifest.Assets.Contained.{
  Canonicalises, IsCanonical, IsBelow, lexically_normal-root, resolve-IsBelow,
}
use helen_gamehook.Manifest.Assets.{
  Resolver, starts_with, is_within_root, normalize_existing_directory, make_resolver, keep_inside,
  try_resolve_candidate_path, resolve,
}
use helen_gamehook.Paths.{
  FilePath, codes, text_eq, elements, has_root_name, lexically_normal, append_path, is_dot,
}
use helen_gamehook.Routes.Under.{AreNames-lexically_normal}
use helen_gamehook.Tests.Disk.{disk, relative}

-- The working directory is the root of drive C.
abbrev absolute : FilePath → FilePath
absolute p =
    if has_root_name p && p.rooted
    then p
    else record { root_name = codes "C:"; rooted = true; names = p.names }

abbrev drive : FileSystem
drive = record disk { weakly_canonical = λ p. some (lexically_normal (absolute p)) }

absolute-root : (p : FilePath) → (has_root_name (absolute p) ≡ true) × ((absolute p).rooted ≡ true)
absolute-root p = ground arith

absolute-IsCanonical : (p : FilePath) → IsCanonical (lexically_normal (absolute p))
absolute-IsCanonical p =
    let root = lexically_normal-root (absolute p) in
    let own = absolute-root p in
    record {
      named = ground (arith, root.0, own.0);
      rooted = root.1 ∙ own.1;
      plain = AreNames-lexically_normal (absolute p) own.1;
    }

drive-Canonicalises : Canonicalises drive
drive-Canonicalises = record {
  of_existing = λ p q there h. subst IsCanonical (some-injective h) (absolute-IsCanonical p);
  of_absolute = λ p q named rooted h. subst IsCanonical (some-injective h) (absolute-IsCanonical p);
}
  where
    some-injective : {a b : FilePath} → some a ≡ some b → a ≡ b
    some-injective h = cc

abbrev on_drive : List (List ℕ) → FilePath
on_drive names = record { root_name = codes "C:"; rooted = true; names = names }

abbrev pack : Resolver
pack = record {
  pack_root = on_drive (codes "pack" ∷ []);
  build_root = on_drive (codes "pack" ∷ codes "b" ∷ []);
}

made :
    make_resolver drive (relative (codes "pack" ∷ [])) (relative (codes "pack" ∷ codes "b" ∷ []))
    ≡ ok pack
unfolding make_resolver normalize_existing_directory is_within_root starts_with elements text_eq
    lexically_normal
made = refl

-- A path that goes up and down again.
abbrev winding : FilePath
winding = relative (codes ".." ∷ codes "x" ∷ codes ".." ∷ codes "d.bin" ∷ [])

abbrev found : FilePath
found = on_drive (codes "pack" ∷ codes "d.bin" ∷ [])

winding-found : resolve drive pack winding ≡ some found
unfolding resolve is_within_root starts_with keep_inside try_resolve_candidate_path text_eq
    lexically_normal elements append_path is_dot
winding-found = refl

-- A path that leaves the pack is refused.
refused : resolve drive pack (relative (codes ".." ∷ codes ".." ∷ codes "d.bin" ∷ [])) ≡ none
unfolding resolve is_within_root starts_with keep_inside try_resolve_candidate_path text_eq
    lexically_normal elements append_path is_dot
refused = refl

resolve-IsBelow_example :
    (true ≡ true)
    × (drive.weakly_canonical (relative (codes "pack" ∷ [])) ≡ some pack.pack_root)
    × IsBelow found pack.pack_root
    × IsBelow pack.build_root pack.pack_root
resolve-IsBelow_example =
    resolve-IsBelow drive (relative (codes "pack" ∷ [])) (relative (codes "pack" ∷ codes "b" ∷ []))
      pack winding found drive-Canonicalises made winding-found
