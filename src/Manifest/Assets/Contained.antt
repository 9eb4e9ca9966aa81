-- ===== src/Manifest/Assets/Contained.antt =====
-- HelenRuntime/PackAssetResolver.cpp: asset paths and the directory of their pack.
use helen_gamehook.Common.{
  true, false, List, [], ◌∷◌, ◌++◌, ◌≡◌, refl, sym, subst, ap, ◌∙◌, not, some, arith,
}
use helen_gamehook.Common.Results.{ok, bind-eq-ok, reject-eq-ok, or_throw, or_throw-eq-ok, reject}
use helen_gamehook.Files.{FileSystem}
use helen_gamehook.Manifest.Assets.{
  Resolver, starts_with, is_within_root, normalize_existing_directory, make_resolver, resolve,
  missing_root, not_directory, empty_root,
}
use helen_gamehook.Paths.Equality.{text_eq_iff}
use helen_gamehook.Paths.{
  Text, FilePath, path_empty, elements, has_root_name, has_root_directory, lexically_normal,
  append_path,
}
use helen_gamehook.Routes.Under.{AreNames}

-- A path with a root name and a root directory, none of whose names is `.` or `..`.
pub record IsCanonical (p : FilePath) : Type 0 where
  pub named : has_root_name p ≡ true
  pub rooted : p.rooted ≡ true
  pub plain : AreNames p.names

-- `weakly_canonical` makes an existing path absolute, keeps an absolute path absolute, and its
-- result is then in normal form, without dots.
pub record Canonicalises (fs : FileSystem) : Type 0 where
  pub of_existing :
      (p q : FilePath) → fs.exists p ≡ true → fs.weakly_canonical p ≡ some q → IsCanonical q
  pub of_absolute :
      (p q : FilePath)
      → has_root_name p ≡ true
      → p.rooted ≡ true
      → fs.weakly_canonical p ≡ some q
      → IsCanonical q

-- The path `p` is the directory `root` or lies below it: it has the same root, and the names of
-- `root` and others behind them, and none of its names is `.` or `..`.
pub record IsBelow (p root : FilePath) : Type 0 where
  pub same_root_name : p.root_name ≡ root.root_name
  pub same_rooted : p.rooted ≡ root.rooted
  pub below : List Text
  pub path_names : p.names ≡ root.names ++ below
  pub plain : AreNames p.names

starts_with-append :
    (c r : List Text) → starts_with c r ≡ true → (rest : List Text) × (c ≡ r ++ rest)
unfolding starts_with
starts_with-append c [] h = (c, refl)
starts_with-append [] (r ∷ rs) h = cc
starts_with-append (c ∷ cs) (r ∷ rs) h =
    let (rest, e) = starts_with-append cs rs (ground arith) in
    (rest, ground (arith, text_eq_iff c r))

elements-IsCanonical :
    (p : FilePath) → IsCanonical p → elements p ≡ p.root_name ∷ (b'/' ∷ []) ∷ p.names
unfolding elements
elements-IsCanonical p c = ground (arith, c.named, c.rooted)

is_within_root-IsBelow :
    (p root : FilePath)
    → IsCanonical p
    → IsCanonical root
    → is_within_root p root ≡ true
    → IsBelow p root
unfolding is_within_root
is_within_root-IsBelow p root c k h =
    let (rest, e) = starts_with-append (elements p) (elements root) h in
    let e' : p.root_name ∷ (b'/' ∷ []) ∷ p.names
        ≡ (root.root_name ∷ (b'/' ∷ []) ∷ root.names) ++ rest =
      sym (elements-IsCanonical p c)
      ∙ e
      ∙ ap (λ (z : List Text). z ++ rest) (elements-IsCanonical root k) in
    record {
      same_root_name = ground (arith, e');
      same_rooted = c.rooted ∙ sym k.rooted;
      below = rest;
      path_names = ground (arith, e');
      plain = c.plain;
    }

normalize_existing_directory-ok :
    (fs : FileSystem) (path : FilePath) {q : FilePath}
    → normalize_existing_directory fs path ≡ ok q
    → (fs.exists path ≡ true) × (fs.is_directory path ≡ true) × (fs.weakly_canonical path ≡ some q)
unfolding normalize_existing_directory
normalize_existing_directory-ok fs path p =
    let (_, _, p1) = bind-eq-ok (reject (path_empty path) empty_root) _ p in
    let (_, there, p2) = bind-eq-ok (reject (not (fs.exists path)) missing_root) _ p1 in
    let (_, directory, p3) = bind-eq-ok (reject (not (fs.is_directory path)) not_directory) _ p2 in
    let (normal, found, p4) = bind-eq-ok (or_throw (fs.weakly_canonical path) not_directory) _ p3 in
    let (_, same) = reject-eq-ok (path_empty normal) _ p4 in
    (
      ground (arith, there),
      ground (arith, directory),
      or_throw-eq-ok (fs.weakly_canonical path) not_directory found ∙ ap some same,
    )

-- What the constructor has made: the canonical forms of two existing directories, one below the
-- other.
pub record IsMade (fs : FileSystem) (pack build : FilePath) (r : Resolver) : Type 0 where
  pub pack_exists : fs.exists pack ≡ true
  pub pack_is_directory : fs.is_directory pack ≡ true
  pub pack_canonical : fs.weakly_canonical pack ≡ some r.pack_root
  pub pack_plain : IsCanonical r.pack_root
  pub build_plain : IsCanonical r.build_root
  pub build_inside : IsBelow r.build_root r.pack_root

make_resolver-IsMade :
    (fs : FileSystem) (pack build : FilePath) {r : Resolver}
    → Canonicalises fs
    → make_resolver fs pack build ≡ ok r
    → IsMade fs pack build r
unfolding make_resolver
make_resolver-IsMade fs pack build laws e =
    let (p, e₀, e₁) = bind-eq-ok (normalize_existing_directory fs pack) _ e in
    let (b, e₀', e₂) = bind-eq-ok (normalize_existing_directory fs build) _ e₁ in
    let (within, built) = reject-eq-ok (not (is_within_root b p)) _ e₂ in
    let (there, directory, canonical) = normalize_existing_directory-ok fs pack e₀ in
    let (there', _, canonical') = normalize_existing_directory-ok fs build e₀' in
    let c = laws.of_existing pack p there canonical in
    let c' = laws.of_existing build b there' canonical' in
    subst (λ (z : Resolver). IsMade fs pack build z) built
      (record {
        pack_exists = there;
        pack_is_directory = directory;
        pack_canonical = canonical;
        pack_plain = c;
        build_plain = c';
        build_inside = is_within_root-IsBelow b p c' c (ground arith);
      })

pub lexically_normal-root :
    (p : FilePath)
    → ((lexically_normal p).root_name ≡ p.root_name) × ((lexically_normal p).rooted ≡ p.rooted)
unfolding lexically_normal
lexically_normal-root p = ground arith

append_path-root :
    (a b : FilePath)
    → has_root_name b ≡ false
    → b.rooted ≡ false
    → ((append_path a b).root_name ≡ a.root_name) × ((append_path a b).rooted ≡ a.rooted)
unfolding append_path
append_path-root a b h k = ground (arith, h, k)

-- What `Resolve` accepts and returns.
pub record Resolves (fs : FileSystem) (r : Resolver) (relative q : FilePath) : Type 0 where
  pub no_root_name : has_root_name relative ≡ false
  pub no_root_directory : has_root_directory relative ≡ false
  pub canonical :
      fs.weakly_canonical (append_path r.build_root (lexically_normal relative)) ≡ some q
  pub within : is_within_root q r.pack_root ≡ true

resolve-guards :
    (fs : FileSystem) (r : Resolver) (relative : FilePath) {q : FilePath}
    → resolve fs r relative ≡ some q
    → Resolves fs r relative q
unfolding resolve
resolve-guards fs r relative e = record {
  no_root_name = ground arith;
  no_root_directory = ground arith;
  canonical = ground arith;
  within = ground arith;
}

-- Over documented laws of `weakly_canonical`, every path that `Resolve` of a constructed resolver
-- returns lies in the pack: the pack directory that was given exists, and the path has the same root
-- as its canonical form, its names, and others behind them, and no `.` or `..` on its way, whatever
-- dots the asset path holds. The build directory lies in the pack in the same way.
pub resolve-IsBelow :
    (fs : FileSystem) (pack build : FilePath) (r : Resolver) (relative q : FilePath)
    → Canonicalises fs
    → make_resolver fs pack build ≡ ok r
    → resolve fs r relative ≡ some q
    → (fs.exists pack ≡ true)
      × (fs.weakly_canonical pack ≡ some r.pack_root)
      × IsBelow q r.pack_root
      × IsBelow r.build_root r.pack_root
resolve-IsBelow fs pack build r relative q laws e h =
    let made = make_resolver-IsMade fs pack build laws e in
    let guards = resolve-guards fs r relative h in
    let normal = lexically_normal-root relative in
    let joined =
      append_path-root r.build_root (lexically_normal relative)
        (ground (arith, normal, guards.no_root_name)) (normal.1 ∙ guards.no_root_directory) in
    let c =
      laws.of_absolute (append_path r.build_root (lexically_normal relative)) q
        (ground (arith, joined, made.build_plain.named)) (joined.1 ∙ made.build_plain.rooted)
        guards.canonical in
    (
      made.pack_exists,
      made.pack_canonical,
      is_within_root-IsBelow q r.pack_root c made.pack_plain guards.within,
      made.build_inside,
    )
