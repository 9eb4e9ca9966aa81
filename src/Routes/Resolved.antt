-- ===== src/Routes/Resolved.antt =====
-- FileWriteRouteResolver.cpp: what the routes are that `TryResolve` returns.
use helen_gamehook.Common.Results.{ok, reject-guard, bind-eq-ok, ok-injective}
use helen_gamehook.Common.{
  ◌≡◌, refl, sym, subst, ◌∙◌, ◌⊎◌, inl, inr, true, false, not, ◌&&◌, ◌||◌, List, [], ◌∷◌, map,
  arith, Bool-cases,
}
use helen_gamehook.Files.{FileSystem}
use helen_gamehook.Paths.Equality.{text_eq_iff}
use helen_gamehook.Paths.{
  Text, text_eq, is_empty, FilePath, lower_text, generic_text, lexically_normal, append_path,
}
use helen_gamehook.Routes.Relative.{is_within_root}
use helen_gamehook.Routes.Under.{
  AreNames, IsUnder, AreNames-lexically_normal, is_within_root-IsUnder,
}
use helen_gamehook.Routes.{
  RouteDefinition, Route, game, documents, mem_text, roots_are_supported, requires_root, is_missing,
  selected_root, is_safe_relative_path, route_of, resolve_routes, try_resolve,
}

abbrev pub folded_id : Route → Text
folded_id r = lower_text r.id

abbrev pub target_key : Route → Text
target_key r = lower_text (generic_text r.original_path)

-- No text of the list is among those seen, or stands in the list again.
abbrev Fresh : List Text → List Text → Type 0
Fresh [] seen = Unit {0}
Fresh (t ∷ ts) seen = (mem_text t seen ≡ false) × Fresh ts (t ∷ seen)

abbrev pub AreDistinct : List Text → Type 0
AreDistinct [] = Unit {0}
AreDistinct (t ∷ ts) = (mem_text t ts ≡ false) × AreDistinct ts

-- A text that was seen does not stand in a fresh list.
Fresh-mem_text :
    (ts seen : List Text) (t : Text)
    → Fresh ts seen
    → mem_text t seen ≡ true
    → mem_text t ts ≡ false
unfolding mem_text
Fresh-mem_text [] seen t f m = refl
Fresh-mem_text (u ∷ ts) seen t f m = elim (Bool-cases (text_eq u t)) [
  | inl e ↦ absurd (ground (arith, f.0, m, (text_eq_iff u t).0 e))
  | inr e ↦ ground (arith, e, Fresh-mem_text ts (u ∷ seen) t f.1, m)
]

mem_text-head : (t : Text) (ts : List Text) → mem_text t (t ∷ ts) ≡ true
unfolding mem_text
mem_text-head t ts = ground (arith, (text_eq_iff t t).1 refl)

Fresh-AreDistinct : (ts seen : List Text) → Fresh ts seen → AreDistinct ts
Fresh-AreDistinct [] seen f = tt
Fresh-AreDistinct (t ∷ ts) seen f =
    (Fresh-mem_text ts (t ∷ seen) t f.1 (mem_text-head t seen), Fresh-AreDistinct ts (t ∷ seen) f.1)

lexically_normal-rooted : (p : FilePath) → (lexically_normal p).rooted ≡ p.rooted
unfolding lexically_normal
lexically_normal-rooted p = ground arith

module _ (game_root documents_root : FilePath) where
  abbrev root_of : RouteDefinition → FilePath
  root_of d = selected_root game_root documents_root d.root

  -- The route stands for its definition: a file under the selected root, with no `..` on its way.
  pub record IsRouteOf (d : RouteDefinition) (r : Route) : Type 0 where
    pub same_id : r.id ≡ d.id
    pub same_write_policy : r.write_policy ≡ d.write_policy
    pub same_read_policy : r.read_policy ≡ d.read_policy
    pub under : IsUnder (root_of d) r.original_path
    pub names : AreNames r.original_path.names

  abbrev pub AreRoutesOf : List RouteDefinition → List Route → Type 0
  AreRoutesOf [] [] = Unit {0}
  AreRoutesOf (d ∷ ds) (r ∷ rs) = IsRouteOf d r × AreRoutesOf ds rs
  AreRoutesOf _ _ = ⊥

  abbrev AreRooted : List RouteDefinition → Type 0
  AreRooted [] = Unit {0}
  AreRooted (d ∷ ds) = ((root_of d).rooted ≡ true) × (AreNames (root_of d).names × AreRooted ds)

  pub record Resolved (ds : List RouteDefinition) (ids targets : List Text) (rs : List Route)
      : Type 0 where
    pub routes : AreRoutesOf ds rs
    pub fresh_ids : Fresh (map folded_id rs) ids
    pub fresh_targets : Fresh (map target_key rs) targets

  lexically_normal-names :
      (d : RouteDefinition)
      → AreNames (root_of d).names
      → (root_of d).rooted ≡ true
      → is_within_root (lexically_normal (append_path (root_of d) d.path)) (root_of d) ≡ true
      → IsRouteOf d (route_of d (lexically_normal (append_path (root_of d) d.path)))
  lexically_normal-names d ns rooted within =
      let q = append_path (root_of d) d.path in
      let under = is_within_root-IsUnder (lexically_normal q) (root_of d) ns within in
      record {
        same_id = refl;
        same_write_policy = refl;
        same_read_policy = refl;
        under = under;
        names =
            AreNames-lexically_normal q
              (sym (lexically_normal-rooted q) ∙ under.same_root.1 ∙ rooted);
      }

  resolve_routes-Resolved :
      (ds : List RouteDefinition) (ids targets : List Text) {rs : List Route}
      → AreRooted ds
      → resolve_routes game_root documents_root ds ids targets ≡ ok rs
      → Resolved ds ids targets rs
  unfolding resolve_routes
  resolve_routes-Resolved [] ids targets rooted h =
      subst (Resolved [] ids targets) (ok-injective h)
        (record { routes = tt; fresh_ids = tt; fresh_targets = tt })
  resolve_routes-Resolved (d ∷ ds) ids targets rooted h =
      let path = lexically_normal (append_path (root_of d) d.path) in
      let (valid, h1) =
        reject-guard
          (is_empty d.id || mem_text (lower_text d.id) ids || not (is_safe_relative_path d.path)) _
          _ h in
      let (_, h2) = reject-guard _ _ _ h1 in
      let (within, h3) = reject-guard (not (is_within_root path (root_of d))) _ _ h2 in
      let (fresh, h4) = reject-guard (mem_text (lower_text (generic_text path)) targets) _ _ h3 in
      let (routes, e, same) =
        bind-eq-ok
          (resolve_routes game_root documents_root ds (lower_text d.id ∷ ids)
            (lower_text (generic_text path) ∷ targets))
          _ h4 in
      let tail =
        resolve_routes-Resolved ds (lower_text d.id ∷ ids)
          (lower_text (generic_text path) ∷ targets) rooted.1.1 e in
      let all : Resolved (d ∷ ds) ids targets (route_of d path ∷ routes) = record {
        routes =
            (lexically_normal-names d rooted.1.0 rooted.0 (ground (arith, within)), tail.routes);
        fresh_ids = (ground (arith, valid), tail.fresh_ids);
        fresh_targets = (fresh, tail.fresh_targets);
      } in
      subst (Resolved (d ∷ ds) ids targets) (ok-injective same) all

-- a root that is required and not missing is an absolute path
is_missing-rooted :
    (fs : FileSystem) (root : FilePath) → is_missing fs root ≡ false → root.rooted ≡ true
unfolding is_missing
is_missing-rooted fs root h = ground (arith, h)

module _ (fs : FileSystem) (game_root documents_root : FilePath) where
  abbrev normal_game : FilePath
  normal_game = lexically_normal game_root

  abbrev normal_documents : FilePath
  normal_documents = lexically_normal documents_root

  AreNames-root :
      (p : FilePath) → (lexically_normal p).rooted ≡ true → AreNames (lexically_normal p).names
  AreNames-root p h = AreNames-lexically_normal p (sym (lexically_normal-rooted p) ∙ h)

  selected-AreNames :
      (name : Text)
      → (selected_root normal_game normal_documents name).rooted ≡ true
      → AreNames (selected_root normal_game normal_documents name).names
  unfolding selected_root
  selected-AreNames name h =
      ground (arith, h, AreNames-root game_root, AreNames-root documents_root)

  all-AreRooted :
      (ds : List RouteDefinition)
      → roots_are_supported ds ≡ true
      → (requires_root game ds ≡ false) ⊎ (normal_game.rooted ≡ true)
      → (requires_root documents ds ≡ false) ⊎ (normal_documents.rooted ≡ true)
      → AreRooted normal_game normal_documents ds
  unfolding roots_are_supported requires_root
  all-AreRooted [] s g d = tt
  all-AreRooted (x ∷ ds) s g d =
      let rooted : (selected_root normal_game normal_documents x.root).rooted ≡ true =
        unfold selected_root in ground (arith, s, g, d) in
      (
        rooted,
        (
          selected-AreNames x.root rooted,
          all-AreRooted ds (ground (arith, s)) (ground (arith, g)) (ground (arith, d)),
        ),
      )

  -- When TryResolve answers true, it has made one route for each definition, in order, with its
  -- identifier and policies; the file of each route lies under the selected root, which is
  -- normalised, with no `..` on its way; and no two routes have the same identifier or the same
  -- file, up to the case of ASCII letters.
  pub try_resolve-AreRoutesOf :
      (ds : List RouteDefinition) {rs : List Route}
      → try_resolve fs game_root documents_root ds ≡ ok rs
      → AreRoutesOf normal_game normal_documents ds rs
        × AreDistinct (map folded_id rs)
        × AreDistinct (map target_key rs)
  unfolding try_resolve
  try_resolve-AreRoutesOf ds {rs} h =
      let (supported, h1) = reject-guard (not (roots_are_supported ds)) _ _ h in
      let (game_there, h2) =
        reject-guard (requires_root game ds && is_missing fs normal_game) _ _ h1 in
      let (documents_there, h3) =
        reject-guard (requires_root documents ds && is_missing fs normal_documents) _ _ h2 in
      let resolved =
        resolve_routes-Resolved normal_game normal_documents ds [] []
          (all-AreRooted ds (ground (arith, supported))
            (ground (arith, game_there, is_missing-rooted fs normal_game))
            (ground (arith, documents_there, is_missing-rooted fs normal_documents)))
          h3 in
      (
        resolved.routes,
        Fresh-AreDistinct (map folded_id rs) [] resolved.fresh_ids,
        Fresh-AreDistinct (map target_key rs) [] resolved.fresh_targets,
      )
