-- ===== src/VirtualFiles/Lookup.antt =====
-- HelenRuntime/VirtualFileService.cpp: which registration answers for a path.
use helen_gamehook.Common.Lists.Slices.{split_at, get_elem?-append_cons, drop-append_cons}
use helen_gamehook.Common.Maps.Laws.{find-emplace}
use helen_gamehook.Common.Maps.{find}
use helen_gamehook.Common.{
  ℕ, suc, ◌+◌, ◌-◌, ◌≤◌, ◌≡◌, ◌↔◌, ◌⊎◌, inl, inr, refl, sym, subst, ap, ◌∙◌, true, false, List, [],
  ◌∷◌, ◌++◌, length, take, drop, get_elem?, Option, some, none, arith, length-append, Bool-cases,
  Option-cases,
}
use mathlib.Core.Bool.{false≢true}
use helen_gamehook.Files.{FileSystem}
use helen_gamehook.Manifest.{Registration}
use helen_gamehook.Paths.Equality.{text_eq_iff}
use helen_gamehook.Paths.Keys.{text_key}
use helen_gamehook.Paths.{Text, text_eq}
use helen_gamehook.VirtualFiles.{
  Service, Registered, matches_declared_path, first_match, normalize_declared_path,
  register_virtual_file, find_registered_virtual_file,
}

-- The declared path is the path looked up, or its end, behind a separator.
abbrev pub EndsIn : Text → Text → Type 0
EndsIn lookup declared =
    (lookup ≡ declared) ⊎ ((front : Text) × (lookup ≡ front ++ (b'/' ∷ declared)))

matches→EndsIn :
    (lookup declared : Text) → matches_declared_path lookup declared ≡ true → EndsIn lookup declared
unfolding matches_declared_path
matches→EndsIn lookup declared h = elim (Bool-cases (text_eq lookup declared)) [
  | inl same ↦ inl ((text_eq_iff lookup declared).0 same)
  | inr other ↦
      let off = length lookup - length declared in
      let longer : suc (length declared) ≤ length lookup = ground arith in
      let end : drop off lookup ≡ declared =
        ground (arith, text_eq_iff (drop off lookup) declared) in
      let slash : get_elem? lookup (off - 1) ≡ some b'/' = ground arith in
      let at : suc (off - 1) ≡ off = omega arith in
      inr (
        take (off - 1) lookup,
        split_at lookup (off - 1) slash
            ∙ ap (λ (t : Text). take (off - 1) lookup ++ (b'/' ∷ t))
                (ap (λ (k : ℕ). drop k lookup) at ∙ end),
      )
]

EndsIn→matches :
    (lookup declared : Text) → EndsIn lookup declared → matches_declared_path lookup declared ≡ true
unfolding matches_declared_path
EndsIn→matches lookup declared (inl e) = ground (arith, text_eq_iff lookup declared)
EndsIn→matches lookup declared (inr (front, e)) =
    let off = length lookup - length declared in
    let size : length lookup ≡ length front + suc (length declared) =
      ap length e ∙ length-append front (b'/' ∷ declared) in
    let at : off ≡ suc (length front) = omega arith in
    let end : drop off lookup ≡ declared =
      ap (λ (k : ℕ). drop k lookup) at
      ∙ ap (drop (suc (length front))) e
      ∙ drop-append_cons front declared b'/' in
    let before : off - 1 ≡ length front = omega arith in
    let slash : get_elem? lookup (off - 1) ≡ some b'/' =
      ap (get_elem? lookup) before
      ∙ ap (λ (t : Text). get_elem? t (length front)) e
      ∙ get_elem?-append_cons front declared b'/' in
    ground (arith, text_eq_iff (drop off lookup) declared, size, end, slash)

-- The test on normalised paths accepts exactly the declared path itself and the paths that end in a
-- separator and the declared path.
pub matches_declared_path_iff :
    (lookup declared : Text)
    → (matches_declared_path lookup declared ≡ true) ↔ EndsIn lookup declared
matches_declared_path_iff lookup declared =
    (matches→EndsIn lookup declared, EndsIn→matches lookup declared)

-- The map holds this entry under this path.
abbrev pub Listed : Text → Registered → List (Text × Registered) → Type 0
Listed path entry [] = ⊥
Listed path entry ((j, w) ∷ m) = (j ≡ path) × (w ≡ entry) ⊎ Listed path entry m

-- What a lookup of a normalised path answers.
abbrev pub Answers : Text → List (Text × Registered) → Option Registered → Type 0
Answers lookup m none =
    (path : Text) (entry : Registered) → Listed path entry m → EndsIn lookup path → ⊥
Answers lookup m (some entry) = (path : Text) × Listed path entry m × EndsIn lookup path

none-Answers_cons :
    (lookup j : Text) (w : Registered) (m : List (Text × Registered))
    → (EndsIn lookup j → ⊥)
    → Answers lookup m none
    → (path : Text) (entry : Registered) → Listed path entry ((j, w) ∷ m)
    → EndsIn lookup path
    → ⊥
none-Answers_cons lookup j w m n h path entry (inl (e, _)) ends =
    n (subst (EndsIn lookup) (sym e) ends)
none-Answers_cons lookup j w m n h path entry (inr l) ends = h path entry l ends

Answers-cons :
    (lookup j : Text) (w : Registered) (m : List (Text × Registered)) (r : Option Registered)
    → (EndsIn lookup j → ⊥)
    → Answers lookup m r
    → Answers lookup ((j, w) ∷ m) r
Answers-cons lookup j w m none n h = none-Answers_cons lookup j w m n h
Answers-cons lookup j w m (some entry) n (path, l, ends) = (path, inr l, ends)

first_match-Answers :
    (lookup : Text) (m : List (Text × Registered)) → Answers lookup m (first_match lookup m)
unfolding first_match
first_match-Answers lookup [] = λ path entry l e. l
first_match-Answers lookup ((j, w) ∷ m) = elim (Bool-cases (matches_declared_path lookup j)) [
  | inl yes' ↦ rw yes' (j, inl (refl, refl), matches→EndsIn lookup j yes')
  | inr no' ↦ rw no' (
      Answers-cons lookup j w m (first_match lookup m)
        (λ ends. false≢true (sym no' ∙ EndsIn→matches lookup j ends))
        (first_match-Answers lookup m))
]

find-Listed :
    (path : Text) (m : List (Text × Registered)) (entry : Registered)
    → find path m ≡ some entry
    → Listed path entry m
unfolding find
find-Listed path [] entry h = cc
find-Listed path ((j, w) ∷ m) entry h = ground (arith, text_eq_iff j path, find-Listed path m entry)

-- A lookup answers with a registration whose path the looked-up path is or ends in, and answers
-- nothing only if no registration has such a path.
pub find_registered_virtual_file-Answers :
    (s : Service) (lookup : Text)
    → Answers lookup s.virtual_files (find_registered_virtual_file s lookup)
unfolding find_registered_virtual_file
find_registered_virtual_file-Answers s lookup = elim (Option-cases (find lookup s.virtual_files)) [
  | inl missing ↦
      rw (missing, find_registered_virtual_file) (first_match-Answers lookup s.virtual_files)
  | inr (entry, found) ↦
      rw (found, find_registered_virtual_file)
        (lookup, find-Listed lookup s.virtual_files entry found, inl refl)
]

-- A registration that is in place answers for its own path, before any that only ends alike.
pub find_registered_virtual_file_exact :
    (s : Service) (lookup : Text) (entry : Registered)
    → find lookup s.virtual_files ≡ some entry
    → find_registered_virtual_file s lookup ≡ some entry
unfolding find_registered_virtual_file
find_registered_virtual_file_exact s lookup entry h = ground arith

-- A second registration of a path is refused, and no registration replaces an entry.
pub register_virtual_file_keeps :
    (fs : FileSystem) (s : Service) (r : Registration) (key : Text) (entry : Registered)
    → find key s.virtual_files ≡ some entry
    → (find key (register_virtual_file fs s r).1.virtual_files ≡ some entry)
      × (normalize_declared_path r.definition.game_path ≡ some key
          → register_virtual_file fs s r ≡ (false, s))
unfolding register_virtual_file
register_virtual_file_keeps fs s r key entry h =
    (grind (arith, find-emplace, text_eq_iff), λ e. ground arith)
