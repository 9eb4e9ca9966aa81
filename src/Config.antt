-- ===== src/Config.antt =====
-- HelenRuntime/JsonConfigStore.cpp: the persisted integers. What `Save` needs of the file system is a
-- parameter: `saves n` says whether the attempt number n replaces the file or throws.
pub mod Entries
pub mod Json
pub mod Load
pub mod RoundTrip
use helen_gamehook.Common.Maps.{find, assign, contains}
use helen_gamehook.Common.{
  ℕ, ◌+◌, Bool, true, false, List, [], ◌∷◌, Option, none, some, if◌then◌else◌,
}
use helen_gamehook.Common.Words.{wrap_size}
use helen_gamehook.Common.Int.{ℤ}
use helen_gamehook.Paths.Keys.{text_key}
use helen_gamehook.Paths.{Text}

-- The store, with the values that the file on disk holds since the last successful `Save`.
pub record ConfigStore : Type 0 where
  pub int_values : List (Text × ℤ)
  pub save_count : ℕ
  pub persisted : Option (List (Text × ℤ))

-- `GetInt`
unfoldable pub get_int : ConfigStore → Text → ℤ → ℤ
get_int s key default_value = elim (find key s.int_values) [ none ↦ default_value | some v ↦ v ]

-- `SetInt`
unfoldable pub set_int : ConfigStore → Text → ℤ → ConfigStore
set_int s key v = record s { int_values = assign key v s.int_values }

-- `TrySetExistingInt`
unfoldable pub try_set_existing_int : ConfigStore → Text → ℤ → Bool × ConfigStore
try_set_existing_int s key v =
    if contains key s.int_values
    then (true, record s { int_values = assign key v s.int_values })
    else (false, s)

-- `Save`: false where it throws. An attempt that fails leaves the file as it was.
unfoldable pub save : (ℕ → Bool) → ConfigStore → Bool × ConfigStore
save saves s =
    let attempt = wrap_size (s.save_count + 1) in
    if saves attempt
    then (true, record s { save_count = attempt; persisted = some s.int_values })
    else (false, record s { save_count = attempt })

-- `GetSaveCount`
unfoldable pub get_save_count : ConfigStore → ℕ
get_save_count s = s.save_count
