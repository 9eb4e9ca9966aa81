-- ===== src/Config/Json.antt =====
-- HelenRuntime/JsonConfigStore.cpp: the JSON text of the store.
use helen_gamehook.Common.{ℕ, ◌==◌, Bool, true, false, List, [], ◌∷◌, ◌++◌, if◌then◌else◌}
use helen_gamehook.Common.Int.{ℤ}
use helen_gamehook.Paths.{Text}

-- The characters of the `switch` of `EscapeJsonString`.
unfoldable pub escape_character : ℕ → Text
escape_character c =
    if c == 92
    then 92 ∷ 92 ∷ []
    else if c == 34
    then 92 ∷ 34 ∷ []
    else if c == 8
    then 92 ∷ 98 ∷ []
    else if c == 12
    then 92 ∷ 102 ∷ []
    else if c == 10
    then 92 ∷ 110 ∷ []
    else if c == 13
    then 92 ∷ 114 ∷ []
    else if c == 9
    then 92 ∷ 116 ∷ []
    else c ∷ []

-- `EscapeJsonString`
unfoldable pub escape_json_string : Text → Text
escape_json_string [] = []
escape_json_string (c ∷ t) = escape_character c ++ escape_json_string t

-- `SerializeConfig`: the members, each but the first behind a comma. `shows` is the stream's decimal
-- output of an `int`.
unfoldable pub serialize_members : (ℤ → Text) → Bool → List (Text × ℤ) → Text
serialize_members shows first [] = []
serialize_members shows first ((key, value) ∷ m) =
    (if first then [] else 44 ∷ 10 ∷ [])
    ++ (32 ∷ 32 ∷ 34 ∷ escape_json_string key
        ++ (34 ∷ 58 ∷ 32 ∷ shows value ++ serialize_members shows false m))

unfoldable pub serialize_config : (ℤ → Text) → List (Text × ℤ) → Text
serialize_config shows m = 123 ∷ 10 ∷ serialize_members shows true m ++ (10 ∷ 125 ∷ 10 ∷ [])
