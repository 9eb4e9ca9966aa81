-- ===== src/Paths/Keys.antt =====
-- Texts and handles as keys of maps.
use helen_gamehook.Common.{ℕ, Bool, ltb, ◌==◌, ==_iff}
use helen_gamehook.Common.Maps.{Key}
use helen_gamehook.Paths.Equality.{text_eq_iff}
use helen_gamehook.Paths.{Text, text_eq, text_lt}

instance abbrev pub text_key : Key Text
text_key = record { eqb = text_eq; eqb_iff = text_eq_iff; lt = text_lt }

abbrev nat_eq : ℕ → ℕ → Bool
nat_eq a b = a == b

abbrev nat_lt : ℕ → ℕ → Bool
nat_lt a b = ltb a b

instance abbrev pub nat_key : Key ℕ
nat_key = record { eqb = nat_eq; eqb_iff = ==_iff; lt = nat_lt }
