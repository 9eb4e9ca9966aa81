-- ===== src/Paths/Equality.antt =====
-- The equality test on texts decides equality.
use helen_gamehook.Common.{true, ◌∷◌, ◌≡◌, ◌↔◌, arith}
use helen_gamehook.Paths.{Text, text_eq}

pub text_eq_iff : (a b : Text) → (text_eq a b ≡ true) ↔ (a ≡ b)
unfolding text_eq
text_eq_iff (x ∷ a) (y ∷ b) = ground (arith, text_eq_iff a b)
text_eq_iff _ _ = ground arith
