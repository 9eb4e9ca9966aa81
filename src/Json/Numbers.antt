-- ===== src/Json/Numbers.antt =====
-- The C library's doubles, as the parser and the config store use them: a parameter of the model.
use helen_gamehook.Common.Int.{ℤ}
use helen_gamehook.Common.{ℕ, Bool}
use helen_gamehook.Paths.{Text}

pub record Doubles : Type 1 where
  pub Double : Type 0
  -- `strtod` of a token: the value, and how many characters it has read.
  pub strtod : Text → Double × ℕ
  -- `modf`: the fractional part and the integral part.
  pub modf : Double → Double × Double
  pub is_zero : Double → Bool
  pub lt : Double → Double → Bool
  -- `static_cast<double>` of an `int`, `static_cast<int>` of a double, and the decimal output of
  -- an `int`.
  pub of_int : ℤ → Double
  pub to_int : Double → ℤ
  pub shows : ℤ → Text
