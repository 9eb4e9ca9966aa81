-- ===== src/Floats.antt =====
-- The floating-point numbers of the machine, a parameter of the model: `double` and `float`, and
-- what the runtime does with them.
use helen_gamehook.Common.{Bool, true, false, ◌||◌, ◌≡◌}

pub record Floats : Type 1 where
  pub Double : Type 0
  pub Single : Type 0
  pub is_finite : Double → Bool
  pub lt : Double → Double → Bool
  -- `numeric_limits<float>::lowest()` and `max()`, as doubles.
  pub lowest : Double
  pub highest : Double
  -- The conversions between the two types.
  pub narrow : Double → Single
  pub widen : Single → Double
  -- `0.0f`
  pub zero_single : Single

abbrev pub out_of_range : (fl : Floats) → fl.Double → Bool
out_of_range fl v = fl.lt v fl.lowest || fl.lt fl.highest v

-- What IEEE 754 says of the conversions: a double in the range of `float` goes to a finite `float`,
-- and a finite `float` goes to a double and back unchanged.
pub record IsIeee (fl : Floats) : Type 0 where
  pub narrow_finite :
      (v : fl.Double)
      → fl.is_finite v ≡ true
      → out_of_range fl v ≡ false
      → fl.is_finite (fl.widen (fl.narrow v)) ≡ true
  pub narrow_in_range :
      (v : fl.Double)
      → fl.is_finite v ≡ true
      → out_of_range fl v ≡ false
      → out_of_range fl (fl.widen (fl.narrow v)) ≡ false
  pub narrow-widen : (s : fl.Single) → fl.is_finite (fl.widen s) ≡ true → fl.narrow (fl.widen s) ≡ s
