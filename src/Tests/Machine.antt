-- ===== src/Tests/Machine.antt =====
-- Floating-point numbers that are small natural numbers, and a graphics service that sets nothing.
use helen_gamehook.Common.{ℕ, true, ltb, refl}
use helen_gamehook.Commands.{Graphics}
use helen_gamehook.Commands.Throws.{NeverThrows}
use helen_gamehook.Dispatcher.{returns}
use helen_gamehook.Bindings.Rollback.{KeepsKeys}
use helen_gamehook.Floats.{Floats, IsIeee}

abbrev pub naturals : Floats
naturals = record {
  Double = ℕ;
  Single = ℕ;
  is_finite = λ v. true;
  lt = ltb;
  lowest = 0;
  highest = 1000;
  narrow = λ v. v;
  widen = λ v. v;
  zero_single = 0;
}

pub naturals-IsIeee : IsIeee naturals
naturals-IsIeee = record {
  narrow_finite = λ v f i. f;
  narrow_in_range = λ v f i. i;
  narrow-widen = λ v f. refl;
}

abbrev pub idle : Graphics
idle = record {
  State = Unit {0};
  applies = λ a g d. (returns true, g);
  loads = λ l g d. (returns true, (g, d));
}

pub idle-NeverThrows : NeverThrows idle
idle-NeverThrows = record { applies_answers = λ a g d e. cc; loads_answers = λ l g d e. cc }

pub idle-KeepsKeys : KeepsKeys idle
idle-KeepsKeys = λ key l g d h. h
