-- ===== src/Common/Results.antt =====
-- Fallible code: a value, or the exception or refusal that ends the call.
use mathlib.Core.Logic.{◌⊎◌, inl, inr}
use mathlib.Core.Path.{◌≡◌, refl, ap}
use mathlib.Core.Bool.{Bool, true, false}
use mathlib.Core.Option.{Option, none, some}

pub data Result (E A : Type 0) : Type 0 where
  ok : A → Result E A
  err : E → Result E A

pub ok-injective : {E A : Type 0} {a b : A} → ◌≡◌ {A = Result E A} (ok a) (ok b) → a ≡ b
ok-injective h = cc

module _ {E A B : Type 0} where
  -- What follows a call, unless the call has thrown.
  infixl 5 ◌>>=◌
  abbrev pub ◌>>=◌ : (call : Result E A) (next : A → Result E B) → Result E B
  err thrown >>= next = err thrown
  ok value >>= next = next value

  -- A call and what follows it went through: so did the call.
  pub bind-eq-ok :
      (call : Result E A) (next : A → Result E B) {last : B}
      → call >>= next ≡ ok last
      → (value : A) × (call ≡ ok value) × (next value ≡ ok last)
  bind-eq-ok (err thrown) next through = cc
  bind-eq-ok (ok value) next through = (value, refl, through)

module _ {E B : Type 0} where
  infixl 5 ◌>>◌
  abbrev pub ◌>>◌ : Result E (Unit {0}) → Result E B → Result E B
  m >> k = m >>= λ _. k

-- `if (test) throw e;`
abbrev pub reject : {E : Type 0} → Bool → E → Result E (Unit {0})
reject true e = err e
reject false e = ok tt

-- The value of an optional, or an exception.
abbrev pub or_throw : {E A : Type 0} → Option A → E → Result E A
or_throw none e = err e
or_throw (some a) e = ok a

pub reject-eq-ok :
    {E A : Type 0} (b : Bool) (e : E) {a a' : A}
    → ◌≡◌ {A = Result E A} (reject b e >> ok a) (ok a')
    → (b ≡ false) × (a ≡ a')
reject-eq-ok true e h = cc
reject-eq-ok false e h = (refl, ok-injective h)

pub or_throw-eq-ok :
    {E A : Type 0} (o : Option A) (e : E) {a : A}
    → ◌≡◌ {A = Result E A} (or_throw o e) (ok a)
    → o ≡ some a
or_throw-eq-ok none e h = cc
or_throw-eq-ok (some a) e h = ap some (ok-injective h)

-- An exception of a callee, whichever it is, ends the caller.
abbrev pub rethrow : {E E' A : Type 0} → Result E A → E' → Result E' A
rethrow (ok a) e = ok a
rethrow (err _) e = err e

pub rethrow-eq-ok :
    {E E' A : Type 0} (m : Result E A) (e : E') {a : A}
    → ◌≡◌ {A = Result E' A} (rethrow m e) (ok a)
    → m ≡ ok a
rethrow-eq-ok (ok a) e h = ap ok (ok-injective h)
rethrow-eq-ok (err x) e h = cc

pub Result-cases :
    {E A : Type 0} (m : Result E A) → ((a : A) × (m ≡ ok a)) ⊎ ((e : E) × (m ≡ err e))
Result-cases (ok a) = inl (a, refl)
Result-cases (err e) = inr (e, refl)

-- A guard in front of a call that went through has let it pass.
pub reject-guard :
    {E A : Type 0} (b : Bool) (e : E) (next : Result E A) {a : A}
    → reject b e >> next ≡ ok a
    → (b ≡ false) × (next ≡ ok a)
reject-guard true e next h = cc
reject-guard false e next h = (refl, h)
