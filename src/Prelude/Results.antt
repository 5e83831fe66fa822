-- ===== src/Prelude/Results.antt =====
-- Results of calls that may throw. The exceptions are those of the standard library that the
-- sources throw; the message texts and the log lines are left out.
use mathlib.Core.Path.{◌≡◌, refl}
use mathlib.Core.Logic.{◌⊎◌, inl, inr}
use mathlib.Core.Bool.{Bool, true, false}

pub data Exception : Type 0 where
  out_of_range invalid_argument runtime_error logic_error underflow_error : Exception

pub data Outcome {ℓ} (A : Type ℓ) : Type ℓ where
  ok : A → Outcome A
  throws : Exception → Outcome A

infixl 5 ◌>>=◌ ◌>>◌
abbrev pub ◌>>=◌ {ℓ κ} : {A : Type ℓ} {B : Type κ} → Outcome A → (A → Outcome B) → Outcome B
ok a >>= f = f a
throws e >>= f = throws e

abbrev pub ◌>>◌ {ℓ} : {B : Type ℓ} → Outcome (Unit {0}) → Outcome B → Outcome B
m >> k = m >>= λ _. k

-- `if (!test) throw e;`
abbrev pub require : Bool → Exception → Outcome (Unit {0})
require true e = ok tt
require false e = throws e

pub Outcome-cases {ℓ} :
    {A : Type ℓ} (o : Outcome A) → ((a : A) × (o ≡ ok a)) ⊎ ((e : Exception) × (o ≡ throws e))
Outcome-cases (ok a) = inl (a, refl)
Outcome-cases (throws e) = inr (e, refl)

-- `next`, unless the first part threw.
abbrev pub and_then :
    {W : Type 0} → (W → W × Outcome (Unit {0})) → W × Outcome (Unit {0}) → W × Outcome (Unit {0})
and_then next (w, ok u) = next w
and_then next (w, throws e) = (w, throws e)

pub and_then-ok :
    {W : Type 0} (next : W → W × Outcome (Unit {0})) (r : W × Outcome (Unit {0}))
    → r.1 ≡ ok tt
    → and_then next r ≡ next r.0
and_then-ok next (w, ok u) h = refl
and_then-ok next (w, throws e) h = cc h
