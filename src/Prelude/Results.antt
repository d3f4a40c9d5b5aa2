-- ===== src/Prelude/Results.antt =====
-- Fallible code: a value or a thrown error, with the notation for chains.
use mathlib.Core.Path.{◌≡◌, refl}
use mathlib.Core.Bool.{Bool, true, false}
use mathlib.Core.Option.{Option, none, some}
use mathlib.Core.Logic.{◌⊎◌, inl, inr}

pub data Result {ℓ} (E : Type 0) (A : Type ℓ) : Type ℓ where
  err : E → Result E A
  ok : A → Result E A

-- `if (test) throw e`.
abbrev pub throw_if : {E : Type 0} → Bool → E → Result E (Unit {0})
throw_if false e = ok tt
throw_if true e = err e

-- A value that the code dereferences, or the error that it throws on `null`.
abbrev pub need {ℓ} : {E : Type 0} {A : Type ℓ} → Option A → E → Result E A
need (some found) e = ok found
need none e = err e

infixl 5 ◌>>=◌
abbrev pub ◌>>=◌ {ℓ κ} :
    {E : Type 0} {A : Type ℓ} {B : Type κ} → Result E A → (A → Result E B) → Result E B
err thrown >>= next = err thrown
ok value >>= next = next value

infixl 5 ◌>>◌
abbrev pub ◌>>◌ {ℓ} : {E : Type 0} {B : Type ℓ} → Result E (Unit {0}) → Result E B → Result E B
first >> second = first >>= λ done. second

-- The class of the error that is thrown, on its reason.
abbrev pub throw_as {ℓ} : {E F : Type 0} {A : Type ℓ} → (E → F) → Result E A → Result F A
throw_as f (err e) = err (f e)
throw_as f (ok a) = ok a

pub Result-cases {ℓ} :
    {E : Type 0} {A : Type ℓ} (m : Result E A) → ((a : A) × (m ≡ ok a)) ⊎ ((e : E) × (m ≡ err e))
Result-cases (err e) = inr (e, refl)
Result-cases (ok a) = inl (a, refl)

-- A chain that returns went through its first step.
pub bind_ok {ℓ κ} :
    {E : Type 0} {A : Type ℓ} {B : Type κ} (m : Result E A) (next : A → Result E B) {b : B}
    → (m >>= next) ≡ ok b
    → (a : A) × (m ≡ ok a) × (next a ≡ ok b)
bind_ok (err e) next h = cc
bind_ok (ok a) next h = (a, refl, h)
