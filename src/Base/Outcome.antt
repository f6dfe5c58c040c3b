-- ===== src/Base/Outcome.antt =====
-- A Go pair (value, error) of which one part counts: a value, or an error.
use mathlib.Core.Path.{◌≡◌, refl, sym, ap, ◌∙◌}
use mathlib.Core.Logic.{◌⊎◌, inl, inr}
use mathlib.Core.Bool.{Bool, true, false}

pub data Outcome {ℓ} (E : Type ℓ) (A : Type ℓ) : Type ℓ where
  ok : A → Outcome E A
  err : E → Outcome E A

infixl 5 ◌>>=◌ ◌>>◌
abbrev pub ◌>>=◌ {ℓ} : {E A B : Type ℓ} → Outcome E A → (A → Outcome E B) → Outcome E B
ok a >>= f = f a
err e >>= f = err e

abbrev pub ◌>>◌ {ℓ} : {E A : Type ℓ} → Outcome E (Unit {ℓ}) → Outcome E A → Outcome E A
ok u >> k = k
err e >> k = err e

-- `if test { return err }`.
abbrev pub fail_if {ℓ} : {E : Type ℓ} → Bool → E → Outcome E (Unit {ℓ})
fail_if true e = err e
fail_if false e = ok tt

pub Outcome-cases {ℓ} :
    {E A : Type ℓ} (o : Outcome E A) → ((a : A) × (o ≡ ok a)) ⊎ ((e : E) × (o ≡ err e))
Outcome-cases (ok a) = inl (a, refl)
Outcome-cases (err e) = inr (e, refl)

abbrev pub value_of_ok {ℓ} : {E A : Type ℓ} → A → Outcome E A → A
value_of_ok d (ok a) = a
value_of_ok d (err e) = d

pub ok-injective {ℓ} : {E A : Type ℓ} (a b : A) (o : Outcome E A) → o ≡ ok a → o ≡ ok b → a ≡ b
ok-injective a b o h k = sym (ap (value_of_ok a) h) ∙ ap (value_of_ok a) k

-- Both steps of a sequence that succeeds succeed.
pub bind-ok {ℓ} :
    {E A B : Type ℓ} (o : Outcome E A) (f : A → Outcome E B) (b : B)
    → (o >>= f) ≡ ok b
    → (a : A) × (o ≡ ok a) × (f a ≡ ok b)
bind-ok (ok a) f b h = (a, refl, h)
bind-ok (err e) f b h = absurd cc
