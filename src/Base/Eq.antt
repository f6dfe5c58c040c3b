-- ===== src/Base/Eq.antt =====
-- Keys that can be compared: the interface, and its instances for texts and integers.
use mathlib.Core.Path.{◌≡◌}
use mathlib.Core.Logic.{◌↔◌}
use mathlib.Core.Bool.{Bool, true}
use native.Mathlib.Omega.{arith}
use ecs_gatus_app.Base.Int.{ℤ, eqb_ℤ}
use ecs_gatus_app.Base.Text.{Text, text_eq, text_eq_iff}

pub record Eq {ℓ} (K : Type ℓ) : Type ℓ where
  -- Go's `==`.
  pub same : K → K → Bool
  pub same_iff : (j k : K) → (same j k ≡ true) ↔ (j ≡ k)

pub eqb_ℤ_iff : (a b : ℤ) → (eqb_ℤ a b ≡ true) ↔ (a ≡ b)
eqb_ℤ_iff a b = ground arith

instance abbrev pub text_key : Eq Text
text_key = record { same = text_eq; same_iff = text_eq_iff }

instance abbrev pub int_key : Eq ℤ
int_key = record { same = eqb_ℤ; same_iff = eqb_ℤ_iff }
