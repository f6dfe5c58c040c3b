-- ===== src/Base/Assoc.antt =====
-- Go maps as association lists.
use mathlib.Core.Path.{◌≡◌, refl}
use mathlib.Core.Bool.{Bool}
use mathlib.Core.List.{List, [], ◌∷◌}
use mathlib.Core.Option.{Option, none, some}
use native.Mathlib.Omega.{arith}
use ecs_gatus_app.Base.Tests.{if◌then◌else◌}
use ecs_gatus_app.Base.Lists.{any}
use ecs_gatus_app.Base.Eq.{Eq}

abbrev pub member {ℓ} : {K : Type ℓ} ⦃e : Eq K⦄ → K → List K → Bool
member ⦃e⦄ k = any (λ j. e.same j k)

module _ {K V : Type 0} ⦃e : Eq K⦄ where
  unfoldable pub lookup : K → List (K × V) → Option V
  lookup k [] = none
  lookup k ((j, v) ∷ m) = if e.same j k then some v else lookup k m

  unfoldable pub insert : K → V → List (K × V) → List (K × V)
  insert k v [] = (k, v) ∷ []
  insert k v ((j, w) ∷ m) = if e.same j k then (k, v) ∷ m else (j, w) ∷ insert k v m

  -- Deleting, while ranging over a map, every key that a test rejects.
  unfoldable pub keep_keys : (K → Bool) → List (K × V) → List (K × V)
  keep_keys p [] = []
  keep_keys p ((j, w) ∷ m) = let rest = keep_keys p m in if p j then (j, w) ∷ rest else rest

  pub lookup-insert :
      (k j : K) (v : V) (m : List (K × V))
      → lookup j (insert k v m) ≡ (if e.same k j then some v else lookup j m)
  unfolding lookup insert
  lookup-insert k j v [] = refl
  lookup-insert k j v ((first, w) ∷ rest) =
      let later = lookup-insert k j v rest in
      ground (arith, later, e.same_iff first k, e.same_iff first j, e.same_iff k j)

  pub lookup-keep_keys :
      (p : K → Bool) (j : K) (m : List (K × V))
      → lookup j (keep_keys p m) ≡ (if p j then lookup j m else none)
  unfolding lookup keep_keys
  lookup-keep_keys p j [] = ground arith
  lookup-keep_keys p j ((i, w) ∷ m) = ground (arith, e.same_iff i j, lookup-keep_keys p j m)
