-- ===== src/Suite/Outcomes.antt =====
-- When a suite succeeds.
use ecs_gatus_app.Base.{◌≡◌, refl, ◌↔◌, true, List, [], ◌∷◌, all, All, arith}
use ecs_gatus_app.Endpoint.{Result}
use ecs_gatus_app.Suite.{SuiteResult, calculate_success}

all-All :
    (rs : List Result)
    → (all (λ (e : Result). e.success) rs ≡ true) ↔ All (λ (e : Result). e.success ≡ true) rs
all-All [] = (λ h. tt, λ h. refl)
all-All (r ∷ rs) = ground (arith, all-All rs)

-- A suite's result is a success exactly when every endpoint's result in it is a success and it has
-- no error of its own.
pub calculate_success_iff :
    (r : SuiteResult)
    → ((calculate_success r).success ≡ true)
      ↔ (All (λ (e : Result). e.success ≡ true) r.endpoint_results × (r.errors ≡ []))
unfolding calculate_success
calculate_success_iff r = ground (arith, all-All r.endpoint_results)
