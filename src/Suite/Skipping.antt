-- ===== src/Suite/Skipping.antt =====
-- Which endpoints of a suite are run, against a relation that says which should be.
use mathlib.Core.Path.{ap₂}
use mathlib.Core.List.{append_assoc, append-nil}
use ecs_gatus_app.Base.{
  ℕ, ◌≡◌, refl, ap, sym, subst, ◌∙◌, ◌⊎◌, inl, inr, Bool, true, false, not, ◌&&◌, ◌||◌, List, [],
  ◌∷◌, ◌++◌, map, All, arith, Bool-cases, suc,
}
use ecs_gatus_app.Base.Int.{ℤ}
use ecs_gatus_app.Base.Outcome.{Outcome}
use ecs_gatus_app.Base.Text.{Text}
use ecs_gatus_app.Base.Time.{Time}
use ecs_gatus_app.Endpoint.{Endpoint, Result, add_error}
use ecs_gatus_app.Gontext
use ecs_gatus_app.Gontext.{Gontext, Value}
use ecs_gatus_app.Suite.Outcomes.{calculate_success_iff}
use ecs_gatus_app.Suite.{
  Suite, SuiteResult, Run, Loop, check_timeout, store_values, evaluated, step, execute_loop,
  start_loop, with_runs, execute, calculate_success,
}

-- The results that the endpoints of a suite may give, one behind the other; the flag says whether
-- the suite has failed so far.
pub data Ran : Bool → List Endpoint → List Result → Type 0 where
  finish : {failed : Bool} → Ran failed [] []
  -- While nothing has failed every endpoint runs, afterwards those that always run.
  run_one :
      {failed : Bool} {eps : List Endpoint} {rs : List Result} (ep : Endpoint) (r : Result)
      → (failed ≡ false) ⊎ (ep.always_run ≡ true)
      → r.name ≡ ep.name
      → Ran (failed || not r.success) eps rs
      → Ran failed (ep ∷ eps) (r ∷ rs)
  skip_one :
      {failed : Bool} {eps : List Endpoint} {rs : List Result} (ep : Endpoint)
      → failed ≡ true
      → ep.always_run ≡ false
      → Ran failed eps rs
      → Ran failed (ep ∷ eps) rs

Ran-names :
    {failed : Bool} {eps : List Endpoint} {rs : List Result}
    → failed ≡ false
    → Ran failed eps rs
    → All (λ (r : Result). r.success ≡ true) rs
    → map (λ (r : Result). r.name) rs ≡ map (λ (ep : Endpoint). ep.name) eps
Ran-names f finish h = refl
Ran-names f (run_one ep r w e ran) h = ap₂ ◌∷◌ e (Ran-names (ground arith) ran h.1)
Ran-names f (skip_one ep g a ran) h = cc

abbrev pub endpoints_of : List (Endpoint × Run) → List Endpoint
endpoints_of [] = []
endpoints_of ((ep, run) ∷ rest) = ep ∷ endpoints_of rest

module _ (extract : Text → Result → Outcome Text Value) (timed_out : Text) where
  -- The result that an endpoint adds where it is run.
  abbrev pub result_of : Endpoint → Run → Gontext → Result
  result_of ep run ctx =
      (store_values extract timed_out ep ctx (evaluated extract timed_out ep run ctx)).1

  -- The context that it leaves.
  abbrev pub context_of : Endpoint → Run → Gontext → Gontext
  context_of ep run ctx =
      (store_values extract timed_out ep ctx (evaluated extract timed_out ep run ctx)).0

  name-result_of :
      (ep : Endpoint) (run : Run) (ctx : Gontext) → (result_of ep run ctx).name ≡ ep.name
  unfolding store_values evaluated add_error
  name-result_of ep run ctx = ground arith

  pub step_skipped :
      (ep : Endpoint) (run : Run) (l : Loop)
      → l.suite_has_failed ≡ true
      → ep.always_run ≡ false
      → step extract timed_out ep run l ≡ l
  unfolding step
  step_skipped ep run l f a = rw (f, a)

  pub step_run :
      (ep : Endpoint) (run : Run) (l : Loop)
      → (l.suite_has_failed && not ep.always_run) ≡ false
      → ((step extract timed_out ep run l).result.endpoint_results
          ≡ l.result.endpoint_results ++ result_of ep run l.ctx ∷ [])
        × ((step extract timed_out ep run l).suite_has_failed
            ≡ (l.suite_has_failed || not (result_of ep run l.ctx).success))
        × ((step extract timed_out ep run l).ctx ≡ context_of ep run l.ctx)
  unfolding step
  step_run ep run l h = rw h (elim (Bool-cases (run.timer_fired && not l.timer_received)) [
    | inl fired ↦ rw (fired, check_timeout) (refl, refl, refl)
    | inr quiet ↦ rw (quiet, check_timeout) (refl, refl, refl)
  ])

  -- The results that a rest of the endpoints adds to those that are there.
  abbrev Adds : List (Endpoint × Run) → Loop → Type 0
  Adds rest l =
      (rs : List Result) × ((execute_loop extract timed_out rest l).result.endpoint_results
        ≡ l.result.endpoint_results ++ rs)
      × Ran l.suite_has_failed (endpoints_of rest) rs

  execute_loop-Ran : (rest : List (Endpoint × Run)) (l : Loop) → Adds rest l
  unfolding execute_loop
  execute_loop-Ran [] l = ([], sym (append-nil l.result.endpoint_results), finish)
  execute_loop-Ran ((ep, run) ∷ rest) l =
      let (rs, e, ran) = execute_loop-Ran rest (step extract timed_out ep run l) in
      elim (Bool-cases (l.suite_has_failed && not ep.always_run)) [
        | inl skipped ↦
            let f : l.suite_has_failed ≡ true = ground arith in
            let a : ep.always_run ≡ false = ground arith in
            let same = step_skipped ep run l f a in
            (
              rs,
              e ∙ ap (λ (m : Loop). m.result.endpoint_results ++ rs) same,
              skip_one ep f a
                  (subst (λ (m : Loop). Ran m.suite_has_failed (endpoints_of rest) rs) same ran),
            )
        | inr runs ↦
            let s = step_run ep run l runs in
            (
              result_of ep run l.ctx ∷ rs,
              e ∙ ap (λ xs. xs ++ rs) s.0 ∙ append_assoc l.result.endpoint_results _ rs,
              run_one ep (result_of ep run l.ctx) (ground arith) (name-result_of ep run l.ctx)
                  (subst (λ b. Ran b (endpoints_of rest) rs) s.1 ran),
            )
      ]

  endpoints_of-with_runs :
      (eps : List Endpoint) (runs : ℕ → Run) → endpoints_of (with_runs eps runs) ≡ eps
  endpoints_of-with_runs [] runs = refl
  endpoints_of-with_runs (ep ∷ eps) runs =
      ap (◌∷◌ ep) (endpoints_of-with_runs eps (λ i. runs (suc i)))

  -- Whatever the health checks give, the results of a suite are those of its endpoints in their
  -- order, named after them: of all endpoints up to the first one that fails, and behind that one
  -- of those exactly that are marked to run always.
  pub execute-Ran :
      (s : Suite) (runs : ℕ → Run) (start : Time) (duration : ℤ)
      → Ran false s.endpoints (execute extract timed_out s runs start duration).endpoint_results
  unfolding execute calculate_success
  execute-Ran s runs start duration =
      let (rs, e, ran) =
        execute_loop-Ran (with_runs s.endpoints runs) (start_loop extract timed_out s start) in
      subst (λ xs. Ran false s.endpoints xs) (sym e)
        (subst (λ eps. Ran false eps rs) (endpoints_of-with_runs s.endpoints runs) ran)

  abbrev last_result : Suite → (ℕ → Run) → Time → ℤ → SuiteResult
  last_result s runs start duration =
      let l =
        execute_loop extract timed_out (with_runs s.endpoints runs)
          (start_loop extract timed_out s start) in
      record l.result { context = Gontext.get_all l.ctx; duration = duration }

  -- If a suite succeeds, then each of its endpoints was run, in their order, and each succeeded.
  pub execute-success :
      (s : Suite) (runs : ℕ → Run) (start : Time) (duration : ℤ)
      → (execute extract timed_out s runs start duration).success ≡ true
      → let rs = (execute extract timed_out s runs start duration).endpoint_results in
        (map (λ (r : Result). r.name) rs ≡ map (λ (ep : Endpoint). ep.name) s.endpoints)
        × All (λ (r : Result). r.success ≡ true) rs
  unfolding execute calculate_success
  execute-success s runs start duration h =
      let ran = execute-Ran s runs start duration in
      let good = ((calculate_success_iff (last_result s runs start duration)).0 h).0 in
      (Ran-names refl ran good, good)
