-- ===== src/Suite/Timeout.antt =====
-- The timeout of a suite and its execution.
use mathlib.Core.Path.{ap₂}
use ecs_gatus_app.Base.{
  ℕ, suc, ◌≡◌, refl, ap, sym, ◌∙◌, inl, inr, Bool, true, false, not, ◌&&◌, ◌||◌, List, [], ◌∷◌,
  ◌++◌, arith, Bool-cases,
}
use ecs_gatus_app.Base.Int.{ℤ}
use ecs_gatus_app.Base.Outcome.{Outcome}
use ecs_gatus_app.Base.Text.{Text}
use ecs_gatus_app.Base.Time.{Time}
use ecs_gatus_app.Endpoint.{Endpoint, Result}
use ecs_gatus_app.Gontext
use ecs_gatus_app.Gontext.{Value}
use ecs_gatus_app.Suite.Skipping.{result_of, context_of, step_skipped, step_run}
use ecs_gatus_app.Suite.{
  Suite, Run, Loop, evaluated, step, execute_loop, start_loop, with_runs, execute,
  calculate_success,
}

-- Two loops that have done the same work.
record SameWork (l m : Loop) : Type 0 where
  ctx : l.ctx ≡ m.ctx
  results : l.result.endpoint_results ≡ m.result.endpoint_results
  failed : l.suite_has_failed ≡ m.suite_has_failed

-- The same runs, with another timer.
abbrev pub with_timer : (ℕ → Bool) → (ℕ → Run) → ℕ → Run
with_timer timer runs i = record (runs i) { timer_fired = timer i }

module _ (extract : Text → Result → Outcome Text Value) (timed_out : Text) where
  step-SameWork :
      (ep : Endpoint) (run : Run) (b : Bool) (l m : Loop)
      → SameWork l m
      → SameWork
          (step extract timed_out ep run l)
          (step extract timed_out ep (record run { timer_fired = b }) m)
  unfolding evaluated
  step-SameWork ep run b l m same = elim (Bool-cases (l.suite_has_failed && not ep.always_run)) [
    | inl skipped ↦
        let f : l.suite_has_failed ≡ true = ground arith in
        let a : ep.always_run ≡ false = ground arith in
        rw
          (
            step_skipped extract timed_out ep run l f a,
            step_skipped extract timed_out ep (record run { timer_fired = b }) m
                (sym same.failed ∙ f) a,
          )
          same
    | inr runs ↦
        let s = step_run extract timed_out ep run l runs in
        let t = step_run extract timed_out ep (record run { timer_fired = b }) m (ground arith) in
        let r = ap (result_of extract timed_out ep run) same.ctx in
        record {
          ctx = s.2 ∙ ap (context_of extract timed_out ep run) same.ctx ∙ sym t.2;
          results = s.0 ∙ ap₂ (λ xs x. xs ++ x ∷ []) same.results r ∙ sym t.0;
          failed = s.1 ∙ ap₂ (λ f (x : Result). f || not x.success) same.failed r ∙ sym t.1;
        }
  ]

  execute_loop-SameWork :
      (timer : ℕ → Bool) (runs : ℕ → Run) (eps : List Endpoint) (l m : Loop)
      → SameWork l m
      → SameWork
          (execute_loop extract timed_out (with_runs eps runs) l)
          (execute_loop extract timed_out (with_runs eps (with_timer timer runs)) m)
  unfolding execute_loop
  execute_loop-SameWork timer runs [] l m same = same
  execute_loop-SameWork timer runs (ep ∷ eps) l m same =
      execute_loop-SameWork (λ i. timer (suc i)) (λ i. runs (suc i)) eps _ _
        (step-SameWork ep (runs 0) (timer 0) l m same)

  -- The timer of a suite never stops it: whenever the timer fires, if at all, the same endpoints are
  -- run, in the same contexts, with the same results.
  pub execute_timer_ignored :
      (s : Suite) (runs : ℕ → Run) (timer : ℕ → Bool) (start : Time) (duration : ℤ)
      → let r = execute extract timed_out s runs start duration in
        let t = execute extract timed_out s (with_timer timer runs) start duration in
        (t.endpoint_results ≡ r.endpoint_results) × (t.context ≡ r.context)
  unfolding execute calculate_success
  execute_timer_ignored s runs timer start duration =
      let l = start_loop extract timed_out s start in
      let same =
        execute_loop-SameWork timer runs s.endpoints l l
          (record { ctx = refl; results = refl; failed = refl }) in
      (sym same.results, ap Gontext.get_all (sym same.ctx))
