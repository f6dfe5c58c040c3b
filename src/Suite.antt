-- ===== src/Suite.antt =====
-- app/config/suite: suites (suite.go), their results (result.go) and statuses (suite_status.go).
-- The health check of an endpoint and the extraction of a value from its result are parameters of
-- Execute and of StoreResultValues here.
pub mod Outcomes
pub mod Skipping
pub mod Timeout
pub mod Storing
pub mod Extraction
pub mod Defaults
mod Examples
use ecs_gatus_app.Base.{
  ℕ, suc, Bool, true, false, not, ◌&&◌, ◌||◌, Option, none, some, List, [], ◌∷◌, ◌++◌,
  if◌then◌else◌, all, value_or, length, ◌==◌,
}
use ecs_gatus_app.Base.Int.{ℤ, pos}
use ecs_gatus_app.Base.Text.{Text, codes, join, is_empty}
use ecs_gatus_app.Base.Time.{Time}
use ecs_gatus_app.Base.Outcome.{Outcome, ok, err}
use ecs_gatus_app.Endpoint.{Endpoint, Result, add_error}
use ecs_gatus_app.Gontext
use ecs_gatus_app.Gontext.{Gontext, Value, Entries}
use ecs_gatus_app.Key.{convert_group_and_name_to_key}

pub record Suite : Type 0 where
  pub name : Text
  pub group : Text
  pub enabled : Option Bool
  pub interval : ℤ
  pub timeout : ℤ
  pub initial_context : Entries
  pub endpoints : List Endpoint

pub record SuiteResult : Type 0 where
  pub name : Text
  pub group : Text
  pub success : Bool
  pub timestamp : Time
  pub duration : ℤ
  pub endpoint_results : List Result
  pub context : Entries
  pub errors : List Text

pub record SuiteStatus : Type 0 where
  pub name : Text
  pub group : Text
  pub key : Text
  pub results : List SuiteResult

abbrev pub suite_key : Suite → Text
suite_key s = convert_group_and_name_to_key s.group s.name

unfoldable pub new_suite_status : Suite → SuiteStatus
new_suite_status s = record { name = s.name; group = s.group; key = suite_key s; results = [] }

unfoldable pub suite_is_enabled : Suite → Bool
suite_is_enabled s = value_or s.enabled true

-- AddError of a suite's result, which does not look for duplicates.
unfoldable pub add_suite_error : SuiteResult → Text → SuiteResult
add_suite_error r e = record r { errors = r.errors ++ e ∷ [] }

abbrev is_nil {ℓ} : {A : Type ℓ} → List A → Bool
is_nil [] = true
is_nil (x ∷ xs) = false

unfoldable pub calculate_success : SuiteResult → SuiteResult
calculate_success r = record r {
  success = all (λ (e : Result). e.success) r.endpoint_results && is_nil r.errors;
}

-- The loop of StoreResultValues over the mappings, in the order in which Go ranges over the map:
-- the context, the values stored, and the texts of the errors. Set returns no error.
pub record Stored : Type 0 where
  pub context : Gontext
  pub values : List (Text × Value)
  pub extraction_errors : List Text

module _ (extract_value_for_storage : Text → Result → Outcome Text Value) where
  store_value : Text → Outcome Text Value → Stored → Stored
  store_value k (ok v) s = record {
    context = Gontext.set k v s.context;
    values = s.values ++ (k, v) ∷ [];
    extraction_errors = s.extraction_errors;
  }
  store_value k (err e) s = record {
    context = s.context;
    values = s.values ++ (k, Value.string (codes "ERROR: " ++ e)) ∷ [];
    extraction_errors = s.extraction_errors ++ (k ++ (codes ": " ++ e)) ∷ [];
  }

  unfoldable pub store_loop : List (Text × Text) → Result → Stored → Stored
  unfolding store_value
  store_loop [] r s = s
  store_loop ((k, placeholder) ∷ mappings) r s =
      store_loop mappings r (store_value k (extract_value_for_storage placeholder r) s)

  -- The context, and the text of the error that is returned.
  unfoldable pub store_result_values : Gontext → List (Text × Text) → Result → Gontext × Option Text
  unfolding store_loop
  store_result_values ctx mappings r =
      let s =
        store_loop mappings r (record { context = ctx; values = []; extraction_errors = [] }) in
      (
        s.context,
        if is_nil s.extraction_errors
            then none
            else some (codes "failed to extract values: " ++ join (codes "; ") s.extraction_errors),
      )

-- What happens outside while the loop of Execute is at one endpoint: whether the timer of the
-- suite has fired by then, what the endpoint's health check gives in a context, and when.
pub record Run : Type 0 where
  pub timer_fired : Bool
  pub evaluate_health_with_context : Gontext → Result
  pub ep_start_time : Time
  pub ep_duration : ℤ

abbrev pub with_runs : List Endpoint → (ℕ → Run) → List (Endpoint × Run)
with_runs [] runs = []
with_runs (ep ∷ eps) runs = (ep, runs 0) ∷ with_runs eps (λ i. runs (suc i))

-- The variables of the loop: the timer's channel yields one value only.
pub record Loop : Type 0 where
  pub ctx : Gontext
  pub result : SuiteResult
  pub suite_has_failed : Bool
  pub timer_received : Bool

module _ (extract_value_for_storage : Text → Result → Outcome Text Value) (timed_out : Text) where
  -- The select on the timer. Its `break` leaves the select, not the loop.
  check_timeout : Run → Loop → Loop
  unfolding add_suite_error
  check_timeout run l =
      if run.timer_fired && not l.timer_received
      then record l {
        result = record (add_suite_error l.result timed_out) { success = false };
        timer_received = true;
      }
      else l

  -- The values of the endpoint are stored even if it failed.
  pub store_values : Endpoint → Gontext → Result → Gontext × Result
  store_values ep ctx r =
      let (ctx', e) = store_result_values extract_value_for_storage ctx ep.store r in
      (
        ctx',
        elim e [ none ↦ r | some text ↦ add_error r (codes "failed to store values: " ++ text) ],
      )

  -- The result of the health check, with the name, the timestamp and the duration set.
  pub evaluated : Endpoint → Run → Gontext → Result
  evaluated ep run ctx = record (run.evaluate_health_with_context ctx) {
    name = ep.name;
    timestamp = run.ep_start_time;
    duration = run.ep_duration;
  }

  run_endpoint : Endpoint → Run → Loop → Loop
  unfolding store_values evaluated
  run_endpoint ep run l =
      let (ctx, ep_result) = store_values ep l.ctx (evaluated ep run l.ctx) in
      record l {
        ctx = ctx;
        result = record l.result {
          endpoint_results = l.result.endpoint_results ++ ep_result ∷ [];
          success = l.result.success && ep_result.success;
        };
        suite_has_failed = l.suite_has_failed || not ep_result.success;
      }

  unfoldable pub step : Endpoint → Run → Loop → Loop
  unfolding check_timeout run_endpoint
  step ep run l =
      if l.suite_has_failed && not ep.always_run
      then l
      else run_endpoint ep run (check_timeout run l)

  unfoldable pub execute_loop : List (Endpoint × Run) → Loop → Loop
  execute_loop [] l = l
  execute_loop ((ep, run) ∷ rest) l = execute_loop rest (step ep run l)

  abbrev pub start_loop : Suite → Time → Loop
  start_loop s start = record {
    ctx = Gontext.new s.initial_context;
    result = record {
      name = s.name;
      group = s.group;
      success = true;
      timestamp = start;
      duration = pos 0;
      endpoint_results = [];
      context = Entries.end;
      errors = [];
    };
    suite_has_failed = false;
    timer_received = false;
  }

  -- `runs` has the run of each endpoint, by its position; `duration` is the time that all took.
  unfoldable pub execute : Suite → (ℕ → Run) → Time → ℤ → SuiteResult
  unfolding execute_loop
  execute s runs start duration =
      let l = execute_loop (with_runs s.endpoints runs) (start_loop s start) in
      calculate_success (record l.result { context = Gontext.get_all l.ctx; duration = duration })
