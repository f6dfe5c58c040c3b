-- ===== src/Suite/Examples.antt =====
-- A suite of three endpoints, the second of which fails and the third of which always runs.
use ecs_gatus_app.Base.{ℕ, ◌≡◌, refl, Bool, true, false, none, [], ◌∷◌, map, All}
use ecs_gatus_app.Base.Int.{pos, ◌<ℤ◌}
use ecs_gatus_app.Base.Text.{Text, codes, split, text_eq, contains_any, to_upper, trim_space}
use ecs_gatus_app.Base.Strings.{split_by}
use ecs_gatus_app.Base.Outcome.{Outcome, ok, err}
use ecs_gatus_app.Endpoint.{Endpoint, Result, zero_result}
use ecs_gatus_app.Gontext
use ecs_gatus_app.Gontext.{Value, int64, Entries, Gontext}
use ecs_gatus_app.Suite.{
  Suite, Run, execute, execute_loop, step, calculate_success, store_result_values, store_loop,
}
use ecs_gatus_app.Health.Sample.{outside, query, queried}
use ecs_gatus_app.Suite.Defaults.{
  validate_and_set_defaults, names, validate_and_set_defaults-IsDistinct,
}
use ecs_gatus_app.Endpoint.Errors.{IsDistinct}
use ecs_gatus_app.Suite.Skipping.{Ran, execute-Ran}
use ecs_gatus_app.Suite.Timeout.{with_timer, execute_timer_ignored}
use ecs_gatus_app.Suite.Storing.{get-store_result_values}

-- The status of a result, and nothing else, can be extracted.
abbrev extract : Text → Result → Outcome Text Value
extract [] r = err (codes "empty placeholder")
extract (c ∷ cs) r = ok (int64 r.http_status)

abbrev endpoint : Text → Bool → Endpoint
endpoint name always = record {
  enabled = none;
  name = name;
  group = [];
  url = codes "https://example.org";
  method = [];
  body = [];
  graph_ql = false;
  headers = [];
  interval = pos 0;
  conditions = [];
  dns_config = none;
  ssh_config = none;
  client_config = none;
  ui_config = none;
  alerts = [];
  maintenance_windows = [];
  number_of_failures_in_a_row = 0;
  number_of_successes_in_a_row = 0;
  last_reminder_sent = 0;
  store = (codes "status", codes "[STATUS]") ∷ [];
  always_run = always;
}

abbrev suite : Suite
suite = record {
  name = codes "checkout";
  group = codes "shop";
  enabled = none;
  interval = pos 60_000_000_000;
  timeout = pos 300_000_000_000;
  initial_context = Entries.end;
  endpoints =
      endpoint (codes "login") false
      ∷ endpoint (codes "pay") false
      ∷ endpoint (codes "ship") false
      ∷ endpoint (codes "logout") true
      ∷ [];
}

abbrev answer : Bool → Run
answer good = record {
  timer_fired = false;
  evaluate_health_with_context =
      λ ctx. record zero_result { http_status = pos 200; success = good };
  ep_start_time = 0;
  ep_duration = pos 5;
}

-- The endpoint at position 1 fails.
abbrev runs : ℕ → Run
runs ℕ.zero = answer true
runs (ℕ.suc ℕ.zero) = answer false
runs (ℕ.suc (ℕ.suc i)) = answer true

abbrev good_runs : ℕ → Run
good_runs i = answer true

names_run :
    map
      (λ (r : Result). r.name)
      (execute extract (codes "timeout") suite runs 0 (pos 20)).endpoint_results
    ≡ codes "login" ∷ codes "pay" ∷ codes "logout" ∷ []
unfolding execute execute_loop step store_result_values store_loop calculate_success
names_run = refl

execute-Ran_example :
    Ran false suite.endpoints
      (execute extract (codes "timeout") suite runs 0 (pos 20)).endpoint_results
execute-Ran_example = execute-Ran extract (codes "timeout") suite runs 0 (pos 20)

execute_timer_ignored_example :
    let r = execute extract (codes "timeout") suite runs 0 (pos 20) in
    let t = execute extract (codes "timeout") suite (with_timer (λ i. true) runs) 0 (pos 20) in
    (t.endpoint_results ≡ r.endpoint_results) × (t.context ≡ r.context)
execute_timer_ignored_example =
    execute_timer_ignored extract (codes "timeout") suite runs (λ i. true) 0 (pos 20)

abbrev result : Result
result = record zero_result { http_status = pos 200 }

get-store_result_values_example :
    Gontext.get
      (codes "user.id")
      (store_result_values extract
        (Gontext.new Entries.end)
        ((codes "user", []) ∷ (codes "user.id", codes "[STATUS]") ∷ (codes "user.name", []) ∷ [])
        result).0
    ≡ ok (int64 (pos 200))
unfolding split text_eq
get-store_result_values_example =
    get-store_result_values extract result (Gontext.new Entries.end) ((codes "user", []) ∷ [])
      ((codes "user.name", []) ∷ []) (codes "user.id") (codes "[STATUS]") (int64 (pos 200)) refl
      ((λ failed. absurd failed), tt)

-- A suite of one DNS query, with the default times.
abbrev lookups : Suite
lookups = record suite { group = []; timeout = pos 0; endpoints = query ∷ [] }

abbrev validated_lookups : Suite
validated_lookups = record lookups { timeout = pos 300_000_000_000; endpoints = queried ∷ [] }

lookups_accepted : validate_and_set_defaults outside lookups ≡ ok validated_lookups
unfolding validate_and_set_defaults contains_any split_by to_upper trim_space
lookups_accepted = refl

validate_and_set_defaults-IsDistinct_example :
    IsDistinct (names validated_lookups.endpoints)
    × All (λ (e : Endpoint). e.group ≡ lookups.group) validated_lookups.endpoints
    × (pos 0 <ℤ validated_lookups.timeout)
validate_and_set_defaults-IsDistinct_example =
    validate_and_set_defaults-IsDistinct outside lookups validated_lookups lookups_accepted
