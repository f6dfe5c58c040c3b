-- ===== src/Watchdog/Examples.antt =====
-- Checks of an endpoint with two alerts, and a pushed result.
use ecs_gatus_app.Base.{
  ℕ, ◌+◌, ◌≡◌, refl, Bool, true, false, not, ◌&&◌, none, some, List, [], ◌∷◌, map, length,
  if◌then◌else◌, arith,
}
use ecs_gatus_app.Base.Int.{ℤ, pos}
use ecs_gatus_app.Base.Text.{codes}
use ecs_gatus_app.Base.Time.{Time}
use ecs_gatus_app.Base.Outcome.{err}
use ecs_gatus_app.Alert.{Alert}
use ecs_gatus_app.Maintenance
use ecs_gatus_app.Maintenance.TimeZone.{utc}
use ecs_gatus_app.Endpoint.{Endpoint, ExternalEndpoint, Result, zero_result}
use ecs_gatus_app.Watchdog.Alerting.{AlertingConfig, Round, handle_alerting}
use ecs_gatus_app.Watchdog.Alerting.Triggering.{
  triggered_after, calls_in, calls_due, triggered-handle_alerting_of_failure,
  calls_in-handle_alerting_of_failure,
}
use ecs_gatus_app.Watchdog.Alerting.Resolving.{
  is_resolved, resolutions, resolved-handle_alerting_of_success,
}
use ecs_gatus_app.Watchdog.Alerting.Counters.{handle_all, in_a_row, counters-handle_all}
use ecs_gatus_app.Watchdog.Alerting.Notified.{
  Answers, triggered_count, all_announcements, StayTriggered, calls_in-handle_all_of_failures,
}
use ecs_gatus_app.Watchdog.Checks.{
  Config, Readings, check_connectivity, in_endpoint_maintenance_window, execute_endpoint,
  handle_external_alerting,
}
use ecs_gatus_app.Watchdog.Checks.Silence.{
  insertions, alerts_in, goes_ahead, alerts_handled, execute_endpoint_lem,
}
use ecs_gatus_app.Watchdog.Checks.Reminders.{eager_calls, calls_in-handle_external_alerting}
use ecs_gatus_app.Watchdog.Push.{Request, Handling, stored, create_external_endpoint_result}
use ecs_gatus_app.Watchdog.Push.Authorized.{Outcomes, create_external_endpoint_result-Outcomes}

abbrev slack : AlertingConfig
slack = record { fields = (codes "pagerduty", none) ∷ (codes "slack", some (codes "slack")) ∷ [] }

abbrev alert : ℤ → ℤ → Bool → Alert
alert threshold reminder triggered = record {
  type = codes "slack";
  enabled = none;
  failure_threshold = threshold;
  success_threshold = pos 1;
  minimum_reminder_interval = reminder;
  description = none;
  send_on_resolved = some true;
  resolve_key = [];
  triggered = triggered;
}

abbrev web : List Alert → Endpoint
web alerts = record {
  enabled = none;
  name = codes "web";
  group = codes "core";
  url = codes "https://example.org";
  method = [];
  body = [];
  graph_ql = false;
  headers = [];
  interval = pos 0;
  conditions = [];
  dns_config = none;
  ssh_config = none;
  client_config = none;
  ui_config = none;
  alerts = alerts;
  maintenance_windows = [];
  number_of_failures_in_a_row = 0;
  number_of_successes_in_a_row = 0;
  last_reminder_sent = 0;
  store = [];
  always_run = false;
}

abbrev plain_alerts : List Alert
plain_alerts = alert (pos 1) (pos 0) false ∷ alert (pos 2) (pos 0) false ∷ []

-- The year 2024.
abbrev today : Time
today = 63_850_161_600_000_000_000

abbrev rounds : ℕ → Round
rounds i = record {
  checked = today;
  sent_at = today;
  mock = false;
  mock_error = false;
  send_error = false;
  resolve_key = codes "key";
}

abbrev failure : Result
failure = zero_result

abbrev success : Result
success = record zero_result { success = true }

triggered-handle_alerting_of_failure_example :
    map
      (λ (a : Alert). a.triggered)
      (handle_alerting (some slack) rounds failure (web plain_alerts)).0.alerts
    ≡ triggered_after slack rounds 0 1 plain_alerts
triggered-handle_alerting_of_failure_example =
    triggered-handle_alerting_of_failure slack rounds failure (web plain_alerts) refl

calls_in-handle_alerting_of_failure_example :
    calls_in (handle_alerting (some slack) rounds failure (web plain_alerts)).1
    ≡ calls_due slack rounds 0 failure 1 0 plain_alerts
calls_in-handle_alerting_of_failure_example =
    calls_in-handle_alerting_of_failure slack rounds failure (web plain_alerts) refl

abbrev triggered_alerts : List Alert
triggered_alerts = alert (pos 1) (pos 0) true ∷ []

resolved-handle_alerting_of_success_example :
    (map
        (λ (a : Alert). a.triggered)
        (handle_alerting (some slack) rounds success (web triggered_alerts)).0.alerts
      ≡ map (λ (a : Alert). a.triggered && not (is_resolved 1 a)) triggered_alerts)
    × ((handle_alerting (some slack) rounds success (web triggered_alerts)).1
        ≡ resolutions slack success 1 triggered_alerts)
resolved-handle_alerting_of_success_example =
    resolved-handle_alerting_of_success slack rounds success (web triggered_alerts) refl

abbrev three_failures : List ((ℕ → Round) × Result)
three_failures = (rounds, failure) ∷ (rounds, failure) ∷ (rounds, failure) ∷ []

calls_in-handle_all_of_failures_example :
    (calls_in (handle_all slack three_failures (web plain_alerts)).1
      ≡ all_announcements slack three_failures (web plain_alerts))
    × StayTriggered plain_alerts (handle_all slack three_failures (web plain_alerts)).0.alerts
    × (triggered_count plain_alerts
          + length (calls_in (handle_all slack three_failures (web plain_alerts)).1)
        ≡ triggered_count (handle_all slack three_failures (web plain_alerts)).0.alerts)
calls_in-handle_all_of_failures_example =
    let answers : (i : ℕ) → Answers (rounds i) = λ i. record { real = refl; no_error = refl } in
    calls_in-handle_all_of_failures slack three_failures (web plain_alerts)
      (refl, answers, (refl, answers, (refl, answers, tt))) (refl, (refl, tt))

abbrev mixed : List ((ℕ → Round) × Result)
mixed = (rounds, success) ∷ (rounds, failure) ∷ (rounds, failure) ∷ []

counters-handle_all_example :
    ((handle_all slack mixed (web plain_alerts)).0.number_of_failures_in_a_row
      ≡ in_a_row false 0 mixed)
    × ((handle_all slack mixed (web plain_alerts)).0.number_of_successes_in_a_row
        ≡ in_a_row true 0 mixed)
counters-handle_all_example = counters-handle_all slack mixed (web plain_alerts)

-- No maintenance, and no connectivity checker.
abbrev config : Config
config = record {
  checker = none;
  maintenance = Maintenance.default_config;
  alerting = some slack;
  metrics = true;
}

abbrev readings : Readings
readings = record {
  acquired = true;
  connectivity_now = today;
  connection_found = true;
  local = utc;
  window_now = λ i. today;
  maintenance_now = today;
  rounds = rounds;
}

execute_endpoint_lem_example :
    let alerting = (check_connectivity readings config).1.alerting in
    (insertions (execute_endpoint readings (λ e. failure) config (web plain_alerts)).2
      ≡ (if goes_ahead readings config then (web plain_alerts, failure) ∷ [] else []))
    × ((execute_endpoint readings (λ e. failure) config (web plain_alerts)).1 ≡ (
        if alerts_handled readings config (web plain_alerts)
        then (handle_alerting alerting rounds failure (web plain_alerts)).0
        else web plain_alerts))
    × (alerts_in (execute_endpoint readings (λ e. failure) config (web plain_alerts)).2 ≡ (
        if alerts_handled readings config (web plain_alerts)
        then (handle_alerting alerting rounds failure (web plain_alerts)).1
        else []))
execute_endpoint_lem_example =
    execute_endpoint_lem readings (λ e. failure) config (web plain_alerts)

-- A reminder each hour is asked for; the alert is triggered.
abbrev pushed : ExternalEndpoint
pushed = record {
  enabled = none;
  name = codes "job";
  group = codes "core";
  token = codes "secret";
  alerts = alert (pos 1) (pos 3_600_000_000_000) true ∷ [];
  maintenance_windows = [];
  heartbeat_interval = pos 0;
  number_of_failures_in_a_row = 4;
  number_of_successes_in_a_row = 0;
}

calls_in-handle_external_alerting_example :
    calls_in (handle_external_alerting readings config failure pushed).1
    ≡ eager_calls slack rounds 0 failure 5 pushed.alerts
unfolding Maintenance.is_under_maintenance in_endpoint_maintenance_window
calls_in-handle_external_alerting_example =
    calls_in-handle_external_alerting readings config slack failure pushed refl refl refl
      (λ j. omega arith) (omega arith, tt)

abbrev request : Request
request = record {
  success = some (codes "false");
  success_flag = false;
  authorization = codes "Bearer secret";
  key = codes "core_job";
  duration = [];
  error = codes "out of disk";
}

abbrev handling : Handling
handling = record {
  now = today;
  parse_duration = λ t. err (codes "no durations here");
  insertion = stored;
  readings = readings;
}

create_external_endpoint_result-Outcomes_example :
    Outcomes handling config request
      (pushed ∷ [])
      (create_external_endpoint_result handling config request (pushed ∷ []))
create_external_endpoint_result-Outcomes_example =
    create_external_endpoint_result-Outcomes handling config request (pushed ∷ [])
