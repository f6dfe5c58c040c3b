-- ===== src/Watchdog/Checks/Reminders.antt =====
-- What becomes of the reminder interval of an external endpoint's alerts.
use ecs_gatus_app.Base.{
  ℕ, suc, ◌≡◌, ◌≤◌, refl, ◌∙◌, true, false, not, ◌&&◌, ◌||◌, none, some, List, [], ◌∷◌, ◌++◌, All,
  if◌then◌else◌, arith,
}
use mathlib.Core.Path.{ap₂}
use ecs_gatus_app.Base.Int.{pos, ltb_ℤ, leb_ℤ, ◌≤ℤ◌}
use ecs_gatus_app.Base.Time.{sub}
use ecs_gatus_app.Alert.{Alert, is_enabled}
use ecs_gatus_app.Endpoint.{ExternalEndpoint, Result, to_endpoint}
use ecs_gatus_app.Watchdog.Alerting.{
  AlertingConfig, Round, Effect, sent, get_alerting_provider_by_alert_type,
}
use ecs_gatus_app.Watchdog.Alerting.Triggering.{
  calls_in, call_due, calls_due, calls_in-handle_alerting_of_failure,
}
use ecs_gatus_app.Watchdog.Checks.{Config, Readings, is_alerting_allowed, handle_external_alerting}

-- An alert's calls with no regard to when the last reminder was sent: one whenever the alert is not
-- triggered yet or has a reminder interval at all.
abbrev pub eager_call : AlertingConfig → Round → Result → ℕ → Alert → List Effect
eager_call config rd r failures a =
    if is_enabled a
      && leb_ℤ a.failure_threshold (pos failures)
      && (not a.triggered || ltb_ℤ (pos 0) a.minimum_reminder_interval)
      && not rd.mock
    then elim (get_alerting_provider_by_alert_type config a.type) [
      | none ↦ []
      | some p ↦ sent p a r false ∷ []
    ]
    else []

abbrev pub eager_calls : AlertingConfig → (ℕ → Round) → ℕ → Result → ℕ → List Alert → List Effect
eager_calls config rounds i r failures [] = []
eager_calls config rounds i r failures (a ∷ others) =
    eager_call config (rounds i) r failures a ++ eager_calls config rounds (suc i) r failures others

abbrev pub FitsDuration : Alert → Type 0
FitsDuration a = a.minimum_reminder_interval ≤ℤ pos 9223372036854775807

eager_call_lem :
    (config : AlertingConfig) (rd : Round) (r : Result) (failures : ℕ) (a : Alert)
    → 9223372036854775807 ≤ rd.checked
    → FitsDuration a
    → call_due config rd r failures 0 a ≡ eager_call config rd r failures a
unfolding sub
eager_call_lem config rd r failures a h w = ground arith

eager_calls_lem :
    (config : AlertingConfig) (rounds : ℕ → Round) (i : ℕ) (r : Result) (failures : ℕ)
    (others : List Alert)
    → ((j : ℕ) → 9223372036854775807 ≤ (rounds j).checked)
    → All FitsDuration others
    → calls_due config rounds i r failures 0 others ≡ eager_calls config rounds i r failures others
eager_calls_lem config rounds i r failures [] h w = refl
eager_calls_lem config rounds i r failures (a ∷ others) h (w, ws) =
    ap₂ ◌++◌ (eager_call_lem config (rounds i) r failures a (h i) w)
      (eager_calls_lem config rounds (suc i) r failures others h ws)

-- For an external endpoint with a failed result, outside maintenance, at clock readings from the
-- year 293 on, and with reminder intervals that are Go durations: the provider of an enabled alert
-- whose threshold is reached is called every time if the alert has a reminder interval, however long
-- that is and however recent the last reminder.
pub calls_in-handle_external_alerting :
    (rd : Readings) (cfg : Config) (config : AlertingConfig) (r : Result) (ee : ExternalEndpoint)
    → cfg.alerting ≡ some config
    → is_alerting_allowed rd cfg ee.maintenance_windows ≡ true
    → r.success ≡ false
    → ((j : ℕ) → 9223372036854775807 ≤ (rd.rounds j).checked)
    → All FitsDuration ee.alerts
    → calls_in (handle_external_alerting rd cfg r ee).1
      ≡ eager_calls config rd.rounds 0 r (suc ee.number_of_failures_in_a_row) ee.alerts
unfolding handle_external_alerting to_endpoint
calls_in-handle_external_alerting rd cfg config r ee configured allowed failure late fits =
    simp (allowed, configured)
      (calls_in-handle_alerting_of_failure config rd.rounds r (to_endpoint ee) failure
        ∙ eager_calls_lem config rd.rounds 0 r (suc ee.number_of_failures_in_a_row) ee.alerts late
            fits)
