-- ===== src/Watchdog/Alerting/Triggering.antt =====
-- Which alerts are triggered by a failed check, and which are notified of.
use ecs_gatus_app.Base.{
  ℕ, suc, ◌≡◌, refl, ap, ◌∙◌, Bool, true, false, not, ◌&&◌, ◌||◌, none, some, List, [], ◌∷◌, ◌++◌,
  map, if◌then◌else◌, arith,
}
use mathlib.Core.Path.{ap₂}
use ecs_gatus_app.Base.Int.{pos, leb_ℤ}
use ecs_gatus_app.Base.Time.{Time}
use ecs_gatus_app.Alert.{Alert, is_enabled}
use ecs_gatus_app.Endpoint.{Endpoint, Result}
use ecs_gatus_app.Watchdog.Alerting.{
  AlertingConfig, Round, Effect, sent, notify, failed, is_reminder_due,
  get_alerting_provider_by_alert_type, trigger_alert, trigger_alerts, handle_alerts_to_trigger,
  handle_alerts_to_resolve, handle_alerting,
}

abbrev has_provider : AlertingConfig → Alert → Bool
has_provider config a = elim (get_alerting_provider_by_alert_type config a.type) [
  | none ↦ false
  | some p ↦ true
]

-- A failed check number `failures` in a row is reason to notify, and the notification succeeds.
abbrev pub is_notified : AlertingConfig → Round → ℕ → Alert → Bool
is_notified config rd failures a =
    is_enabled a
    && leb_ℤ a.failure_threshold (pos failures)
    && has_provider config a
    && not (failed rd)

abbrev pub triggered_after : AlertingConfig → (ℕ → Round) → ℕ → ℕ → List Alert → List Bool
triggered_after config rounds i failures [] = []
triggered_after config rounds i failures (a ∷ others) =
    (a.triggered || is_notified config (rounds i) failures a)
    ∷ triggered_after config rounds (suc i) failures others

triggered-trigger_alert :
    (config : AlertingConfig) (rd : Round) (r : Result) (failures : ℕ) (last : Time) (a : Alert)
    → (trigger_alert config rd r failures last a).alert.triggered
      ≡ (a.triggered || is_notified config rd failures a)
unfolding trigger_alert notify
triggered-trigger_alert config rd r failures last a = ground arith

triggered-trigger_alerts :
    (config : AlertingConfig) (rounds : ℕ → Round) (i : ℕ) (r : Result) (failures : ℕ) (last : Time)
    (others : List Alert)
    → map
        (λ (a : Alert). a.triggered)
        (trigger_alerts config rounds i r failures last others).alerts
      ≡ triggered_after config rounds i failures others
unfolding trigger_alerts
triggered-trigger_alerts config rounds i r failures last [] = refl
triggered-trigger_alerts config rounds i r failures last (a ∷ others) =
    ap₂ ◌∷◌ (triggered-trigger_alert config (rounds i) r failures last a)
      (triggered-trigger_alerts config rounds (suc i) r failures last others)

pub handle_alerting-failure :
    (config : AlertingConfig) (rounds : ℕ → Round) (r : Result) (ep : Endpoint)
    → r.success ≡ false
    → handle_alerting (some config) rounds r ep ≡ handle_alerts_to_trigger config rounds r ep
unfolding handle_alerting
handle_alerting-failure config rounds r ep h =
    ap
      (λ b.
        if b
        then handle_alerts_to_resolve config rounds r ep
        else handle_alerts_to_trigger config rounds r ep)
      h

-- HandleAlerting, with an alerting configuration and a failed result: an alert is triggered
-- afterwards if and only if it was before, or it is enabled, the failures in a row (this one
-- included) have reached its threshold, a provider is configured for it and the notification did
-- not fail. A reminder that fails does not clear the flag.
pub triggered-handle_alerting_of_failure :
    (config : AlertingConfig) (rounds : ℕ → Round) (r : Result) (ep : Endpoint)
    → r.success ≡ false
    → map (λ (a : Alert). a.triggered) (handle_alerting (some config) rounds r ep).0.alerts
      ≡ triggered_after config rounds 0 (suc ep.number_of_failures_in_a_row) ep.alerts
unfolding handle_alerts_to_trigger
triggered-handle_alerting_of_failure config rounds r ep h =
    ap (λ (x : Endpoint × List Effect). map (λ (a : Alert). a.triggered) x.0.alerts)
      (handle_alerting-failure config rounds r ep h)
    ∙ triggered-trigger_alerts config rounds 0 r (suc ep.number_of_failures_in_a_row)
        ep.last_reminder_sent ep.alerts

-- The calls of Send among some effects.
abbrev pub calls_in : List Effect → List Effect
calls_in [] = []
calls_in (sent p a r resolved ∷ es) = sent p a r resolved ∷ calls_in es
calls_in (Effect.upserted a n ∷ es) = calls_in es
calls_in (Effect.deleted a ∷ es) = calls_in es

-- The calls of Send that a failed check should make for one alert: one, for an enabled alert that
-- has reached its threshold and is not triggered yet or due a reminder, counted from `last`.
abbrev pub call_due : AlertingConfig → Round → Result → ℕ → Time → Alert → List Effect
call_due config rd r failures last a =
    if is_enabled a
      && leb_ℤ a.failure_threshold (pos failures)
      && (not a.triggered || is_reminder_due rd last a)
      && not rd.mock
    then elim (get_alerting_provider_by_alert_type config a.type) [
      | none ↦ []
      | some p ↦ sent p a r false ∷ []
    ]
    else []

abbrev pub calls_due :
    AlertingConfig → (ℕ → Round) → ℕ → Result → ℕ → Time → List Alert → List Effect
calls_due config rounds i r failures last [] = []
calls_due config rounds i r failures last (a ∷ others) =
    call_due config (rounds i) r failures last a
    ++ calls_due config rounds (suc i) r failures last others

pub calls_in-append : (es fs : List Effect) → calls_in (es ++ fs) ≡ calls_in es ++ calls_in fs
calls_in-append [] fs = refl
calls_in-append (sent p a r resolved ∷ es) fs =
    ap (◌∷◌ (sent p a r resolved)) (calls_in-append es fs)
calls_in-append (Effect.upserted a n ∷ es) fs = calls_in-append es fs
calls_in-append (Effect.deleted a ∷ es) fs = calls_in-append es fs

calls_in-trigger_alert :
    (config : AlertingConfig) (rd : Round) (r : Result) (failures : ℕ) (last : Time) (a : Alert)
    → calls_in (trigger_alert config rd r failures last a).effects
      ≡ call_due config rd r failures last a
unfolding trigger_alert notify
calls_in-trigger_alert config rd r failures last a = ground arith

calls_in-trigger_alerts :
    (config : AlertingConfig) (rounds : ℕ → Round) (i : ℕ) (r : Result) (failures : ℕ) (last : Time)
    (others : List Alert)
    → calls_in (trigger_alerts config rounds i r failures last others).effects
      ≡ calls_due config rounds i r failures last others
unfolding trigger_alerts
calls_in-trigger_alerts config rounds i r failures last [] = refl
calls_in-trigger_alerts config rounds i r failures last (a ∷ others) =
    calls_in-append (trigger_alert config (rounds i) r failures last a).effects _
    ∙ ap₂ ◌++◌ (calls_in-trigger_alert config (rounds i) r failures last a)
        (calls_in-trigger_alerts config rounds (suc i) r failures last others)

-- HandleAlerting, with an alerting configuration and a failed result, calls the providers of just
-- those enabled alerts whose threshold is reached and which are not triggered yet or are due a
-- reminder, in the order of the alerts and each at most once; with the environment's mock, of none.
-- Whether a reminder is due is told from the LastReminderSent before the check, for every alert,
-- also when a notification for an earlier alert has set it.
pub calls_in-handle_alerting_of_failure :
    (config : AlertingConfig) (rounds : ℕ → Round) (r : Result) (ep : Endpoint)
    → r.success ≡ false
    → calls_in (handle_alerting (some config) rounds r ep).1
      ≡ calls_due config rounds 0 r
          (suc ep.number_of_failures_in_a_row)
          ep.last_reminder_sent
          ep.alerts
unfolding handle_alerts_to_trigger
calls_in-handle_alerting_of_failure config rounds r ep h =
    ap (λ (x : Endpoint × List Effect). calls_in x.1) (handle_alerting-failure config rounds r ep h)
    ∙ calls_in-trigger_alerts config rounds 0 r (suc ep.number_of_failures_in_a_row)
        ep.last_reminder_sent ep.alerts
