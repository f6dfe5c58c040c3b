-- ===== src/Watchdog/Alerting.antt =====
-- app/watchdog/alerting.go, and the look-up of a provider in app/alerting/config.go. What the code
-- does to the outside (calls of a provider, of the store) is a list of effects, what it gets from
-- there (the clock, the environment variables, what a provider answers) is a Round for each alert.
pub mod Triggering
pub mod Resolving
pub mod Counters
pub mod Notified
use ecs_gatus_app.Base.{
  ℕ, suc, ◌+◌, Bool, true, false, not, ◌&&◌, ◌||◌, Option, none, some, List, [], ◌∷◌, ◌++◌,
  if◌then◌else◌,
}
use ecs_gatus_app.Base.Int.{ℤ, pos, ltb_ℤ, leb_ℤ}
use ecs_gatus_app.Base.Text.{Text, text_eq}
use ecs_gatus_app.Base.Time.{Time, sub}
use ecs_gatus_app.Alert.{Alert, is_enabled, is_sending_on_resolved}
use ecs_gatus_app.Endpoint.{Endpoint, Result}

-- alerting.Config: its fields in their order, each with the name in its yaml tag and the provider
-- that is configured, if any. A name stands for the provider.
pub record AlertingConfig : Type 0 where
  pub fields : List (Text × Option Text)

provider_in : List (Text × Option Text) → Text → Option Text
provider_in [] type = none
provider_in ((tag, provider) ∷ fields) type =
    if text_eq tag type then provider else provider_in fields type

unfoldable pub get_alerting_provider_by_alert_type : AlertingConfig → Text → Option Text
unfolding provider_in
get_alerting_provider_by_alert_type config type = provider_in config.fields type

-- What one alert's turn of a loop reads.
pub record Round : Type 0 where
  -- The clock in time.Since, and in time.Now after a notification.
  pub checked : Time
  pub sent_at : Time
  -- MOCK_ALERT_PROVIDER and MOCK_ALERT_PROVIDER_ERROR are "true".
  pub mock : Bool
  pub mock_error : Bool
  -- Whether alertProvider.Send returns an error, and the ResolveKey that it leaves in the alert.
  pub send_error : Bool
  pub resolve_key : Text

pub data Effect : Type 0 where
  -- alertProvider.Send(ep, endpointAlert, result, resolved).
  sent : Text → Alert → Result → Bool → Effect
  -- UpsertTriggeredEndpointAlert(ep, endpointAlert), which saves ep.NumberOfSuccessesInARow too.
  upserted : Alert → ℕ → Effect
  -- DeleteTriggeredEndpointAlert(ep, endpointAlert).
  deleted : Alert → Effect

-- One turn of the loop of handleAlertsToTrigger: the alert, ep.LastReminderSent where it is set, and
-- the effects.
pub record Turn : Type 0 where
  pub alert : Alert
  pub reminded : Option Time
  pub effects : List Effect

abbrev pub passed_over : Alert → Turn
passed_over a = record { alert = a; reminded = none; effects = [] }

-- `err != nil` after the call, or the mock in its place.
abbrev pub failed : Round → Bool
failed rd = if rd.mock then rd.mock_error else rd.send_error

abbrev pub after_send : Round → Alert → Alert
after_send rd a = if rd.mock then a else record a { resolve_key = rd.resolve_key }

-- The code under `if alertProvider != nil`.
notify : Round → Text → Result → Bool → Alert → Turn
notify rd provider r send_initial a =
    let calls = if rd.mock then [] else sent provider a r false ∷ [] in
    let b = after_send rd a in
    let c = if send_initial then record b { triggered = true } else b in
    if failed rd
    then record { alert = b; reminded = none; effects = calls }
    else record { alert = c; reminded = some rd.sent_at; effects = calls ++ upserted c 0 ∷ [] }

abbrev pub is_reminder_due : Round → Time → Alert → Bool
is_reminder_due rd last_reminder_sent a =
    a.triggered
    && ltb_ℤ (pos 0) a.minimum_reminder_interval
    && leb_ℤ a.minimum_reminder_interval (sub rd.checked last_reminder_sent)

unfoldable pub trigger_alert : AlertingConfig → Round → Result → ℕ → Time → Alert → Turn
unfolding notify
trigger_alert config rd r failures last_reminder_sent a =
    let send_initial = not a.triggered in
    if not (is_enabled a) || ltb_ℤ (pos failures) a.failure_threshold
    then passed_over a
    else if not send_initial && not (is_reminder_due rd last_reminder_sent a)
    then passed_over a
    else elim (get_alerting_provider_by_alert_type config a.type) [
      | none ↦ passed_over a
      | some p ↦ notify rd p r send_initial a
    ]

-- The loop: the alert at position i has the i-th round.
pub record Turns : Type 0 where
  pub alerts : List Alert
  pub reminded : Option Time
  pub effects : List Effect

abbrev pub later : Option Time → Option Time → Option Time
later first none = first
later first (some t) = some t

unfoldable pub trigger_alerts :
    AlertingConfig → (ℕ → Round) → ℕ → Result → ℕ → Time → List Alert → Turns
trigger_alerts config rounds i r failures last_reminder_sent [] = record {
  alerts = [];
  reminded = none;
  effects = [];
}
trigger_alerts config rounds i r failures last_reminder_sent (a ∷ others) =
    let t = trigger_alert config (rounds i) r failures last_reminder_sent a in
    let rest = trigger_alerts config rounds (suc i) r failures last_reminder_sent others in
    record {
      alerts = t.alert ∷ rest.alerts;
      reminded = later t.reminded rest.reminded;
      effects = t.effects ++ rest.effects;
    }

unfoldable pub handle_alerts_to_trigger :
    AlertingConfig → (ℕ → Round) → Result → Endpoint → Endpoint × List Effect
unfolding trigger_alerts
handle_alerts_to_trigger config rounds r ep =
    let failures = suc ep.number_of_failures_in_a_row in
    let t = trigger_alerts config rounds 0 r failures ep.last_reminder_sent ep.alerts in
    (
      record ep {
        number_of_successes_in_a_row = 0;
        number_of_failures_in_a_row = failures;
        alerts = t.alerts;
        last_reminder_sent = elim t.reminded [ none ↦ ep.last_reminder_sent | some now ↦ now ];
      },
      t.effects,
    )

-- One turn of the loop of handleAlertsToResolve. An error of the provider changes nothing.
unfoldable pub resolve_alert : AlertingConfig → Round → Result → ℕ → Alert → Alert × List Effect
resolve_alert config rd r successes a =
    let still_below = ltb_ℤ (pos successes) a.success_threshold in
    let b = record a { triggered = false } in
    if still_below && is_enabled a && a.triggered
    then (a, upserted a successes ∷ [])
    else if not (is_enabled a) || not a.triggered || still_below
    then (a, [])
    else if not (is_sending_on_resolved a)
    then (b, deleted b ∷ [])
    else elim (get_alerting_provider_by_alert_type config a.type) [
      | none ↦ (b, deleted b ∷ [])
      | some p ↦ (record b { resolve_key = rd.resolve_key }, deleted b ∷ sent p b r true ∷ [])
    ]

unfoldable pub resolve_alerts :
    AlertingConfig → (ℕ → Round) → ℕ → Result → ℕ → List Alert → List Alert × List Effect
resolve_alerts config rounds i r successes [] = ([], [])
resolve_alerts config rounds i r successes (a ∷ others) =
    let (b, effects) = resolve_alert config (rounds i) r successes a in
    let (bs, rest) = resolve_alerts config rounds (suc i) r successes others in
    (b ∷ bs, effects ++ rest)

unfoldable pub handle_alerts_to_resolve :
    AlertingConfig → (ℕ → Round) → Result → Endpoint → Endpoint × List Effect
unfolding resolve_alerts
handle_alerts_to_resolve config rounds r ep =
    let successes = suc ep.number_of_successes_in_a_row in
    let (alerts, effects) = resolve_alerts config rounds 0 r successes ep.alerts in
    (
      record ep {
        number_of_successes_in_a_row = successes;
        number_of_failures_in_a_row = 0;
        alerts = alerts;
      },
      effects,
    )

unfoldable pub handle_alerting :
    Option AlertingConfig → (ℕ → Round) → Result → Endpoint → Endpoint × List Effect
unfolding handle_alerts_to_trigger handle_alerts_to_resolve
handle_alerting none rounds r ep = (ep, [])
handle_alerting (some config) rounds r ep =
    if r.success
    then handle_alerts_to_resolve config rounds r ep
    else handle_alerts_to_trigger config rounds r ep
