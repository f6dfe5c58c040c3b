-- ===== src/Watchdog/Alerting/Resolving.antt =====
-- Which alerts are resolved by a successful check, and what that calls for.
use ecs_gatus_app.Base.{
  ℕ, suc, ◌≡◌, refl, ap, ◌∙◌, Bool, true, false, not, ◌&&◌, none, some, List, [], ◌∷◌, ◌++◌, map,
  if◌then◌else◌, arith,
}
use mathlib.Core.Path.{ap₂}
use ecs_gatus_app.Base.Int.{pos, leb_ℤ}
use ecs_gatus_app.Alert.{Alert, is_enabled, is_sending_on_resolved}
use ecs_gatus_app.Endpoint.{Endpoint, Result}
use ecs_gatus_app.Watchdog.Alerting.{
  AlertingConfig, Round, Effect, sent, upserted, deleted, get_alerting_provider_by_alert_type,
  resolve_alert, resolve_alerts, handle_alerts_to_trigger, handle_alerts_to_resolve,
  handle_alerting,
}

-- A triggered alert is resolved once its success threshold is reached.
abbrev pub is_resolved : ℕ → Alert → Bool
is_resolved successes a = is_enabled a && a.triggered && leb_ℤ a.success_threshold (pos successes)

-- What the successful check number `successes` in a row calls for, for one alert.
abbrev pub resolution : AlertingConfig → Result → ℕ → Alert → List Effect
resolution config r successes a =
    let b = record a { triggered = false } in
    if is_resolved successes a
    then deleted b ∷ elim (get_alerting_provider_by_alert_type config a.type) [
      | none ↦ []
      | some p ↦ if is_sending_on_resolved a then sent p b r true ∷ [] else []
    ]
    else if is_enabled a && a.triggered
    then upserted a successes ∷ []
    else []

abbrev pub resolutions : AlertingConfig → Result → ℕ → List Alert → List Effect
resolutions config r successes [] = []
resolutions config r successes (a ∷ others) =
    resolution config r successes a ++ resolutions config r successes others

triggered-resolve_alert :
    (config : AlertingConfig) (rd : Round) (r : Result) (successes : ℕ) (a : Alert)
    → (resolve_alert config rd r successes a).0.triggered
      ≡ (a.triggered && not (is_resolved successes a))
unfolding resolve_alert
triggered-resolve_alert config rd r successes a = ground arith

effects-resolve_alert :
    (config : AlertingConfig) (rd : Round) (r : Result) (successes : ℕ) (a : Alert)
    → (resolve_alert config rd r successes a).1 ≡ resolution config r successes a
unfolding resolve_alert
effects-resolve_alert config rd r successes a = ground arith

resolve_alerts_lem :
    (config : AlertingConfig) (rounds : ℕ → Round) (i : ℕ) (r : Result) (successes : ℕ)
    (others : List Alert)
    → (map (λ (a : Alert). a.triggered) (resolve_alerts config rounds i r successes others).0
        ≡ map (λ (a : Alert). a.triggered && not (is_resolved successes a)) others)
      × ((resolve_alerts config rounds i r successes others).1
          ≡ resolutions config r successes others)
unfolding resolve_alerts
resolve_alerts_lem config rounds i r successes [] = (refl, refl)
resolve_alerts_lem config rounds i r successes (a ∷ others) =
    let ih = resolve_alerts_lem config rounds (suc i) r successes others in
    (
      ap₂ ◌∷◌ (triggered-resolve_alert config (rounds i) r successes a) ih.0,
      ap₂ ◌++◌ (effects-resolve_alert config (rounds i) r successes a) ih.1,
    )

handle_alerting-success :
    (config : AlertingConfig) (rounds : ℕ → Round) (r : Result) (ep : Endpoint)
    → r.success ≡ true
    → handle_alerting (some config) rounds r ep ≡ handle_alerts_to_resolve config rounds r ep
unfolding handle_alerting
handle_alerting-success config rounds r ep h =
    ap
      (λ b.
        if b
        then handle_alerts_to_resolve config rounds r ep
        else handle_alerts_to_trigger config rounds r ep)
      h

-- HandleAlerting, with an alerting configuration and a successful result: an alert stays triggered
-- unless it is enabled and the successes in a row, this one included, have reached its success
-- threshold; whatever its provider answers, and also where it has none. For each alert that is
-- resolved the persisted one is deleted and, if it is sending on resolved and has a provider, that
-- is called once; for each enabled alert that stays triggered the persisted one is updated with the
-- number of successes; for the others there is no effect.
pub resolved-handle_alerting_of_success :
    (config : AlertingConfig) (rounds : ℕ → Round) (r : Result) (ep : Endpoint)
    → r.success ≡ true
    → (map (λ (a : Alert). a.triggered) (handle_alerting (some config) rounds r ep).0.alerts
        ≡ map
            (λ (a : Alert).
              a.triggered && not (is_resolved (suc ep.number_of_successes_in_a_row) a))
            ep.alerts)
      × ((handle_alerting (some config) rounds r ep).1
          ≡ resolutions config r (suc ep.number_of_successes_in_a_row) ep.alerts)
unfolding handle_alerts_to_resolve
resolved-handle_alerting_of_success config rounds r ep h =
    let branch = handle_alerting-success config rounds r ep h in
    let lem =
      resolve_alerts_lem config rounds 0 r (suc ep.number_of_successes_in_a_row) ep.alerts in
    (
      ap (λ (x : Endpoint × List Effect). map (λ (a : Alert). a.triggered) x.0.alerts) branch
          ∙ lem.0,
      ap (λ (x : Endpoint × List Effect). x.1) branch ∙ lem.1,
    )
