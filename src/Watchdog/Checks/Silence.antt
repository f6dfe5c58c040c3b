-- ===== src/Watchdog/Checks/Silence.antt =====
-- What an execution of a check inserts, and what it does to alerts.
use ecs_gatus_app.Base.{
  ◌≡◌, refl, ap, Bool, not, ◌&&◌, ◌||◌, List, [], ◌∷◌, ◌++◌, map, if◌then◌else◌, Bool-cases, inl,
  inr,
}
use ecs_gatus_app.Maintenance
use ecs_gatus_app.Endpoint.{Endpoint, Result}
use ecs_gatus_app.Watchdog.Alerting.{Effect, handle_alerting}
use ecs_gatus_app.Watchdog.Checks.{
  Config, Readings, Action, published, inserted, published_suite, inserted_suite, alerted,
  check_connectivity, in_endpoint_maintenance_window, record_result, execute_endpoint,
}

-- The results that are inserted into the store, each with its endpoint.
abbrev pub insertions : List Action → List (Endpoint × Result)
insertions [] = []
insertions (published ep r ∷ later) = insertions later
insertions (inserted ep r ∷ later) = (ep, r) ∷ insertions later
insertions (published_suite s r ∷ later) = insertions later
insertions (inserted_suite s r ∷ later) = insertions later
insertions (alerted e ∷ later) = insertions later

-- What is done to providers and to persisted alerts.
abbrev pub alerts_in : List Action → List Effect
alerts_in [] = []
alerts_in (published ep r ∷ later) = alerts_in later
alerts_in (inserted ep r ∷ later) = alerts_in later
alerts_in (published_suite s r ∷ later) = alerts_in later
alerts_in (inserted_suite s r ∷ later) = alerts_in later
alerts_in (alerted e ∷ later) = e ∷ alerts_in later

insertions-alerted : (es : List Effect) → insertions (map alerted es) ≡ []
insertions-alerted [] = refl
insertions-alerted (e ∷ es) = insertions-alerted es

alerts_in-alerted : (es : List Effect) → alerts_in (map alerted es) ≡ es
alerts_in-alerted [] = refl
alerts_in-alerted (e ∷ es) = ap (◌∷◌ e) (alerts_in-alerted es)

insertions-record_result :
    (cfg : Config) (ep : Endpoint) (r : Result) (es : List Effect)
    → insertions (record_result cfg ep r ++ map alerted es) ≡ (ep, r) ∷ []
insertions-record_result cfg ep r es = elim (Bool-cases cfg.metrics) [
  | inl h ↦ simp h (ap (◌∷◌ (ep, r)) (insertions-alerted es))
  | inr h ↦ simp h (ap (◌∷◌ (ep, r)) (insertions-alerted es))
]

alerts_in-record_result :
    (cfg : Config) (ep : Endpoint) (r : Result) (es : List Effect)
    → alerts_in (record_result cfg ep r ++ map alerted es) ≡ es
alerts_in-record_result cfg ep r es = elim (Bool-cases cfg.metrics) [
  | inl h ↦ simp h (alerts_in-alerted es)
  | inr h ↦ simp h (alerts_in-alerted es)
]

recorded_only :
    (cfg : Config) (ep : Endpoint) (r : Result)
    → (insertions (record_result cfg ep r) ≡ (ep, r) ∷ [])
      × (alerts_in (record_result cfg ep r) ≡ [])
recorded_only cfg ep r = elim (Bool-cases cfg.metrics) [
  | inl h ↦ simp h (refl, refl)
  | inr h ↦ simp h (refl, refl)
]

-- A check of an endpoint goes ahead: its turn came, and there is a connection or none is looked for.
abbrev pub goes_ahead : Readings → Config → Bool
goes_ahead rd cfg = rd.acquired && (check_connectivity rd cfg).0

-- Alerts are handled after a check that goes ahead, unless a maintenance period is on: the global
-- one, or one of the endpoint.
abbrev pub alerts_handled : Readings → Config → Endpoint → Bool
alerts_handled rd cfg ep =
    goes_ahead rd cfg
    && not (
        Maintenance.is_under_maintenance rd.local (check_connectivity rd cfg).1.maintenance
          rd.maintenance_now
        || in_endpoint_maintenance_window rd ep.maintenance_windows)

-- executeEndpoint inserts, if the check goes ahead, the result of its health check for the endpoint
-- as it was before the check, and nothing else; otherwise it inserts nothing. If no maintenance
-- period is on, the endpoint and what is done to providers and persisted alerts are what
-- HandleAlerting makes of the result; during maintenance, and where the check does not go ahead,
-- the endpoint stays as it is, no provider is called and no persisted alert is changed.
pub execute_endpoint_lem :
    (rd : Readings) (evaluate_health : Endpoint → Result) (cfg : Config) (ep : Endpoint)
    → let alerting = (check_connectivity rd cfg).1.alerting in
      (insertions (execute_endpoint rd evaluate_health cfg ep).2
        ≡ (if goes_ahead rd cfg then (ep, evaluate_health ep) ∷ [] else []))
      × ((execute_endpoint rd evaluate_health cfg ep).1 ≡ (
          if alerts_handled rd cfg ep
          then (handle_alerting alerting rd.rounds (evaluate_health ep) ep).0
          else ep))
      × (alerts_in (execute_endpoint rd evaluate_health cfg ep).2 ≡ (
          if alerts_handled rd cfg ep
          then (handle_alerting alerting rd.rounds (evaluate_health ep) ep).1
          else []))
unfolding execute_endpoint
execute_endpoint_lem rd evaluate_health cfg ep = elim (Bool-cases rd.acquired) [
  | inr h ↦ simp h (refl, refl, refl)
  | inl h ↦ elim (Bool-cases (check_connectivity rd cfg).0) [
    | inr c ↦ simp (h, c) (refl, refl, refl)
    | inl c ↦
        let cfg' = (check_connectivity rd cfg).1 in
        let r = evaluate_health ep in
        let done = handle_alerting cfg'.alerting rd.rounds r ep in
        elim (Bool-cases
          (Maintenance.is_under_maintenance rd.local cfg'.maintenance rd.maintenance_now)) [
            | inl m ↦
                simp (h, c, m) ((recorded_only cfg' ep r).0, refl, (recorded_only cfg' ep r).1)
            | inr m ↦ elim (Bool-cases (in_endpoint_maintenance_window rd ep.maintenance_windows)) [
              | inl w ↦
                  simp (h, c, m, w) ((recorded_only cfg' ep r).0, refl, (recorded_only cfg' ep r).1)
              | inr w ↦
                  simp (h, c, m, w)
                    (
                      insertions-record_result cfg' ep r done.1,
                      refl,
                      alerts_in-record_result cfg' ep r done.1,
                    )
            ]
          ]
  ]
]
