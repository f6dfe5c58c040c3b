-- ===== src/Watchdog/Checks.antt =====
-- executeEndpoint (app/watchdog/endpoint.go), executeExternalEndpointHeartbeat
-- (app/watchdog/external_endpoint.go), executeSuite (app/watchdog/suite.go) and IsConnected
-- (app/config/connectivity/connectivity.go). Metrics, the store and the providers are outside: what
-- is done to them is a list of actions. The loops that wait for a ticker are not here.
pub mod Silence
pub mod Reminders
use ecs_gatus_app.Base.{
  ℕ, suc, Bool, true, false, not, ◌&&◌, ◌||◌, Option, none, some, List, [], ◌∷◌, ◌++◌, map,
  if◌then◌else◌,
}
use ecs_gatus_app.Base.Int.{ℤ, sub_ℕ, pos, ◌-ℤ◌}
use ecs_gatus_app.Base.Text.{Text, codes}
use ecs_gatus_app.Base.Time.{Time, add, after}
use ecs_gatus_app.Base.Outcome.{Outcome, ok, err}
use ecs_gatus_app.Maintenance
use ecs_gatus_app.Maintenance.TimeZone.{Location}
use ecs_gatus_app.Endpoint.{
  Endpoint, ExternalEndpoint, Result, zero_result, to_endpoint, external_key,
}
use ecs_gatus_app.Suite.{Suite, SuiteResult}
use ecs_gatus_app.Watchdog.Alerting.{AlertingConfig, Round, Effect, handle_alerting}

pub record Checker : Type 0 where
  pub target : Text
  pub interval : ℤ
  pub connected : Bool
  pub last_check : Time

-- IsConnected at the time `now`, where Check would return `found`.
unfoldable pub is_connected : Time → Bool → Checker → Bool × Checker
is_connected now found c =
    if after now (add c.last_check c.interval)
    then (found, record c { last_check = now; connected = found })
    else (c.connected, c)

-- The parts of config.Config that the watchdog reads. `checker` is none where cfg.Connectivity or
-- its checker is nil.
pub record Config : Type 0 where
  pub checker : Option Checker
  pub maintenance : Maintenance.Config
  pub alerting : Option AlertingConfig
  pub metrics : Bool

pub data Action : Type 0 where
  published : Endpoint → Result → Action
  inserted : Endpoint → Result → Action
  published_suite : Suite → SuiteResult → Action
  inserted_suite : Suite → SuiteResult → Action
  alerted : Effect → Action

-- What one execution reads: whether the semaphore was acquired, the clock and the network at the
-- connectivity check, the clock at each maintenance window and at the global one, and what the
-- alerts read. `local` is the location of time.Now().
pub record Readings : Type 0 where
  pub acquired : Bool
  pub connectivity_now : Time
  pub connection_found : Bool
  pub local : Location
  pub window_now : ℕ → Time
  pub maintenance_now : Time
  pub rounds : ℕ → Round

-- The loop over the maintenance windows of an endpoint.
in_window_from : Readings → ℕ → List Maintenance.Config → Bool
in_window_from rd i [] = false
in_window_from rd i (w ∷ ws) =
    Maintenance.is_under_maintenance rd.local w (rd.window_now i) || in_window_from rd (suc i) ws

unfoldable pub in_endpoint_maintenance_window : Readings → List Maintenance.Config → Bool
unfolding in_window_from
in_endpoint_maintenance_window rd ws = in_window_from rd 0 ws

-- `!cfg.Maintenance.IsUnderMaintenance() && !inEndpointMaintenanceWindow`.
abbrev pub is_alerting_allowed : Readings → Config → List Maintenance.Config → Bool
is_alerting_allowed rd cfg ws =
    not (Maintenance.is_under_maintenance rd.local cfg.maintenance rd.maintenance_now)
    && not (in_endpoint_maintenance_window rd ws)

-- The check of the connection: whether to go on, and the configuration with the checker's state.
unfoldable pub check_connectivity : Readings → Config → Bool × Config
check_connectivity rd cfg = elim cfg.checker [
  | none ↦ (true, cfg)
  | some c ↦
      let (connected, c') = is_connected rd.connectivity_now rd.connection_found c in
      (connected, record cfg { checker = some c' })
]

-- Metrics, and UpdateEndpointStatus.
abbrev pub record_result : Config → Endpoint → Result → List Action
record_result cfg ep r = (if cfg.metrics then published ep r ∷ [] else []) ++ inserted ep r ∷ []

unfoldable pub execute_endpoint :
    Readings → (Endpoint → Result) → Config → Endpoint → Config × Endpoint × List Action
unfolding check_connectivity in_endpoint_maintenance_window
execute_endpoint rd evaluate_health cfg ep =
    if not rd.acquired
    then (cfg, ep, [])
    else let (connected, cfg') = check_connectivity rd cfg in
      if not connected
      then (cfg', ep, [])
      else let r = evaluate_health ep in
        let (next, effects) = handle_alerting cfg'.alerting rd.rounds r ep in
        if is_alerting_allowed rd cfg' ep.maintenance_windows
        then (cfg', next, record_result cfg' ep r ++ map alerted effects)
        else (cfg', ep, record_result cfg' ep r)

-- The alerts of the converted endpoint are the external endpoint's own, by pointer.
unfoldable pub sync_back : Endpoint → ExternalEndpoint → ExternalEndpoint
sync_back converted ee = record ee {
  alerts = converted.alerts;
  number_of_successes_in_a_row = converted.number_of_successes_in_a_row;
  number_of_failures_in_a_row = converted.number_of_failures_in_a_row;
}

-- HandleAlerting on the converted endpoint, and the counters copied back, where no maintenance is on.
unfoldable pub handle_external_alerting :
    Readings → Config → Result → ExternalEndpoint → ExternalEndpoint × List Effect
unfolding in_endpoint_maintenance_window sync_back
handle_external_alerting rd cfg r ee =
    let (converted, effects) = handle_alerting cfg.alerting rd.rounds r (to_endpoint ee) in
    if is_alerting_allowed rd cfg ee.maintenance_windows
    then (sync_back converted ee, effects)
    else (ee, [])

-- `has_newer` is HasEndpointStatusNewerThan of the store, `interval_text` is Interval.String(),
-- `asked_at` and `failed_at` are the clock at the question and at the result.
unfoldable pub execute_external_endpoint_heartbeat :
    Readings
    → (Text → Time → Outcome Text Bool)
    → Text
    → Time
    → Time
    → Config
    → ExternalEndpoint
    → Config × ExternalEndpoint × List Action
unfolding check_connectivity handle_external_alerting
execute_external_endpoint_heartbeat rd has_newer interval_text asked_at failed_at cfg ee =
    if not rd.acquired
    then (cfg, ee, [])
    else let (connected, cfg') = check_connectivity rd cfg in
      if not connected
      then (cfg', ee, [])
      else elim (has_newer (external_key ee) (add asked_at (pos 0 -ℤ ee.heartbeat_interval))) [
        | err e ↦ (cfg', ee, [])
        | ok true ↦ (cfg', ee, [])
        | ok false ↦
            let r = record zero_result {
              timestamp = failed_at;
              success = false;
              errors = (codes "heartbeat: no update received within " ++ interval_text) ∷ [];
            } in
            let (next, effects) = handle_external_alerting rd cfg' r ee in
            (cfg', next, record_result cfg' (to_endpoint ee) r ++ map alerted effects)
      ]

-- The loop over s.Endpoints by position; an endpoint with no result at its position is passed over.
unfoldable pub alert_suite_endpoints :
    Config → (ℕ → Readings) → ℕ → List Endpoint → List Result → List Endpoint × List Effect
unfolding in_endpoint_maintenance_window
alert_suite_endpoints cfg rds i [] rs = ([], [])
alert_suite_endpoints cfg rds i (ep ∷ eps) [] = (ep ∷ eps, [])
alert_suite_endpoints cfg rds i (ep ∷ eps) (r ∷ rs) =
    let (rest, later) = alert_suite_endpoints cfg rds (suc i) eps rs in
    let (next, effects) = handle_alerting cfg.alerting (rds i).rounds r ep in
    if is_alerting_allowed (rds i) cfg ep.maintenance_windows
    then (next ∷ rest, effects ++ later)
    else (ep ∷ rest, later)

-- `run` is the suite's Execute. The i-th endpoint has the i-th readings.
unfoldable pub execute_suite :
    Readings
    → (ℕ → Readings)
    → (Suite → SuiteResult)
    → Config
    → Suite
    → Config × Suite × List Action
unfolding check_connectivity alert_suite_endpoints
execute_suite rd rds run cfg s =
    if not rd.acquired
    then (cfg, s, [])
    else let (connected, cfg') = check_connectivity rd cfg in
      if not connected
      then (cfg', s, [])
      else let r = run s in
        let (eps, effects) = alert_suite_endpoints cfg' rds 0 s.endpoints r.endpoint_results in
        (
          cfg',
          record s { endpoints = eps },
          (if cfg'.metrics then published_suite s r ∷ [] else [])
              ++ (inserted_suite s r ∷ [])
              ++ map alerted effects,
        )
