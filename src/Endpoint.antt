-- ===== src/Endpoint.antt =====
-- The data of app/config/endpoint: results (result.go, condition_result.go), events (event.go),
-- uptime (uptime.go), statuses (status.go), endpoints (endpoint.go) and external endpoints
-- (external_endpoint.go). The extra labels for the metrics are not held here.
pub mod Parts
pub mod Errors
pub mod Validation
use ecs_gatus_app.Base.{
  ℕ, Bool, true, false, Option, none, some, List, [], ◌∷◌, ◌++◌, if◌then◌else◌, value_or,
}
use ecs_gatus_app.Base.Int.{ℤ, pos}
use ecs_gatus_app.Base.Text.{Text, text_eq, is_empty}
use ecs_gatus_app.Base.Time.{Time}
use ecs_gatus_app.Alert.{Alert}
use ecs_gatus_app.Maintenance
use ecs_gatus_app.Client
use ecs_gatus_app.Endpoint.Parts.{DnsConfig, SshConfig, UiConfig}
use ecs_gatus_app.Key.{convert_group_and_name_to_key}

pub record ConditionResult : Type 0 where
  pub condition : Text
  pub success : Bool

pub record Result : Type 0 where
  pub http_status : ℤ
  pub dns_r_code : Text
  pub hostname : Text
  pub ip : Text
  pub connected : Bool
  pub duration : ℤ
  pub errors : List Text
  pub condition_results : List ConditionResult
  pub success : Bool
  pub timestamp : Time
  pub certificate_expiration : ℤ
  pub domain_expiration : ℤ
  pub body : Text
  pub port : Text
  pub name : Text

-- A result with every field at Go's zero value.
abbrev pub zero_result : Result
zero_result = record {
  http_status = pos 0;
  dns_r_code = [];
  hostname = [];
  ip = [];
  connected = false;
  duration = pos 0;
  errors = [];
  condition_results = [];
  success = false;
  timestamp = 0;
  certificate_expiration = pos 0;
  domain_expiration = pos 0;
  body = [];
  port = [];
  name = [];
}

-- The loop of AddError over the errors that are there.
unfoldable pub add_if_absent : Text → List Text → List Text
add_if_absent error [] = error ∷ []
add_if_absent error (e ∷ es) = if text_eq e error then e ∷ es else e ∷ add_if_absent error es

unfoldable pub add_error : Result → Text → Result
unfolding add_if_absent
add_error r error = record r { errors = add_if_absent error r.errors }

pub data EventType : Type 0 where
  event_start : EventType
  event_healthy : EventType
  event_unhealthy : EventType

pub record Event : Type 0 where
  pub type : EventType
  pub timestamp : Time

unfoldable pub new_event_from_result : Result → Event
new_event_from_result r = record {
  type = if r.success then event_healthy else event_unhealthy;
  timestamp = r.timestamp;
}

-- The three counters are uint64.
pub record HourlyUptimeStatistics : Type 0 where
  pub total_executions : ℕ
  pub successful_executions : ℕ
  pub total_executions_response_time : ℕ

-- The keys are Unix timestamps of whole hours.
pub record Uptime : Type 0 where
  pub hourly_statistics : List (ℤ × HourlyUptimeStatistics)

unfoldable pub new_uptime : Uptime
new_uptime = record { hourly_statistics = [] }

pub record Status : Type 0 where
  pub name : Text
  pub group : Text
  pub key : Text
  pub results : List Result
  pub events : List Event
  pub uptime : Uptime

unfoldable pub new_status : Text → Text → Status
unfolding new_uptime
new_status group name = record {
  name = name;
  group = group;
  key = convert_group_and_name_to_key group name;
  results = [];
  events = [];
  uptime = new_uptime;
}

pub record Endpoint : Type 0 where
  pub enabled : Option Bool
  pub name : Text
  pub group : Text
  pub url : Text
  pub method : Text
  pub body : Text
  pub graph_ql : Bool
  pub headers : List (Text × Text)
  pub interval : ℤ
  pub conditions : List Text
  pub dns_config : Option DnsConfig
  pub ssh_config : Option SshConfig
  pub client_config : Option Client.Config
  pub ui_config : Option UiConfig
  pub alerts : List Alert
  pub maintenance_windows : List Maintenance.Config
  pub number_of_failures_in_a_row : ℕ
  pub number_of_successes_in_a_row : ℕ
  pub last_reminder_sent : Time
  pub store : List (Text × Text)
  pub always_run : Bool

pub record ExternalEndpoint : Type 0 where
  pub enabled : Option Bool
  pub name : Text
  pub group : Text
  pub token : Text
  pub alerts : List Alert
  pub maintenance_windows : List Maintenance.Config
  pub heartbeat_interval : ℤ
  pub number_of_failures_in_a_row : ℕ
  pub number_of_successes_in_a_row : ℕ

abbrev pub key : Endpoint → Text
key ep = convert_group_and_name_to_key ep.group ep.name

abbrev pub external_key : ExternalEndpoint → Text
external_key ee = convert_group_and_name_to_key ee.group ee.name

-- The fields that the composite literal does not name are Go's zero values.
unfoldable pub to_endpoint : ExternalEndpoint → Endpoint
to_endpoint ee = record {
  enabled = ee.enabled;
  name = ee.name;
  group = ee.group;
  url = [];
  method = [];
  body = [];
  graph_ql = false;
  headers = [];
  interval = pos 0;
  conditions = [];
  dns_config = none;
  ssh_config = none;
  client_config = none;
  ui_config = none;
  alerts = ee.alerts;
  maintenance_windows = [];
  number_of_failures_in_a_row = ee.number_of_failures_in_a_row;
  number_of_successes_in_a_row = ee.number_of_successes_in_a_row;
  last_reminder_sent = 0;
  store = [];
  always_run = false;
}

unfoldable pub display_name : Endpoint → Text
display_name ep = if is_empty ep.group then ep.name else ep.group ++ (b'/' ∷ ep.name)
