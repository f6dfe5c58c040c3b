-- ===== src/Health/Defaults.antt =====
-- ValidateAndSetDefaults of app/config/endpoint/endpoint.go. Where an error is returned the program
-- does not start, so what has been changed until then is not kept.
pub mod Accepted
pub mod Windows
use ecs_gatus_app.Base.{
  ℕ, Bool, true, false, not, ◌&&◌, ◌||◌, Option, none, some, List, [], ◌∷◌, ◌++◌, if◌then◌else◌,
}
use ecs_gatus_app.Base.Int.{ℤ, pos, eqb_ℤ, ltb_ℤ}
use ecs_gatus_app.Base.Text.{Text, codes, is_empty}
use ecs_gatus_app.Base.Outcome.{Outcome, ok, err, ◌>>=◌}
use ecs_gatus_app.Alert.{Alert}
use ecs_gatus_app.Client
use ecs_gatus_app.Condition
use ecs_gatus_app.Condition.{has_domain_expiration_placeholder}
use ecs_gatus_app.Endpoint.{Endpoint}
use ecs_gatus_app.Endpoint.Parts.{
  DnsConfig, SshConfig, UiConfig, PartError, get_default_config, validate_ui, validate_dns,
  validate_ssh,
}
use ecs_gatus_app.Endpoint.Validation.{EndpointError, validate_endpoint_name_group_and_alerts}
use ecs_gatus_app.Golib.{Golib}
use ecs_gatus_app.Health.Kind.{EndpointType, type_unknown, type_of, has_header}
use ecs_gatus_app.Maintenance
use ecs_gatus_app.Maintenance.{MaintenanceError}
use ecs_gatus_app.Maintenance.TimeZone.{Location}

pub data Refusal : Type 0 where
  err_endpoint : EndpointError → Refusal
  err_endpoint_with_no_url : Refusal
  err_client : Client.ClientError → Refusal
  err_part : PartError → Refusal
  err_endpoint_with_no_condition : Refusal
  err_invalid_endpoint_interval_for_domain_expiration_placeholder : Refusal
  err_invalid_condition_format : Text → Refusal
  condition_panics : Refusal
  err_unknown_endpoint_type : Refusal
  err_maintenance : MaintenanceError → Refusal
  err_request : Text → Refusal

-- What is outside: the files with keys, the types of DNS queries, the error of http.NewRequest for
-- a method and a URL, and the time zone database.
pub record Outside : Type 0 where
  pub lib : Golib
  pub load_key_pair : Client.KeyPairs
  pub is_query_type : Text → Bool
  pub new_request : Text → Text → Option Text
  pub load_location : Text → Option Location

-- `if err := ...; err != nil { return err }`.
abbrev pub refused_if {ℓ} :
    {A : Type ℓ} → (A → Refusal) → Option A → Endpoint → Outcome Refusal Endpoint
refused_if refusal none e = ok e
refused_if refusal (some x) e = err (refusal x)

check_name_group_and_alerts : Endpoint → Outcome Refusal Endpoint
unfolding validate_endpoint_name_group_and_alerts
check_name_group_and_alerts e =
    let (alerts, x) = validate_endpoint_name_group_and_alerts e.name e.group e.alerts in
    refused_if err_endpoint x (record e { alerts = alerts })

check_url : Endpoint → Outcome Refusal Endpoint
check_url e = if is_empty e.url then err err_endpoint_with_no_url else ok e

abbrev with_client : Endpoint → Outcome Client.ClientError Client.Config → Outcome Refusal Endpoint
with_client e (ok c) = ok (record e { client_config = some c })
with_client e (err x) = err (err_client x)

set_client_config : Client.KeyPairs → Endpoint → Outcome Refusal Endpoint
unfolding Client.validate_and_set_defaults
set_client_config load e = elim e.client_config [
  | none ↦ ok (record e { client_config = some Client.get_default_config })
  | some c ↦ with_client e (Client.validate_and_set_defaults load c)
]

abbrev with_ui : Endpoint → Outcome PartError UiConfig → Outcome Refusal Endpoint
with_ui e (ok c) = ok (record e { ui_config = some c })
with_ui e (err x) = err (err_part x)

set_ui_config : Endpoint → Outcome Refusal Endpoint
unfolding validate_ui
set_ui_config e = elim e.ui_config [
  | none ↦ ok (record e { ui_config = some get_default_config })
  | some c ↦ with_ui e (validate_ui c)
]

-- A header that is not there is added.
abbrev with_header : Bool → Text → Text → List (Text × Text) → List (Text × Text)
with_header wanted name value headers =
    if wanted && not (has_header headers name) then headers ++ (name, value) ∷ [] else headers

unfoldable pub default_headers : Bool → List (Text × Text) → List (Text × Text)
unfolding has_header
default_headers graph_ql headers =
    with_header graph_ql (codes "Content-Type") (codes "application/json")
      (with_header true (codes "User-Agent") (codes "Gatus/1.0") headers)

-- The interval of one minute, the method and the headers.
set_request_defaults : Endpoint → Endpoint
unfolding default_headers
set_request_defaults e = record e {
  interval = if eqb_ℤ e.interval (pos 0) then pos 60_000_000_000 else e.interval;
  method = if is_empty e.method then codes "GET" else e.method;
  headers = default_headers e.graph_ql e.headers;
}

abbrev condition_refusal : Option (Option Text) → Option Refusal
condition_refusal none = some condition_panics
condition_refusal (some none) = none
condition_refusal (some (some x)) = some (err_invalid_condition_format x)

-- The loop over the conditions: the first refusal.
unfoldable pub check_conditions : Golib → ℤ → List Text → Option Refusal
unfolding Condition.validate has_domain_expiration_placeholder
check_conditions lib interval [] = none
check_conditions lib interval (c ∷ cs) =
    let rest = check_conditions lib interval cs in
    if ltb_ℤ interval (pos 300_000_000_000) && has_domain_expiration_placeholder c
    then some err_invalid_endpoint_interval_for_domain_expiration_placeholder
    else elim (condition_refusal (Condition.validate lib c)) [ some x ↦ some x | none ↦ rest ]

check_all_conditions : Golib → Endpoint → Outcome Refusal Endpoint
unfolding check_conditions
check_all_conditions lib e =
    if Client.is_set e.conditions
    then refused_if (λ x. x) (check_conditions lib e.interval e.conditions) e
    else err err_endpoint_with_no_condition

-- The loop over the maintenance windows, which ends at the first error.
after_window :
    Maintenance.Config × Option MaintenanceError
    → Outcome Refusal (List Maintenance.Config)
    → Outcome Refusal (List Maintenance.Config)
after_window (w, some x) rest = err (err_maintenance x)
after_window (w, none) (err x) = err x
after_window (w, none) (ok ws) = ok (w ∷ ws)

unfoldable pub validate_windows :
    (Text → Option Location) → List Maintenance.Config → Outcome Refusal (List Maintenance.Config)
unfolding after_window Maintenance.validate_and_set_defaults
validate_windows load [] = ok []
validate_windows load (w ∷ ws) =
    after_window (Maintenance.validate_and_set_defaults load w) (validate_windows load ws)

abbrev with_windows :
    Endpoint → Outcome Refusal (List Maintenance.Config) → Outcome Refusal Endpoint
with_windows e (ok ws) = ok (record e { maintenance_windows = ws })
with_windows e (err x) = err x

-- The rest for an endpoint that has a URL to call.
check_request : Outside → Endpoint → Outcome Refusal Endpoint
check_request out e = refused_if err_request (out.new_request e.method e.url) e

is_unknown : EndpointType → Bool
is_unknown type_unknown = true
is_unknown t = false

check_url_endpoint : Outside → Endpoint → Outcome Refusal Endpoint
unfolding is_unknown type_of validate_windows check_request
check_url_endpoint out e =
    if is_unknown (type_of e)
    then err err_unknown_endpoint_type
    else with_windows e (validate_windows out.load_location e.maintenance_windows)
      >>= check_request out

abbrev with_dns : Endpoint → Outcome PartError DnsConfig → Outcome Refusal Endpoint
with_dns e (ok d) = ok (record e { dns_config = some d })
with_dns e (err x) = err (err_part x)

-- The three ends: for DNS and for SSH the function returns with what their own validation says.
pub check_kind : Outside → Endpoint → Option DnsConfig → Option SshConfig → Outcome Refusal Endpoint
unfolding check_url_endpoint validate_dns validate_ssh
check_kind out e (some d) ssh = with_dns e (validate_dns out.is_query_type d)
check_kind out e none (some s) = refused_if err_part (validate_ssh s) e
check_kind out e none none = check_url_endpoint out e

unfoldable pub validate_and_set_defaults : Outside → Endpoint → Outcome Refusal Endpoint
unfolding check_name_group_and_alerts check_url set_client_config set_ui_config set_request_defaults
    check_all_conditions check_kind
validate_and_set_defaults out e =
    check_name_group_and_alerts e
    >>= check_url
    >>= set_client_config out.load_key_pair
    >>= set_ui_config
    >>= (λ f. check_all_conditions out.lib (set_request_defaults f))
    >>= (λ f. check_kind out f f.dns_config f.ssh_config)
