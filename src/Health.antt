-- ===== src/Health.antt =====
-- app/config/endpoint/endpoint.go: EvaluateHealthWithContext. A panic of the Go code is `none`. What
-- comes from the network and the clock is a record of readings.
pub mod Kind
pub mod Templates
pub mod Call
pub mod Defaults
pub mod Success
pub mod Sample
mod Examples
use ecs_gatus_app.Base.{
  ℕ, Bool, true, false, not, ◌&&◌, ◌||◌, Option, none, some, List, [], ◌∷◌, ◌++◌, if◌then◌else◌,
  map,
}
use ecs_gatus_app.Base.Int.{ℤ, pos}
use ecs_gatus_app.Base.Text.{Text, codes, is_empty, trim_prefix}
use ecs_gatus_app.Base.Strings.{trim_suffix}
use ecs_gatus_app.Base.Time.{Time}
use ecs_gatus_app.Base.Outcome.{Outcome, ok, err}
use ecs_gatus_app.Endpoint.{Endpoint, Result, zero_result, add_error}
use ecs_gatus_app.Endpoint.Parts.{UiConfig}
use ecs_gatus_app.Gontext.{Gontext}
use ecs_gatus_app.Golib.{Golib}
use ecs_gatus_app.Condition.{Showing, evaluate}
use ecs_gatus_app.Health.Kind.{
  EndpointType, type_icmp, type_of, needs_to_retrieve_domain_expiration, needs_to_retrieve_ip,
}
use ecs_gatus_app.Health.Templates.{replace_all, preprocess_with_context, add_optional_error}
use ecs_gatus_app.Health.Call.{Network, call}

-- url.Parse, as the host name and the port of the URL; the first address that net.LookupIP gives;
-- client.GetDomainExpiration with the time that it assigns and its error; the answers to the call;
-- and the time at the end.
pub record Readings : Type 0 where
  pub parse_url : Text → Outcome Text (Text × Text)
  pub lookup_ip : Text → Outcome Text Text
  pub get_domain_expiration : Text → ℤ × Option Text
  pub network : Network
  pub now : Time

is_icmp : EndpointType → Bool
is_icmp type_icmp = true
is_icmp t = false

-- The host name and the port.
abbrev with_host : Result → Outcome Text (Text × Text) → Result
with_host r (ok (host, port)) = record r { hostname = host; port = port }
with_host r (err e) = add_error r e

set_hostname : Readings → Endpoint → Result → Result
unfolding type_of is_icmp add_error
set_hostname readings e r = elim e.dns_config [
  | some d ↦ record r { hostname = trim_suffix e.url (codes ":53") }
  | none ↦
      if is_icmp (type_of e)
      then record r { hostname = trim_prefix e.url (codes "icmp://") }
      else with_host r (readings.parse_url e.url)
]

-- getIP.
get_ip : Readings → Result → Result
unfolding add_error
get_ip readings r = elim (readings.lookup_ip r.hostname) [
  | ok ip ↦ record r { ip = ip }
  | err e ↦ add_error r e
]

-- What is looked up before the call.
look_up : Readings → Endpoint → Result → Result
unfolding get_ip needs_to_retrieve_ip needs_to_retrieve_domain_expiration add_error
look_up readings e r =
    let located = if needs_to_retrieve_ip e then get_ip readings r else r in
    let (expiration, x) = readings.get_domain_expiration located.hostname in
    if needs_to_retrieve_domain_expiration e && not (is_empty located.hostname)
    then add_optional_error (record located { domain_expiration = expiration }) x
    else located

abbrev has_errors : Result → Bool
has_errors r = elim r.errors [ [] ↦ false | e ∷ es ↦ true ]

-- The result before the conditions: the endpoint is called if there is no error.
unfoldable pub before_conditions : Golib → Readings → Endpoint → Result → Option Result
unfolding set_hostname look_up call type_of
before_conditions lib readings e r =
    let looked_up = look_up readings e (set_hostname readings e r) in
    if has_errors looked_up
    then some (record looked_up { success = false })
    else call lib readings.network e (type_of e) looked_up

-- The loop over the conditions.
after_condition : Option (Result × Bool) → (Result → Option Result) → Option Result
after_condition none rest = none
after_condition (some (r, true)) rest = rest r
after_condition (some (r, false)) rest = rest (record r { success = false })

unfoldable pub evaluate_conditions :
    Golib → Showing → Option Gontext → List Text → Result → Option Result
unfolding after_condition evaluate
evaluate_conditions lib showing ctx [] r = some r
evaluate_conditions lib showing ctx (c ∷ cs) r =
    after_condition (evaluate lib showing c r ctx) (λ r'. evaluate_conditions lib showing ctx cs r')

-- `if hide { ... ReplaceAll(errorString, secret, "<redacted>") }`.
abbrev redact : Bool → Text → List Text → List Text
redact hide secret errors =
    if hide then map (λ e. replace_all e secret (codes "<redacted>")) errors else errors

-- What the configuration of the UI takes out of a result.
unfoldable pub clean_up : UiConfig → Text → Result → Result
unfolding replace_all
clean_up ui url r =
    let hide_port = ui.hide_port && not (is_empty r.port) in
    let redacted =
      redact hide_port r.port
        (redact ui.hide_hostname r.hostname (redact ui.hide_url url r.errors)) in
    record r {
      errors = if ui.hide_errors then [] else redacted;
      hostname = if ui.hide_hostname then [] else r.hostname;
      port = if hide_port then [] else r.port;
      condition_results = if ui.hide_conditions then [] else r.condition_results;
    }

abbrev showing_of : UiConfig → Showing
showing_of ui = record {
  dont_resolve_failed_conditions = ui.dont_resolve_failed_conditions;
  resolve_successful_conditions = ui.resolve_successful_conditions;
}

-- `result := &Result{Success: true, Errors: []string{}}`.
abbrev pub fresh_result : Result
fresh_result = record zero_result { success = true }

-- The endpoint to call, and the result with the errors that filling it in met.
abbrev pub processed : Golib → Endpoint → Option Gontext → Endpoint × Result
processed lib e none = (e, fresh_result)
processed lib e (some ctx) = preprocess_with_context lib e fresh_result ctx

-- The end of EvaluateHealthWithContext. An endpoint that is validated has a configuration of its UI.
finish : Golib → Readings → Option Gontext → Endpoint → UiConfig → Option Result → Option Result
unfolding evaluate_conditions clean_up
finish lib readings ctx e ui none = none
finish lib readings ctx e ui (some r) =
    elim (evaluate_conditions lib (showing_of ui) ctx e.conditions r) [
      | none ↦ none
      | some r' ↦ some (clean_up ui e.url (record r' { timestamp = readings.now }))
    ]

unfoldable pub evaluate_health_with_context :
    Golib → Readings → Endpoint → Option Gontext → Option Result
unfolding before_conditions finish preprocess_with_context
evaluate_health_with_context lib readings e ctx =
    let (p, r) = processed lib e ctx in
    elim p.ui_config [
      | none ↦ none
      | some ui ↦ finish lib readings ctx p ui (before_conditions lib readings p r)
    ]
