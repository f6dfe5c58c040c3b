-- ===== src/Endpoint/Validation.antt =====
-- The validation of app/config/endpoint/external_endpoint.go, and that of names, groups and alerts
-- in app/config/endpoint/common.go. The alerts are changed in place, also where an error is returned.
use ecs_gatus_app.Base.{
  ◌≡◌, refl, ◌⊎◌, false, not, ◌&&◌, ◌||◌, Option, none, some, List, [], ◌∷◌, All, if◌then◌else◌,
  arith,
}
use ecs_gatus_app.Base.Int.{ℤ, pos, eqb_ℤ, ltb_ℤ, ◌≤ℤ◌}
use ecs_gatus_app.Base.Text.{Text, is_empty, contains_any}
use ecs_gatus_app.Alert
use ecs_gatus_app.Alert.{Alert, AlertError, quote_or_backslash}
use ecs_gatus_app.Alert.Validation.{IsValid, validate_and_set_defaults-IsValid}
use ecs_gatus_app.Endpoint.{ExternalEndpoint}

pub data EndpointError : Type 0 where
  err_endpoint_with_no_name : EndpointError
  err_endpoint_with_invalid_name_or_group : EndpointError
  err_alert : AlertError → EndpointError
  err_external_endpoint_with_no_token : EndpointError
  err_external_endpoint_heartbeat_interval_too_low : EndpointError

-- `if err := endpointAlert.ValidateAndSetDefaults(); err != nil { return err }`, before the rest of
-- the loop.
after_alert :
    Option AlertError
    → Alert
    → List Alert
    → List Alert × Option EndpointError
    → List Alert × Option EndpointError
after_alert (some x) b others rest = (b ∷ others, some (err_alert x))
after_alert none b others (bs, e) = (b ∷ bs, e)

-- The loop over the alerts, which ends at the first error.
unfoldable pub validate_alerts : List Alert → List Alert × Option EndpointError
unfolding after_alert
validate_alerts [] = ([], none)
validate_alerts (a ∷ others) =
    let (b, e) = Alert.validate_and_set_defaults a in
    after_alert e b others (validate_alerts others)

unfoldable pub validate_endpoint_name_group_and_alerts :
    Text → Text → List Alert → List Alert × Option EndpointError
unfolding validate_alerts
validate_endpoint_name_group_and_alerts name group alerts =
    if is_empty name
    then (alerts, some err_endpoint_with_no_name)
    else if contains_any name quote_or_backslash || contains_any group quote_or_backslash
    then (alerts, some err_endpoint_with_invalid_name_or_group)
    else validate_alerts alerts

-- 10 * time.Second.
abbrev pub ten_seconds : ℤ
ten_seconds = pos 10_000_000_000

-- The tests on the token and the heartbeat.
check_token_and_heartbeat : ExternalEndpoint → Option EndpointError
check_token_and_heartbeat ee =
    if is_empty ee.token
    then some err_external_endpoint_with_no_token
    else if not (eqb_ℤ ee.heartbeat_interval (pos 0)) && ltb_ℤ ee.heartbeat_interval ten_seconds
    then some err_external_endpoint_heartbeat_interval_too_low
    else none

unfoldable pub validate_external_endpoint :
    ExternalEndpoint → ExternalEndpoint × Option EndpointError
unfolding validate_endpoint_name_group_and_alerts check_token_and_heartbeat
validate_external_endpoint ee =
    let (alerts, e) = validate_endpoint_name_group_and_alerts ee.name ee.group ee.alerts in
    (
      record ee { alerts = alerts },
      elim e [ some x ↦ some x | none ↦ check_token_and_heartbeat ee ],
    )

pub record IsAccepted (ee : ExternalEndpoint) : Type 0 where
  pub named : is_empty ee.name ≡ false
  pub clean_name : contains_any ee.name quote_or_backslash ≡ false
  pub clean_group : contains_any ee.group quote_or_backslash ≡ false
  pub valid_alerts : All IsValid ee.alerts
  pub has_token : is_empty ee.token ≡ false
  pub heartbeat_off_or_slow :
      (ee.heartbeat_interval ≡ pos 0) ⊎ (ten_seconds ≤ℤ ee.heartbeat_interval)

after_alert-IsValid :
    (e : Option AlertError) (b : Alert) (others : List Alert)
    (rest : List Alert × Option EndpointError)
    → (e ≡ none → IsValid b)
    → (rest.1 ≡ none → All IsValid rest.0)
    → (after_alert e b others rest).1 ≡ none
    → All IsValid (after_alert e b others rest).0
unfolding after_alert
after_alert-IsValid (some x) b others rest v w h = absurd (ground arith)
after_alert-IsValid none b others (bs, e) v w h = (v refl, w h)

validate_alerts-IsValid :
    (alerts : List Alert)
    → (validate_alerts alerts).1 ≡ none
    → All IsValid (validate_alerts alerts).0
unfolding validate_alerts
validate_alerts-IsValid [] h = tt
validate_alerts-IsValid (a ∷ others) h =
    after_alert-IsValid (Alert.validate_and_set_defaults a).1 (Alert.validate_and_set_defaults a).0
      others (validate_alerts others) (validate_and_set_defaults-IsValid a).0
      (validate_alerts-IsValid others) h

check_token_and_heartbeat_lem :
    (ee : ExternalEndpoint)
    → check_token_and_heartbeat ee ≡ none
    → (is_empty ee.token ≡ false)
      × ((ee.heartbeat_interval ≡ pos 0) ⊎ (ten_seconds ≤ℤ ee.heartbeat_interval))
unfolding check_token_and_heartbeat
check_token_and_heartbeat_lem ee h = (ground arith, ground arith)

names_lem :
    (name group : Text) (alerts : List Alert)
    → (validate_endpoint_name_group_and_alerts name group alerts).1 ≡ none
    → (is_empty name ≡ false)
      × (contains_any name quote_or_backslash ≡ false)
      × (contains_any group quote_or_backslash ≡ false)
      × All IsValid (validate_endpoint_name_group_and_alerts name group alerts).0
unfolding validate_endpoint_name_group_and_alerts
names_lem name group alerts h =
    let named : is_empty name ≡ false = ground arith in
    let clean_name : contains_any name quote_or_backslash ≡ false = ground (arith, named) in
    let clean_group : contains_any group quote_or_backslash ≡ false =
      ground (arith, named, clean_name) in
    let none_wrong : (validate_alerts alerts).1 ≡ none =
      ground (arith, named, clean_name, clean_group) in
    (
      named,
      clean_name,
      clean_group,
      rw (named, clean_name, clean_group) (validate_alerts-IsValid alerts none_wrong),
    )

-- An external endpoint for which ValidateAndSetDefaults returns no error has, afterwards, a name, a
-- name and a group without quotes and backslashes, valid alerts, a token, and a heartbeat interval
-- that is zero or at least ten seconds.
pub validate_external_endpoint-IsAccepted :
    (ee : ExternalEndpoint)
    → (validate_external_endpoint ee).1 ≡ none
    → IsAccepted (validate_external_endpoint ee).0
unfolding validate_external_endpoint
validate_external_endpoint-IsAccepted ee h =
    let fine : (validate_endpoint_name_group_and_alerts ee.name ee.group ee.alerts).1 ≡ none =
      ground arith in
    let checked : check_token_and_heartbeat ee ≡ none = ground (arith, fine) in
    let names = names_lem ee.name ee.group ee.alerts fine in
    let rest = check_token_and_heartbeat_lem ee checked in
    record {
      named = names.0;
      clean_name = names.1;
      clean_group = names.2;
      valid_alerts = names.3;
      has_token = rest.0;
      heartbeat_off_or_slow = rest.1;
    }
