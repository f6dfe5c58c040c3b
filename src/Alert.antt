-- ===== src/Alert.antt =====
-- app/alerting/alert/alert.go, and the merging of a provider's default alert into an endpoint's
-- (app/alerting/provider/provider.go). A pointer that YAML may leave nil is an Option, a Go int an
-- integer, a duration an integer of nanoseconds.
pub mod Validation
pub mod Merging
mod Examples
use ecs_gatus_app.Base.{
  Bool, true, false, ◌&&◌, ◌||◌, not, Option, none, some, [], value_or, if◌then◌else◌,
}
use ecs_gatus_app.Base.Int.{ℤ, pos, ltb_ℤ, leb_ℤ, eqb_ℤ}
use ecs_gatus_app.Base.Text.{Text, codes, contains_any}

pub record Alert : Type 0 where
  pub type : Text
  pub enabled : Option Bool
  pub failure_threshold : ℤ
  pub success_threshold : ℤ
  pub minimum_reminder_interval : ℤ
  pub description : Option Text
  pub send_on_resolved : Option Bool
  pub resolve_key : Text
  pub triggered : Bool

pub data AlertError : Type 0 where
  err_alert_with_invalid_description : AlertError
  err_alert_with_invalid_minimum_reminder_interval : AlertError

-- 5 * time.Minute.
abbrev pub five_minutes : ℤ
five_minutes = pos 300_000_000_000

-- The two characters of the Go literal "\"\\".
abbrev pub quote_or_backslash : Text
quote_or_backslash = codes "\"\\"

unfoldable pub get_description : Alert → Text
get_description a = value_or a.description []

unfoldable pub is_enabled : Alert → Bool
is_enabled a = value_or a.enabled true

unfoldable pub is_sending_on_resolved : Alert → Bool
is_sending_on_resolved a = value_or a.send_on_resolved false

-- The first two statements of ValidateAndSetDefaults.
set_threshold_defaults : Alert → Alert
set_threshold_defaults a = record a {
  failure_threshold = if leb_ℤ a.failure_threshold (pos 0) then pos 3 else a.failure_threshold;
  success_threshold = if leb_ℤ a.success_threshold (pos 0) then pos 2 else a.success_threshold;
}

-- The alert is changed in place, whether or not an error is returned.
unfoldable pub validate_and_set_defaults : Alert → Alert × Option AlertError
unfolding set_threshold_defaults get_description
validate_and_set_defaults a =
    let b = set_threshold_defaults a in
    (
      b,
      if not (eqb_ℤ b.minimum_reminder_interval (pos 0))
            && ltb_ℤ b.minimum_reminder_interval five_minutes
          then some err_alert_with_invalid_minimum_reminder_interval
          else if contains_any (get_description b) quote_or_backslash
          then some err_alert_with_invalid_description
          else none,
    )

-- `if x == nil { x = d }`.
abbrev or_default {ℓ} : {A : Type ℓ} → Option A → Option A → Option A
or_default none d = d
or_default (some a) d = some a

-- `if x == 0 { x = d }`.
abbrev or_default_int : ℤ → ℤ → ℤ
or_default_int x d = if eqb_ℤ x (pos 0) then d else x

merge_into : Alert → Alert → Alert
merge_into d a = record a {
  enabled = or_default a.enabled d.enabled;
  send_on_resolved = or_default a.send_on_resolved d.send_on_resolved;
  description = or_default a.description d.description;
  failure_threshold = or_default_int a.failure_threshold d.failure_threshold;
  success_threshold = or_default_int a.success_threshold d.success_threshold;
  minimum_reminder_interval =
      or_default_int a.minimum_reminder_interval d.minimum_reminder_interval;
}

-- Both arguments are pointers; the second is what the endpoint's pointer holds afterwards.
unfoldable pub merge_provider_default_alert_into_endpoint_alert :
    Option Alert → Option Alert → Option Alert
unfolding merge_into
merge_provider_default_alert_into_endpoint_alert none a = a
merge_provider_default_alert_into_endpoint_alert (some d) none = none
merge_provider_default_alert_into_endpoint_alert (some d) (some a) = some (merge_into d a)
