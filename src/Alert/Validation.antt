-- ===== src/Alert/Validation.antt =====
-- What ValidateAndSetDefaults of an alert accepts, and what it leaves.
use ecs_gatus_app.Base.{◌≡◌, ◌⊎◌, ◌↔◌, false, none, arith}
use ecs_gatus_app.Base.Int.{pos, ◌≤ℤ◌}
use ecs_gatus_app.Base.Text.{contains_any}
use ecs_gatus_app.Alert.{
  Alert, five_minutes, quote_or_backslash, get_description, validate_and_set_defaults,
}

-- What the rest of the program relies on in a validated alert.
pub record IsValid (a : Alert) : Type 0 where
  pub failure_threshold_positive : pos 1 ≤ℤ a.failure_threshold
  pub success_threshold_positive : pos 1 ≤ℤ a.success_threshold
  pub reminder_off_or_slow :
      (a.minimum_reminder_interval ≡ pos 0) ⊎ (five_minutes ≤ℤ a.minimum_reminder_interval)
  pub description_clean : contains_any (get_description a) quote_or_backslash ≡ false

-- ValidateAndSetDefaults returns no error exactly when the alert that it leaves is valid: positive
-- thresholds, a reminder interval that is zero or at least five minutes, and no quote or backslash
-- in the description.
pub validate_and_set_defaults-IsValid :
    (a : Alert) → ((validate_and_set_defaults a).1 ≡ none) ↔ IsValid (validate_and_set_defaults a).0
unfolding validate_and_set_defaults
validate_and_set_defaults-IsValid a = (λ h. ground arith, λ h. ground arith)

-- Validating an alert a second time changes nothing and returns the same answer.
pub validate_and_set_defaults_idem :
    (a : Alert)
    → validate_and_set_defaults (validate_and_set_defaults a).0 ≡ validate_and_set_defaults a
unfolding validate_and_set_defaults
validate_and_set_defaults_idem a = ground arith
