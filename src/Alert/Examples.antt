-- ===== src/Alert/Examples.antt =====
-- An alert as YAML may give it.
use ecs_gatus_app.Base.{◌≡◌, ◌↔◌, false, none, some}
use ecs_gatus_app.Base.Int.{pos}
use ecs_gatus_app.Base.Text.{codes}
use ecs_gatus_app.Alert.{Alert, validate_and_set_defaults}
use ecs_gatus_app.Alert.Validation.{IsValid, validate_and_set_defaults-IsValid}

-- A reminder each minute is refused.
abbrev each_minute : Alert
each_minute = record {
  type = codes "slack";
  enabled = none;
  failure_threshold = pos 0;
  success_threshold = pos 5;
  minimum_reminder_interval = pos 60_000_000_000;
  description = some (codes "down");
  send_on_resolved = none;
  resolve_key = codes "";
  triggered = false;
}

validate_and_set_defaults-IsValid_example :
    ((validate_and_set_defaults each_minute).1 ≡ none)
    ↔ IsValid (validate_and_set_defaults each_minute).0
validate_and_set_defaults-IsValid_example = validate_and_set_defaults-IsValid each_minute
