-- ===== src/Maintenance/Examples.antt =====
-- Windows at concrete instants.
use ecs_gatus_app.Base.{
  ℕ, ◌+◌, ◌*◌, ◌≤◌, ◌<◌, ◌≡◌, refl, ◌↔◌, true, false, Option, none, some, ◌∷◌, ◌++◌, arith,
}
use ecs_gatus_app.Base.Int.{ℤ, pos}
use ecs_gatus_app.Base.Text.{Text, codes, atoi, trim_prefix}
use ecs_gatus_app.Base.Time.{Time, hour}
use ecs_gatus_app.Base.Outcome.{ok}
use ecs_gatus_app.Maintenance.TimeZone.{Location, utc, utc-IsRegular, day}
use ecs_gatus_app.Maintenance.StartTime.{two_digits, hhmm_to_duration-two_digits}
use ecs_gatus_app.Maintenance.Validation.{IsReady, validate_and_set_defaults-IsReady}
use ecs_gatus_app.Maintenance.Window.{
  IsScheduled, IsInside, is_under_maintenance_exact, is_under_maintenance_misses_end,
}
use ecs_gatus_app.Maintenance.{
  Config, default_config, is_enabled, hhmm_to_duration, validate_and_set_defaults,
  is_under_maintenance, days_valid, extract_numerical_value_from_potentially_zero_padded_string,
}

-- From 23:30, for the given duration, every day.
abbrev half_past_eleven : ℤ → Config
half_past_eleven d = record default_config { enabled = none; start = codes "23:30"; duration = d }

abbrev no_zones : Text → Option Location
no_zones name = none

abbrev half_past_eleven_ready : ℤ → Config
half_past_eleven_ready d = record (half_past_eleven d) {
  timezone = codes "UTC";
  timezone_location = some utc;
  duration_to_start_from_midnight = pos 84_600_000_000_000;
}

hhmm_to_duration-two_digits_example :
    hhmm_to_duration (two_digits 23 ++ b':' ∷ two_digits 5)
    ≡ ok (pos (23 * 3_600_000_000_000 + 5 * 60_000_000_000))
hhmm_to_duration-two_digits_example =
    hhmm_to_duration-two_digits 23 5 b':' (omega arith) (omega arith) (omega arith)

validate_and_set_defaults-IsReady_example :
    IsReady (validate_and_set_defaults no_zones (half_past_eleven (pos hour))).0
unfolding validate_and_set_defaults hhmm_to_duration days_valid
    extract_numerical_value_from_potentially_zero_padded_string atoi trim_prefix
validate_and_set_defaults-IsReady_example =
    validate_and_set_defaults-IsReady no_zones (half_past_eleven (pos hour)) refl refl

half_past_eleven_ready-IsReady :
    (w : ℕ) → 0 < w → w ≤ day → IsReady (half_past_eleven_ready (pos w))
unfolding is_enabled
half_past_eleven_ready-IsReady w h k = record {
  enabled = refl;
  start_not_before_midnight = omega arith;
  start_within_day = omega arith;
  lasts = omega arith;
  at_most_a_day = omega arith;
  located = λ e. cc;
  days_named = tt;
}

-- 23:45 on the eleventh day.
abbrev in_the_window : Time
in_the_window = 10 * day + 85_500_000_000_000

is_under_maintenance_exact_example :
    (is_under_maintenance utc (half_past_eleven_ready (pos hour)) in_the_window ≡ true) ↔ (
      (d : ℕ) × IsScheduled (half_past_eleven_ready (pos hour)) d
      × IsInside (half_past_eleven_ready (pos hour)) utc in_the_window d)
is_under_maintenance_exact_example =
    is_under_maintenance_exact utc utc-IsRegular utc (half_past_eleven_ready (pos hour))
      in_the_window (half_past_eleven_ready-IsReady hour (omega arith) (omega arith)) refl
      (omega arith)

-- 23:10 on the twelfth day, in a window of 24 hours.
abbrev before_the_end : Time
before_the_end = 11 * day + 83_400_000_000_000

is_under_maintenance_misses_end_example :
    IsScheduled (half_past_eleven_ready (pos day)) 10
    × IsInside (half_past_eleven_ready (pos day)) utc before_the_end 10
    × (is_under_maintenance utc (half_past_eleven_ready (pos day)) before_the_end ≡ false)
is_under_maintenance_misses_end_example =
    is_under_maintenance_misses_end utc utc-IsRegular utc (half_past_eleven_ready (pos day))
      before_the_end 10 (half_past_eleven_ready-IsReady day (omega arith) (omega arith)) refl refl
      refl refl (omega arith) (omega arith)
