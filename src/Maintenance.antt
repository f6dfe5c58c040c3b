-- ===== src/Maintenance.antt =====
-- app/config/maintenance/maintenance.go: windows during which no alert is sent.
pub mod TimeZone
pub mod StartTime
pub mod Validation
pub mod Window
mod Examples
use ecs_gatus_app.Base.{
  ℕ, ◌-◌, ◌%◌, ◌+◌, Bool, true, false, ◌&&◌, ◌||◌, not, Option, none, some, List, [], ◌∷◌,
  if◌then◌else◌, ◌==◌, ltb, value_or, length, take, drop, any, get_elem?,
}
use ecs_gatus_app.Base.Int.{ℤ, pos, ◌+ℤ◌, ◌*ℤ◌, ltb_ℤ, leb_ℤ, quot}
use ecs_gatus_app.Base.Text.{Text, codes, text_eq, trim_prefix, atoi, is_empty}
use ecs_gatus_app.Base.Time.{Time, hour, add, after, before}
use ecs_gatus_app.Base.Outcome.{Outcome, ok, err, ◌>>=◌, ◌>>◌, fail_if}
use TimeZone.{Location, utc}

pub data MaintenanceError : Type 0 where
  err_invalid_maintenance_start_format : MaintenanceError
  err_invalid_maintenance_duration : MaintenanceError
  err_invalid_day_name : MaintenanceError
  err_invalid_timezone : MaintenanceError
  -- An error of strconv.Atoi, passed on.
  err_atoi : MaintenanceError

abbrev pub long_day_names : List Text
long_day_names =
    codes "Sunday"
    ∷ codes "Monday"
    ∷ codes "Tuesday"
    ∷ codes "Wednesday"
    ∷ codes "Thursday"
    ∷ codes "Friday"
    ∷ codes "Saturday"
    ∷ []

pub record Config : Type 0 where
  pub enabled : Option Bool
  pub start : Text
  pub duration : ℤ
  pub timezone : Text
  pub every : List Text
  pub timezone_location : Option Location
  pub duration_to_start_from_midnight : ℤ

abbrev pub default_config : Config
default_config = record {
  enabled = some false;
  start = [];
  duration = pos 0;
  timezone = [];
  every = [];
  timezone_location = none;
  duration_to_start_from_midnight = pos 0;
}

unfoldable pub is_enabled : Config → Bool
is_enabled c = value_or c.enabled true

unfoldable pub has_day : List Text → Text → Bool
has_day every day = any (λ d. text_eq d day) every

-- An error of strconv.Atoi is all that is kept of it.
abbrev atoi_or_err : Option ℤ → Outcome MaintenanceError ℤ
atoi_or_err none = err err_atoi
atoi_or_err (some n) = ok n

unfoldable pub extract_numerical_value_from_potentially_zero_padded_string :
    Text → Outcome MaintenanceError ℤ
extract_numerical_value_from_potentially_zero_padded_string s =
    atoi_or_err (atoi (trim_prefix s (codes "0")))

abbrev pub twenty_four_hours : ℤ
twenty_four_hours = pos 86_400_000_000_000

check_start : ℤ → ℤ → ℤ → Outcome MaintenanceError ℤ
check_start hours minutes duration =
    if ltb_ℤ hours (pos 0)
      || ltb_ℤ (pos 23) hours
      || ltb_ℤ minutes (pos 0)
      || ltb_ℤ (pos 59) minutes
      || ltb_ℤ duration (pos 0)
      || leb_ℤ twenty_four_hours duration
    then err err_invalid_maintenance_start_format
    else ok duration

-- What hhmmToDuration does with the two numbers that it reads.
parse_parts : Outcome MaintenanceError ℤ → Outcome MaintenanceError ℤ → Outcome MaintenanceError ℤ
unfolding check_start
parse_parts first second = do
  hours ← first
  minutes ← second
  check_start hours minutes (hours *ℤ pos 3_600_000_000_000 +ℤ minutes *ℤ pos 60_000_000_000)

unfoldable pub hhmm_to_duration : Text → Outcome MaintenanceError ℤ
unfolding parse_parts
hhmm_to_duration s =
    if length s == 5
    then parse_parts (extract_numerical_value_from_potentially_zero_padded_string (take 2 s))
        (extract_numerical_value_from_potentially_zero_padded_string (take 2 (drop 3 s)))
    else err err_invalid_maintenance_start_format

unfoldable pub days_valid : List Text → Bool
unfolding has_day
days_valid [] = true
days_valid (d ∷ ds) = has_day long_day_names d && days_valid ds

-- time.LoadLocation reads the time zone database, which is a parameter.
module _ (load_location : Text → Option Location) where
  set_timezone : Config → Config × Option MaintenanceError
  set_timezone c =
      if is_empty c.timezone
      then (record c { timezone = codes "UTC"; timezone_location = some utc }, none)
      else elim (load_location c.timezone) [
        | none ↦ (record c { timezone_location = none }, some err_invalid_timezone)
        | some l ↦ (record c { timezone_location = some l }, none)
      ]

  -- The start time is stored before its error is looked at: it is 0 where there is one.
  set_start : Config → Outcome MaintenanceError ℤ → Config × Option MaintenanceError
  unfolding set_timezone
  set_start c (err e) = (record c { duration_to_start_from_midnight = pos 0 }, some e)
  set_start c (ok d) =
      let c' = record c { duration_to_start_from_midnight = d } in
      if leb_ℤ c.duration (pos 0) || ltb_ℤ twenty_four_hours c.duration
      then (c', some err_invalid_maintenance_duration)
      else set_timezone c'

  unfoldable pub validate_and_set_defaults : Config → Config × Option MaintenanceError
  unfolding set_start is_enabled
  validate_and_set_defaults c =
      if not (is_enabled c)
      then (c, none)
      else if not (days_valid c.every)
      then (c, some err_invalid_day_name)
      else set_start c (hhmm_to_duration c.start)

-- The civil day, 0 for 1 January of year 1, on which the period around `now` would have started.
unfoldable pub day_where_period_would_start : Config → Location → Time → ℕ
day_where_period_would_start c l now =
    if ltb_ℤ (pos (l.hour_of now)) (quot c.duration_to_start_from_midnight hour)
    then l.day_of now - 1
    else l.day_of now

-- 1 January of year 1 was a Monday.
abbrev pub weekday_name : ℕ → Text
weekday_name d = value_or (get_elem? long_day_names ((d + 1) % 7)) []

-- IsUnderMaintenance, once it has found the location.
unfoldable pub is_under_maintenance_in : Config → Location → Time → Bool
unfolding day_where_period_would_start has_day
is_under_maintenance_in c l now =
    let day = day_where_period_would_start c l now in
    if not (length c.every == 0) && not (has_day c.every (weekday_name day))
    then false
    else let start = add (l.midnight day) c.duration_to_start_from_midnight in
      after now start && before now (add start c.duration)

-- `local` is the location of time.Now().
unfoldable pub is_under_maintenance : Location → Config → Time → Bool
unfolding is_under_maintenance_in is_enabled
is_under_maintenance local c now =
    if not (is_enabled c)
    then false
    else is_under_maintenance_in c (value_or c.timezone_location local) now
