-- ===== src/Maintenance/Validation.antt =====
-- What ValidateAndSetDefaults of a maintenance window leaves.
use ecs_gatus_app.Base.{
  ◌≡◌, refl, inl, inr, ◌≢◌, true, false, Option, none, List, [], ◌∷◌, arith, All, Bool-cases,
}
use ecs_gatus_app.Base.Int.{ℤ, pos, ◌≤ℤ◌, ◌<ℤ◌}
use ecs_gatus_app.Base.Text.{Text}
use ecs_gatus_app.Base.Outcome.{Outcome, ok, err}
use ecs_gatus_app.Maintenance.TimeZone.{Location}
use ecs_gatus_app.Maintenance.StartTime.{IsClockTime, hhmm_to_duration-IsClockTime}
use ecs_gatus_app.Maintenance.{
  Config, MaintenanceError, twenty_four_hours, long_day_names, has_day, days_valid, is_enabled,
  set_start, validate_and_set_defaults, hhmm_to_duration,
}

-- What IsUnderMaintenance relies on in an enabled window.
pub record IsReady (c : Config) : Type 0 where
  pub enabled : is_enabled c ≡ true
  pub start_not_before_midnight : pos 0 ≤ℤ c.duration_to_start_from_midnight
  pub start_within_day : c.duration_to_start_from_midnight <ℤ twenty_four_hours
  pub lasts : pos 1 ≤ℤ c.duration
  pub at_most_a_day : c.duration ≤ℤ twenty_four_hours
  pub located : c.timezone_location ≢ none
  pub days_named : All (λ d. has_day long_day_names d ≡ true) c.every

days_valid-All :
    (ds : List Text) → days_valid ds ≡ true → All (λ d. has_day long_day_names d ≡ true) ds
unfolding days_valid
days_valid-All [] h = tt
days_valid-All (d ∷ ds) h = (ground arith, days_valid-All ds (ground arith))

module _ (load_location : Text → Option Location) where
  every-set_start :
      (c : Config) (o : Outcome MaintenanceError ℤ)
      → (set_start load_location c o).0.every ≡ c.every
  unfolding set_start
  every-set_start c (ok d) = ground arith
  every-set_start c (err e) = refl

  set_start-IsReady :
      (c : Config) (d : ℤ)
      → is_enabled c ≡ true
      → All (λ day. has_day long_day_names day ≡ true) c.every
      → IsClockTime d
      → (set_start load_location c (ok d)).1 ≡ none
      → IsReady (set_start load_location c (ok d)).0
  unfolding set_start is_enabled
  set_start-IsReady c d en ds (h, m, p, q, e) done = record {
    enabled = ground arith;
    start_not_before_midnight = ground arith;
    start_within_day = ground arith;
    lasts = ground arith;
    at_most_a_day = ground arith;
    located = ground arith;
    days_named = rw (every-set_start c (ok d)) ds;
  }

  set_start_of_start :
      (c : Config) (o : Outcome MaintenanceError ℤ)
      → hhmm_to_duration c.start ≡ o
      → is_enabled c ≡ true
      → All (λ day. has_day long_day_names day ≡ true) c.every
      → (set_start load_location c o).1 ≡ none
      → IsReady (set_start load_location c o).0
  unfolding set_start
  set_start_of_start c (ok d) e en ds h =
      set_start-IsReady c d en ds (hhmm_to_duration-IsClockTime c.start e).1 h
  set_start_of_start c (err x) e en ds h = ground arith

  validate_lem :
      (c : Config)
      → is_enabled c ≡ true
      → days_valid c.every ≡ true
      → validate_and_set_defaults load_location c
        ≡ set_start load_location c (hhmm_to_duration c.start)
  unfolding validate_and_set_defaults
  validate_lem c e d = rw (e, d)

  refused :
      (c : Config)
      → is_enabled c ≡ true
      → days_valid c.every ≡ false
      → (validate_and_set_defaults load_location c).1 ≢ none
  unfolding validate_and_set_defaults
  refused c e d = ground arith

  -- If the window is enabled and ValidateAndSetDefaults returns no error, then what it leaves is
  -- ready to use: it starts within the day, lasts more than nothing and at most 24 hours, has a
  -- location, and is restricted to known names of days only.
  pub validate_and_set_defaults-IsReady :
      (c : Config)
      → is_enabled c ≡ true
      → (validate_and_set_defaults load_location c).1 ≡ none
      → IsReady (validate_and_set_defaults load_location c).0
  validate_and_set_defaults-IsReady c e h = elim (Bool-cases (days_valid c.every)) [
    | inl known ↦ rw (validate_lem c e known) (
        set_start_of_start c (hhmm_to_duration c.start) refl e (days_valid-All c.every known)
          (rw (validate_lem c e known) at h))
    | inr unknown ↦ absurd (refused c e unknown h)
  ]
