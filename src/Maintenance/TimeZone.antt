-- ===== src/Maintenance/TimeZone.antt =====
-- Time zones: what the program asks of time.Location.
use ecs_gatus_app.Base.{ℕ, suc, ◌+◌, ◌-◌, ◌*◌, ◌/◌, ◌%◌, ◌≤◌, ◌<◌, ◌≡◌, arith}
use ecs_gatus_app.Base.Time.{Time, hour}

abbrev pub day : ℕ
day = 86_400_000_000_000

-- The civil day of an instant, the hour that its clock shows, and the instant that time.Date gives
-- for midnight of a civil day.
pub record Location : Type 0 where
  pub day_of : Time → ℕ
  pub hour_of : Time → ℕ
  pub midnight : ℕ → Time

abbrev pub utc : Location
utc = record { day_of = λ t. t / day; hour_of = λ t. t % day / hour; midnight = λ d. d * day }

-- A location at a constant offset from UTC: each day has 24 hours.
pub record IsRegular (l : Location) : Type 0 where
  pub begun : (t : Time) → l.midnight (l.day_of t) ≤ t
  pub unended : (t : Time) → t < l.midnight (l.day_of t) + day
  pub day_length : (d : ℕ) → l.midnight (suc d) ≡ l.midnight d + day
  pub clock : (t : Time) → l.hour_of t ≡ (t - l.midnight (l.day_of t)) / hour

pub utc-IsRegular : IsRegular utc
utc-IsRegular = record {
  begun = λ t. omega arith;
  unended = λ t. omega arith;
  day_length = λ d. omega arith;
  clock = λ t. omega arith;
}
