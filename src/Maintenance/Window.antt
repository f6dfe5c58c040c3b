-- ===== src/Maintenance/Window.antt =====
-- When IsUnderMaintenance answers true, against the windows that a configuration describes.
use ecs_gatus_app.Base.{
  ℕ, zero, suc, ◌↔◌, ◌+◌, ◌-◌, ◌*◌, ◌/◌, ◌%◌, ◌≤◌, ◌<◌, ◌≡◌, ap, ◌⊎◌, inl, inr, true, false, some,
  [], arith, ltb, Bool-cases, if◌then◌else◌, value_or,
}
use ecs_gatus_app.Base.Int.{ℤ, pos, pos_part, ◌≤ℤ◌, ◌<ℤ◌}
use ecs_gatus_app.Base.Time.{Time, hour, add}
use ecs_gatus_app.Maintenance.TimeZone.{Location, IsRegular, day}
use ecs_gatus_app.Maintenance.Validation.{IsReady}
use ecs_gatus_app.Maintenance.{
  Config, has_day, weekday_name, is_enabled, day_where_period_would_start, is_under_maintenance_in,
  is_under_maintenance,
}

-- A window is to start on the civil day d.
abbrev pub IsScheduled : Config → ℕ → Type 0
IsScheduled c d = (c.every ≡ []) ⊎ (has_day c.every (weekday_name d) ≡ true)

-- The instant lies strictly inside the window that starts on the civil day d.
abbrev pub IsInside : Config → Location → Time → ℕ → Type 0
IsInside c l now d =
    let start = add (l.midnight d) c.duration_to_start_from_midnight in
    (start < now) × (now < add start c.duration)

nonneg : (a : ℤ) → pos 0 ≤ℤ a → a ≡ pos (pos_part a)
nonneg a h = ground arith

lt_of_nonneg : (a : ℤ) (b : ℕ) → pos 0 ≤ℤ a → a <ℤ pos b → pos_part a < b
lt_of_nonneg a b h k = ground arith

under_iff :
    (c : Config) (l : Location) (now : Time)
    → (is_under_maintenance_in c l now ≡ true) ↔ (
        IsScheduled c (day_where_period_would_start c l now)
        × IsInside c l now (day_where_period_would_start c l now))
unfolding is_under_maintenance_in
under_iff c l now = (λ h. ground arith, λ h. ground arith)

-- An instant is under maintenance only if it lies in a window that the configuration schedules:
-- with any location, strictly after the start of the window of some scheduled civil day and
-- strictly before its end; and the window must be enabled.
pub is_under_maintenance_sound :
    (local : Location) (c : Config) (now : Time)
    → is_under_maintenance local c now ≡ true
    → (is_enabled c ≡ true)
      × ((d : ℕ) × IsScheduled c d × IsInside c (value_or c.timezone_location local) now d)
unfolding is_under_maintenance
is_under_maintenance_sound local c now h = elim (Bool-cases (is_enabled c)) [
  | inl on ↦
      let u = (under_iff c (value_or c.timezone_location local) now).0 (ground arith) in
      (on, (day_where_period_would_start c (value_or c.timezone_location local) now, u.0, u.1))
  | inr off ↦ ground arith
]

located :
    (local : Location) (c : Config) (now : Time) (l : Location)
    → is_enabled c ≡ true
    → c.timezone_location ≡ some l
    → is_under_maintenance local c now ≡ is_under_maintenance_in c l now
unfolding is_under_maintenance
located local c now l e at = rw (e, at)

module _ (l : Location) (regular : IsRegular l) where
  midnight-affine : (d : ℕ) → l.midnight d ≡ l.midnight 0 + d * day
  midnight-affine zero = omega arith
  midnight-affine (suc d) = omega (arith, regular.day_length d, midnight-affine d)

  -- The same choice of the day, over plain numbers: `m` is the first midnight of all, `e` the day
  -- of `now`, `h` its hour.
  pick_day :
      (now d e s w m h : ℕ)
      → m + e * day ≤ now
      → now < m + e * day + day
      → h ≡ (now - (m + e * day)) / hour
      → s < day
      → s % hour + w ≤ day
      → m + d * day + s < now
      → now < m + d * day + s + w
      → (if ltb h (s / hour) then e - 1 else e) ≡ d
  pick_day now d e s w m h p q eh hs hw lo hi = ground arith

  -- The civil day of an instant inside a window that ends within 24 hours of a full hour.
  day_of_inside :
      (c : Config) (now : Time) (d s w : ℕ)
      → c.duration_to_start_from_midnight ≡ pos s
      → c.duration ≡ pos w
      → s < day
      → s % hour + w ≤ day
      → IsInside c l now d
      → day_where_period_would_start c l now ≡ d
  unfolding day_where_period_would_start
  day_of_inside c now d s w es ew hs hw inside = ground (
    arith,
    midnight-affine d,
    midnight-affine (l.day_of now),
    regular.begun now,
    regular.unended now,
    regular.clock now,
    pick_day now d (l.day_of now) s w (l.midnight 0) (l.hour_of now),
  )

  -- For an enabled, validated window of a location with 24-hour days, whose duration and the
  -- minutes of its start past the full hour add up to at most 24 hours: an instant is under
  -- maintenance exactly when it lies strictly inside the window of some scheduled civil day.
  pub is_under_maintenance_exact :
      (local : Location) (c : Config) (now : Time)
      → IsReady c
      → c.timezone_location ≡ some l
      → pos_part c.duration_to_start_from_midnight % hour + pos_part c.duration ≤ day
      → (is_under_maintenance local c now ≡ true) ↔ ((d : ℕ) × IsScheduled c d × IsInside c l now d)
  is_under_maintenance_exact local c now ready at fits =
      let s = pos_part c.duration_to_start_from_midnight in
      let w = pos_part c.duration in
      let es = nonneg c.duration_to_start_from_midnight ready.start_not_before_midnight in
      let ew = nonneg c.duration (omega (arith, ready.lasts)) in
      rw (located local c now l ready.enabled at) (
        λ h.
            let found = (under_iff c l now).0 h in
            (day_where_period_would_start c l now, found.0, found.1),
        λ (d, scheduled, inside). (under_iff c l now).1 (
            rw
              (day_of_inside c now d s w es ew
                (lt_of_nonneg c.duration_to_start_from_midnight day ready.start_not_before_midnight
                  ready.start_within_day)
                fits inside)
              (scheduled, inside)),
      )

  inside_parts_lem :
      (c : Config) (now : Time) (d s w : ℕ)
      → c.duration_to_start_from_midnight ≡ pos s
      → c.duration ≡ pos w
      → l.midnight d + s < now
      → now < l.midnight d + s + w
      → IsInside c l now d
  inside_parts_lem c now d s w es ew lo hi = rw (es, ew) (ground arith, ground arith)

  missed_of_parts :
      (c : Config) (now : Time) (d s : ℕ)
      → c.duration_to_start_from_midnight ≡ pos s
      → l.day_of now ≡ suc d
      → l.hour_of now ≡ s / hour
      → now ≤ l.midnight (suc d) + s
      → is_under_maintenance_in c l now ≡ false
  unfolding is_under_maintenance_in
  missed_of_parts c now d s es today at_hour early = rw es (ground arith)

  -- For an enabled, validated window that starts on every day, in a location with 24-hour days: an
  -- instant of the next civil day, in the hour in which the window starts and not after the start of
  -- that day's window, but before the end of the window of the day before, lies strictly inside that
  -- scheduled window of the day before, and IsUnderMaintenance answers false nevertheless.
  pub is_under_maintenance_misses_end :
      (local : Location) (c : Config) (now : Time) (d : ℕ)
      → IsReady c
      → c.timezone_location ≡ some l
      → c.every ≡ []
      → l.day_of now ≡ suc d
      → l.hour_of now ≡ pos_part c.duration_to_start_from_midnight / hour
      → now ≤ l.midnight (suc d) + pos_part c.duration_to_start_from_midnight
      → now < l.midnight d + pos_part c.duration_to_start_from_midnight + pos_part c.duration
      → IsScheduled c d × IsInside c l now d × (is_under_maintenance local c now ≡ false)
  is_under_maintenance_misses_end local c now d ready at every today at_hour early late =
      let es = nonneg c.duration_to_start_from_midnight ready.start_not_before_midnight in
      let ew = nonneg c.duration (omega (arith, ready.lasts)) in
      (
        inl every,
        inside_parts_lem c now d _ _ es ew
            (omega (arith, regular.begun now, regular.day_length d, ap l.midnight today)) late,
        rw (located local c now l ready.enabled at)
            (missed_of_parts c now d _ es today at_hour early),
      )
