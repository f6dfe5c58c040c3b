-- ===== src/Memory/Store/Rounds.antt =====
-- The loops over a time range and the rounds that they are given.
use ecs_gatus_app.Base.{
  ℕ, zero, suc, ◌+◌, ◌-◌, ◌*◌, ◌<◌, ◌≤◌, ◌≡◌, refl, ap, sym, ◌∙◌, true, false, List, leb, arith,
}
use ecs_gatus_app.Base.Int.{ℤ}
use ecs_gatus_app.Base.Time.{Time, hour}
use ecs_gatus_app.Endpoint.{HourlyUptimeStatistics}
use ecs_gatus_app.Memory.HourlyStats.{hourly_unix_timestamp}
use ecs_gatus_app.Memory.Store.{visit_hour, each_hour, rounds}

-- The hours that a query over a range visits: an instant of each, an hour apart.
abbrev pub instants : ℕ → Time → List Time
instants zero current = List.[]
instants (suc n) current = List.◌∷◌ current (instants n (current + hour))

abbrev pub visit_all {ℓ} :
    {S : Type ℓ}
    → List (ℤ × HourlyUptimeStatistics)
    → (ℤ → HourlyUptimeStatistics → S → S)
    → List Time
    → S
    → S
visit_all stats body List.[] s = s
visit_all stats body (List.◌∷◌ t ts) s =
    visit_all stats body ts (visit_hour stats body (hourly_unix_timestamp t) s)

each_hour-past {ℓ} :
    {S : Type ℓ} (fuel : ℕ) (stats : List (ℤ × HourlyUptimeStatistics)) (to : Time)
    (body : ℤ → HourlyUptimeStatistics → S → S) (current : Time) (s : S)
    → to < current
    → each_hour fuel stats to body current s ≡ s
unfolding each_hour
each_hour-past zero stats to body current s h = refl
each_hour-past (suc fuel) stats to body current s h =
    let past : leb current to ≡ false = ground arith in rw past

each_hour-instants {ℓ} :
    {S : Type ℓ} (n extra : ℕ) (stats : List (ℤ × HourlyUptimeStatistics)) (to : Time)
    (body : ℤ → HourlyUptimeStatistics → S → S) (current : Time) (s : S)
    → n * hour ≤ to + hour - current
    → to < current + n * hour
    → each_hour (n + extra) stats to body current s ≡ visit_all stats body (instants n current) s
unfolding each_hour
each_hour-instants zero extra stats to body current s h k =
    each_hour-past (0 + extra) stats to body current s (omega arith)
each_hour-instants (suc n) extra stats to body current s h k =
    let one : suc n + extra ≡ suc (n + extra) = omega arith in
    let go_on : leb current to ≡ true = ground arith in
    rw (one, go_on)
      (each_hour-instants n extra stats to body (current + hour)
        (visit_hour stats body (hourly_unix_timestamp current) s) (omega arith) (omega arith))

-- The loop of a query from one instant to a later or equal one visits that instant and those that
-- are a whole number of hours after it, up to the end of the range, in order, each once; and with
-- any number of rounds beyond those that the queries give it, it does the same.
pub each_hour-rounds {ℓ} :
    {S : Type ℓ} (extra : ℕ) (stats : List (ℤ × HourlyUptimeStatistics)) (from to : Time)
    (body : ℤ → HourlyUptimeStatistics → S → S) (s : S)
    → from ≤ to
    → (each_hour (rounds from to) stats to body from s
        ≡ visit_all stats body (instants (rounds from to) from) s)
      × (each_hour (rounds from to + extra) stats to body from s
          ≡ each_hour (rounds from to) stats to body from s)
      × (to < from + rounds from to * hour)
      × (from + (rounds from to - 1) * hour ≤ to)
each_hour-rounds extra stats from to body s h =
    let none_over : rounds from to * hour ≤ to + hour - from = omega arith in
    let all_done : to < from + rounds from to * hour = omega arith in
    let more = each_hour-instants (rounds from to) extra stats to body from s none_over all_done in
    let exact = each_hour-instants (rounds from to) 0 stats to body from s none_over all_done in
    let zero_more : rounds from to + 0 ≡ rounds from to = omega arith in
    let done = sym (ap (λ n. each_hour n stats to body from s) zero_more) ∙ exact in
    (done, more ∙ sym done, all_done, omega arith)
