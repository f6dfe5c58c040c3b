-- ===== src/Memory/HourlyStats/Counting.antt =====
-- The statistics of an hour against the results of that hour.
use ecs_gatus_app.Base.{
  ℕ, ◌+◌, ◌≡◌, Bool, true, false, ◌&&◌, List, [], ◌∷◌, if◌then◌else◌, length, ltb, value_or, arith,
  Bool-cases, inl, inr,
}
use ecs_gatus_app.Base.Int.{ℤ, ltb_ℤ, eqb_ℤ, u64_of}
use ecs_gatus_app.Base.Time.{Time, add, unix, milliseconds}
use ecs_gatus_app.Base.Eq.{int_key, eqb_ℤ_iff}
use ecs_gatus_app.Base.Assoc.{lookup, lookup-insert, lookup-keep_keys}
use ecs_gatus_app.Endpoint.{Result, HourlyUptimeStatistics, Uptime}
use ecs_gatus_app.Memory.HourlyStats.{
  u64, no_statistics, minus_retention, hourly_unix_timestamp, count_result, clean_up,
  process_uptime_after_result, uptime_clean_up_threshold,
}

-- An hour that the clean-up never deletes.
abbrev pub IsRetained : Time → ℤ → Type 0
IsRetained now k = ltb_ℤ k (unix (add now minus_retention)) ≡ false

lookup-clean_up :
    (now : Time) (k : ℤ) (m : List (ℤ × HourlyUptimeStatistics))
    → IsRetained now k
    → lookup k (clean_up now m) ≡ lookup k m
unfolding clean_up
lookup-clean_up now k m h = elim (Bool-cases (ltb uptime_clean_up_threshold (length m))) [
  | inl full ↦ rw full (rw (lookup-keep_keys _ k m) (rw h))
  | inr few ↦ rw few
]

-- What is on record for an hour, zeros where there is nothing.
unfoldable pub statistics_of : ℤ → Uptime → HourlyUptimeStatistics
statistics_of k u = value_or (lookup k u.hourly_statistics) no_statistics

-- Counting one result changes the statistics of its hour and of no other hour, unless that hour is
-- older than the retention.
pub statistics_of-process_uptime_after_result :
    (now : Time) (u : Uptime) (r : Result) (k : ℤ)
    → IsRetained now k
    → statistics_of k (process_uptime_after_result now u r) ≡ (
        if eqb_ℤ (hourly_unix_timestamp r.timestamp) k
        then count_result r (statistics_of k u)
        else statistics_of k u)
unfolding statistics_of process_uptime_after_result
statistics_of-process_uptime_after_result now u r k h =
    rw (lookup-clean_up now k _ h, lookup-insert (hourly_unix_timestamp r.timestamp) k)
      (ground (arith, eqb_ℤ_iff (hourly_unix_timestamp r.timestamp) k))

-- Results one after another, each with the time at which it is processed.
abbrev pub process_all : Uptime → List (Time × Result) → Uptime
process_all u [] = u
process_all u ((now, r) ∷ rs) = process_all (process_uptime_after_result now u r) rs

-- Results of the hour k; those of them that succeeded; their response times in milliseconds.
abbrev pub executions : ℤ → List (Time × Result) → ℕ
executions k [] = 0
executions k ((now, r) ∷ rs) =
    (if eqb_ℤ (hourly_unix_timestamp r.timestamp) k then 1 else 0) + executions k rs

abbrev pub successes : ℤ → List (Time × Result) → ℕ
successes k [] = 0
successes k ((now, r) ∷ rs) =
    (if eqb_ℤ (hourly_unix_timestamp r.timestamp) k && r.success then 1 else 0) + successes k rs

abbrev pub response_times : ℤ → List (Time × Result) → ℕ
response_times k [] = 0
response_times k ((now, r) ∷ rs) =
    (if eqb_ℤ (hourly_unix_timestamp r.timestamp) k then u64_of (milliseconds r.duration) else 0)
    + response_times k rs

abbrev pub IsRetainedAll : ℤ → List (Time × Result) → Type 0
IsRetainedAll k [] = Unit
IsRetainedAll k ((now, r) ∷ rs) = IsRetained now k × IsRetainedAll k rs

-- h is i with e executions, s successes and d milliseconds added, modulo 2 ^ 64.
pub record Adds (h i : HourlyUptimeStatistics) (e s d : ℕ) : Type 0 where
  pub total : u64 h.total_executions ≡ u64 (i.total_executions + e)
  pub successful : u64 h.successful_executions ≡ u64 (i.successful_executions + s)
  pub response_time :
      u64 h.total_executions_response_time ≡ u64 (i.total_executions_response_time + d)

Adds-count_result :
    (b : Bool) (r : Result) (h i : HourlyUptimeStatistics) (e s d : ℕ)
    → Adds h (if b then count_result r i else i) e s d
    → Adds h i
        ((if b then 1 else 0) + e)
        ((if b && r.success then 1 else 0) + s)
        ((if b then u64_of (milliseconds r.duration) else 0) + d)
unfolding count_result
Adds-count_result true r h i e s d a = record {
  total = omega (arith, a.total);
  successful = ground (arith, a.successful);
  response_time = omega (arith, a.response_time);
}
Adds-count_result false r h i e s d a = record {
  total = omega (arith, a.total);
  successful = omega (arith, a.successful);
  response_time = omega (arith, a.response_time);
}

-- After any results, as long as an hour is never older than the retention, its statistics count its
-- results, its successful results and their response times, modulo 2 ^ 64.
pub statistics_of-process_all :
    (k : ℤ) (u : Uptime) (rs : List (Time × Result))
    → IsRetainedAll k rs
    → Adds
        (statistics_of k (process_all u rs))
        (statistics_of k u)
        (executions k rs)
        (successes k rs)
        (response_times k rs)
statistics_of-process_all k u [] h = record {
  total = omega arith;
  successful = omega arith;
  response_time = omega arith;
}
statistics_of-process_all k u ((now, r) ∷ rs) h =
    Adds-count_result (eqb_ℤ (hourly_unix_timestamp r.timestamp) k) r _ _ _ _ _ (
      rw (← statistics_of-process_uptime_after_result now u r k h.0)
        (statistics_of-process_all k (process_uptime_after_result now u r) rs h.1))
