-- ===== src/Memory/HourlyStats.antt =====
-- app/storage/store/memory/uptime.go: the statistics that are kept for each hour.
pub mod Counting
use ecs_gatus_app.Base.{
  ℕ, ◌+◌, ◌*◌, ◌%◌, Bool, true, false, not, Option, none, some, List, [], ◌∷◌, if◌then◌else◌,
  length, ltb, value_or,
}
use ecs_gatus_app.Base.Int.{ℤ, negsuc, pos, sub_ℕ, ltb_ℤ, u64_of}
use ecs_gatus_app.Base.Time.{Time, hour, add, truncate_hour, unix, milliseconds}
use ecs_gatus_app.Base.Eq.{int_key}
use ecs_gatus_app.Base.Assoc.{lookup, insert, keep_keys}
use ecs_gatus_app.Endpoint.{Result, HourlyUptimeStatistics, Uptime}

abbrev pub uptime_clean_up_threshold : ℕ
uptime_clean_up_threshold = 32 * 24

-- uptimeRetention + time.Hour: 30 days and an hour, negated.
abbrev pub minus_retention : ℤ
minus_retention = sub_ℕ 0 (30 * 24 * hour + hour)

abbrev pub u64 : ℕ → ℕ
u64 n = n % 18_446_744_073_709_551_616

abbrev pub no_statistics : HourlyUptimeStatistics
no_statistics = record {
  total_executions = 0;
  successful_executions = 0;
  total_executions_response_time = 0;
}

-- The Unix timestamp of the hour of an instant.
abbrev pub hourly_unix_timestamp : Time → ℤ
hourly_unix_timestamp t = unix (truncate_hour t)

unfoldable pub count_result : Result → HourlyUptimeStatistics → HourlyUptimeStatistics
count_result r h = record h {
  successful_executions =
      if r.success then u64 (h.successful_executions + 1) else h.successful_executions;
  total_executions = u64 (h.total_executions + 1);
  total_executions_response_time =
      u64 (h.total_executions_response_time + u64_of (milliseconds r.duration));
}

-- Deleting the hours that are too old; `sevenDaysAgo` in the source.
unfoldable pub clean_up :
    Time → List (ℤ × HourlyUptimeStatistics) → List (ℤ × HourlyUptimeStatistics)
clean_up now stats =
    if ltb uptime_clean_up_threshold (length stats)
    then keep_keys (λ k. not (ltb_ℤ k (unix (add now minus_retention)))) stats
    else stats

-- A nil map reads like an empty one, and is made before it is written.
unfoldable pub process_uptime_after_result : Time → Uptime → Result → Uptime
unfolding count_result
process_uptime_after_result now uptime r =
    let k = hourly_unix_timestamp r.timestamp in
    let h = value_or (lookup k uptime.hourly_statistics) no_statistics in
    record {
      hourly_statistics = clean_up now (insert k (count_result r h) uptime.hourly_statistics);
    }
