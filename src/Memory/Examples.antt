-- ===== src/Memory/Examples.antt =====
-- A store of at most two results of each endpoint, over association lists.
use ecs_gatus_app.Base.{
  ℕ, ◌≡◌, ◌≤◌, ◌*◌, ◌-◌, refl, Bool, true, false, none, List, [], ◌∷◌, arith, drop, length,
  if◌then◌else◌,
}
use ecs_gatus_app.Base.Int.{pos}
use ecs_gatus_app.Base.Text.{Text, codes}
use ecs_gatus_app.Base.Time.{Time}
use ecs_gatus_app.Base.Eq.{text_key}
use ecs_gatus_app.Base.Assoc.{member}
use ecs_gatus_app.Base.Outcome.{err}
use ecs_gatus_app.Endpoint.{Endpoint, Result, Status, event_start, zero_result, new_status}
use ecs_gatus_app.Suite.{SuiteStatus}
use ecs_gatus_app.Memory.Cache.{Cache, list_cache}
use ecs_gatus_app.Memory.HourlyStats.Counting.{
  Adds, executions, successes, response_times, process_all, statistics_of,
  statistics_of-process_all,
}
use ecs_gatus_app.Memory.Paging.{get_start_and_end_index}
use ecs_gatus_app.Memory.Paging.Bounds.{IsSliceable, get_start_and_end_index-IsSliceable}
use ecs_gatus_app.Memory.Paging.Partition.{pages_down, pages_down-drop}
use ecs_gatus_app.Memory.Store.{
  Store, err_endpoint_not_found, new_store, get_endpoint_status_by_key, get_suite_status_by_key,
  delete_all_endpoint_statuses_not_in_keys,
}
use ecs_gatus_app.Memory.Store.Insertion.{
  Insertion, Answers, inserted_for, insert_all, get_endpoint_status_by_key-insert_all,
}
use ecs_gatus_app.Memory.Store.{each_hour, rounds}
use ecs_gatus_app.Memory.Store.Rounds.{instants, visit_all, each_hour-rounds}
use ecs_gatus_app.Base.{◌+◌, ◌<◌}
use ecs_gatus_app.Base.Int.{ℤ}
use ecs_gatus_app.Base.Time.{hour}
use ecs_gatus_app.Endpoint.{HourlyUptimeStatistics}
use ecs_gatus_app.Memory.Store.Deletion.{get-delete_all_endpoint_statuses_not_in_keys}

abbrev web : Endpoint
web = record {
  enabled = none;
  name = codes "web";
  group = codes "core";
  url = codes "https://example.org";
  method = [];
  body = [];
  graph_ql = false;
  headers = [];
  interval = pos 0;
  conditions = [];
  dns_config = none;
  ssh_config = none;
  client_config = none;
  ui_config = none;
  alerts = [];
  maintenance_windows = [];
  number_of_failures_in_a_row = 0;
  number_of_successes_in_a_row = 0;
  last_reminder_sent = 0;
  store = [];
  always_run = false;
}

-- Noon of a day in 2024, in nanoseconds.
abbrev noon : Time
noon = 63_850_161_600_000_000_000

abbrev result : Bool → Result
result good = record zero_result { timestamp = noon; success = good; duration = pos 25_000_000 }

abbrev history : List (Time × Result)
history = (noon, result true) ∷ (noon, result false) ∷ (noon, result false) ∷ []

abbrev insertions : List Insertion
insertions =
    record { now = noon; endpoint = web; result = result true }
    ∷ record { now = noon; endpoint = web; result = result false }
    ∷ record { now = noon; endpoint = web; result = result true }
    ∷ []

abbrev E : Cache Status
E = list_cache Status

abbrev S : Cache SuiteStatus
S = list_cache SuiteStatus

abbrev small_store : Store E S
small_store = insert_all E S (new_store E S 2 3) insertions

abbrev web_key : Text
web_key = codes "core_web"

get_endpoint_status_by_key-insert_all_example :
    Answers E S 2 3
      (inserted_for web_key insertions)
      (get_endpoint_status_by_key E S web_key none small_store)
get_endpoint_status_by_key-insert_all_example =
    get_endpoint_status_by_key-insert_all E S 1 3 web_key insertions (omega arith)

get-delete_all_endpoint_statuses_not_in_keys_example :
    (get_endpoint_status_by_key E S web_key none
        (delete_all_endpoint_statuses_not_in_keys E S (codes "core_db" ∷ []) small_store).0
      ≡ (if member web_key (codes "core_db" ∷ [])
          then get_endpoint_status_by_key E S web_key none small_store
          else err err_endpoint_not_found))
    × (get_suite_status_by_key E S web_key none
          (delete_all_endpoint_statuses_not_in_keys E S (codes "core_db" ∷ []) small_store).0
        ≡ get_suite_status_by_key E S web_key none small_store)
get-delete_all_endpoint_statuses_not_in_keys_example =
    get-delete_all_endpoint_statuses_not_in_keys E S (codes "core_db" ∷ []) web_key none none
      small_store

-- A status with its START event, and no result yet.
abbrev started : Status
started = record (new_status (codes "core") (codes "web")) {
  results = [];
  events = record { type = event_start; timestamp = noon } ∷ [];
}

statistics_of-process_all_example :
    Adds
      (statistics_of (pos 1_714_564_800) (process_all (record { hourly_statistics = [] }) history))
      (statistics_of (pos 1_714_564_800) (record { hourly_statistics = [] }))
      (executions (pos 1_714_564_800) history)
      (successes (pos 1_714_564_800) history)
      (response_times (pos 1_714_564_800) history)
statistics_of-process_all_example =
    statistics_of-process_all (pos 1_714_564_800) (record { hourly_statistics = [] }) history
      (refl, (refl, (refl, tt)))

get_start_and_end_index-IsSliceable_example :
    IsSliceable 25 (get_start_and_end_index 25 (pos 3) (pos 10))
get_start_and_end_index-IsSliceable_example =
    get_start_and_end_index-IsSliceable 25 (pos 3) (pos 10) (omega arith) (omega arith)
      (omega arith)

abbrev five_results : List ℕ
five_results = 1 ∷ 2 ∷ 3 ∷ 4 ∷ 5 ∷ []

pages_down-drop_example :
    pages_down five_results 2 2 ≡ drop (length five_results - 2 * 2) five_results
pages_down-drop_example = pages_down-drop five_results 2 2 (omega arith) (omega arith) (omega arith)

-- The statistics after the history, and a query that begins fifty minutes before noon.
abbrev statistics : List (ℤ × HourlyUptimeStatistics)
statistics = (process_all (record { hourly_statistics = [] }) history).hourly_statistics

abbrev count_executions : ℤ → HourlyUptimeStatistics → ℕ → ℕ
count_executions k h n = n + h.total_executions

each_hour-rounds_example :
    (each_hour
        (rounds (noon - 3_000_000_000_000) noon)
        statistics
        noon
        count_executions
        (noon - 3_000_000_000_000)
        0
      ≡ visit_all statistics count_executions
          (instants (rounds (noon - 3_000_000_000_000) noon) (noon - 3_000_000_000_000))
          0)
    × (each_hour
          (rounds (noon - 3_000_000_000_000) noon + 7)
          statistics
          noon
          count_executions
          (noon - 3_000_000_000_000)
          0
        ≡ each_hour
            (rounds (noon - 3_000_000_000_000) noon)
            statistics
            noon
            count_executions
            (noon - 3_000_000_000_000)
            0)
    × (noon < noon - 3_000_000_000_000 + rounds (noon - 3_000_000_000_000) noon * hour)
    × (noon - 3_000_000_000_000 + (rounds (noon - 3_000_000_000_000) noon - 1) * hour ≤ noon)
each_hour-rounds_example =
    each_hour-rounds 7 statistics (noon - 3_000_000_000_000) noon count_executions 0 (omega arith)
