-- ===== src/Memory/History.antt =====
-- AddResult of app/storage/store/memory/util.go: a status takes a result in.
pub mod LastN
pub mod Results
pub mod Events
use ecs_gatus_app.Base.{
  ℕ, ◌-◌, Bool, true, false, Option, none, some, List, [], ◌∷◌, ◌++◌, if◌then◌else◌, length, ltb,
  drop, last?, xor,
}
use ecs_gatus_app.Base.Time.{Time}
use ecs_gatus_app.Endpoint.{Result, Event, Status, new_event_from_result}
use ecs_gatus_app.Memory.HourlyStats.{process_uptime_after_result}

-- `if len(xs) > max { xs = xs[len(xs)-max:] }`.
abbrev pub trim_to {ℓ} : {A : Type ℓ} → ℕ → List A → List A
trim_to max xs = if ltb max (length xs) then drop (length xs - max) xs else xs

-- The events, once a result that follows `last` is seen. The event of a first result is not
-- followed by a trim.
unfoldable pub add_event : ℕ → Option Result → Result → List Event → List Event
add_event max none r events = events ++ new_event_from_result r ∷ []
add_event max (some last) r events =
    if xor last.success r.success
    then trim_to max (events ++ new_event_from_result r ∷ [])
    else events

-- `now` is the time.Now() of the clean-up of the uptime.
unfoldable pub add_result : Time → ℕ → ℕ → Status → Result → Status
unfolding add_event
add_result now max_results max_events ss r = record ss {
  events = add_event max_events (last? ss.results) r ss.events;
  results = trim_to max_results (ss.results ++ r ∷ []);
  uptime = process_uptime_after_result now ss.uptime r;
}
