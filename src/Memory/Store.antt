-- ===== src/Memory/Store.antt =====
-- Store of app/storage/store/memory/memory.go: every operation of the store, on the two caches that
-- it holds. The lock of the store makes each operation one step.
pub mod Insertion
pub mod Rounds
pub mod Deletion
use ecs_gatus_app.Base.{
  ℕ, suc, ◌+◌, ◌-◌, ◌/◌, ◌⊎◌, inl, inr, Bool, true, false, ◌&&◌, Option, none, some, List, [], ◌∷◌,
  ◌++◌, map, if◌then◌else◌, any, value_or, leb, ◌==◌,
}
use ecs_gatus_app.Base.Int.{ℤ, pos, eqb_ℤ}
use ecs_gatus_app.Base.Text.{Text, text_eq, text_lt}
use ecs_gatus_app.Base.Time.{Time, hour, after}
use ecs_gatus_app.Base.Outcome.{Outcome, ok, err}
use ecs_gatus_app.Base.Eq.{text_key, int_key}
use ecs_gatus_app.Base.Assoc.{lookup, insert, member}
use ecs_gatus_app.Endpoint.{
  Endpoint, Result, Status, HourlyUptimeStatistics, event_start, new_status, new_uptime, key,
}
use ecs_gatus_app.Suite.{Suite, SuiteResult, SuiteStatus, suite_key, new_suite_status}
use ecs_gatus_app.Key.{convert_group_and_name_to_key}
use ecs_gatus_app.Memory.Cache.{Cache}
use ecs_gatus_app.Memory.Paging.{EndpointStatusParams, SuiteStatusParams, page_of}
use ecs_gatus_app.Memory.HourlyStats.{u64, hourly_unix_timestamp}
use ecs_gatus_app.Memory.History.{trim_to, add_result}

pub data StoreError : Type 0 where
  err_endpoint_not_found : StoreError
  err_suite_not_found : StoreError
  err_invalid_time_range : StoreError

-- `params == nil`, or every field is 0.
abbrev is_unpaged : EndpointStatusParams → Bool
is_unpaged p =
    eqb_ℤ p.results_page (pos 0)
    && eqb_ℤ p.results_page_size (pos 0)
    && eqb_ℤ p.events_page (pos 0)
    && eqb_ℤ p.events_page_size (pos 0)

paged_status : Status → EndpointStatusParams → Status
paged_status ss p =
    let copy = record ss { uptime = new_uptime } in
    if is_unpaged p then copy else record copy {
      results = page_of ss.results p.results_page p.results_page_size;
      events = page_of ss.events p.events_page p.events_page_size;
    }

unfoldable pub shallow_copy_endpoint_status : Status → Option EndpointStatusParams → Status
unfolding paged_status
shallow_copy_endpoint_status ss none = record ss { uptime = new_uptime }
shallow_copy_endpoint_status ss (some p) = paged_status ss p

unfoldable pub shallow_copy_suite_status : SuiteStatus → Option SuiteStatusParams → SuiteStatus
shallow_copy_suite_status ss none = ss
shallow_copy_suite_status ss (some p) =
    if eqb_ℤ p.page (pos 0) && eqb_ℤ p.page_size (pos 0)
    then ss
    else record ss { results = page_of ss.results p.page p.page_size }

-- One round: an hour with no statistics, or with no execution, is passed over.
unfoldable pub visit_hour {ℓ} :
    {S : Type ℓ}
    → List (ℤ × HourlyUptimeStatistics)
    → (ℤ → HourlyUptimeStatistics → S → S)
    → ℤ
    → S
    → S
visit_hour stats body k s = elim (lookup k stats) [
  | none ↦ s
  | some h ↦ if h.total_executions == 0 then s else body k h s
]

-- sort.Slice by a text: the order of equal keys is not fixed there, and keys are distinct here.
unfoldable pub insert_by {ℓ} : {A : Type ℓ} → (A → Text) → A → List A → List A
insert_by f a [] = a ∷ []
insert_by f a (b ∷ bs) = if text_lt (f b) (f a) then b ∷ insert_by f a bs else a ∷ b ∷ bs

unfoldable pub sort_by {ℓ} : {A : Type ℓ} → (A → Text) → List A → List A
unfolding insert_by
sort_by f [] = []
sort_by f (a ∷ rest) = insert_by f a (sort_by f rest)

-- int and float64 arithmetic on quotients: there are no floats here, so they are a parameter.
pub record Floats : Type 1 where
  pub Float : Type 0
  pub zero_float : Float
  -- float64(a) / float64(b), for uint64 a and b with b not 0.
  pub divide : ℕ → ℕ → Float
  -- int(f).
  pub to_int : Float → ℤ

-- The loops of the three queries over a time range: each hour from `current` up to `to`, by the
-- statistics that there are for it. `fuel` bounds the rounds.
unfoldable pub each_hour {ℓ} :
    {S : Type ℓ}
    → ℕ
    → List (ℤ × HourlyUptimeStatistics)
    → Time
    → (ℤ → HourlyUptimeStatistics → S → S)
    → Time
    → S
    → S
each_hour ℕ.zero stats to body current s = s
each_hour (suc fuel) stats to body current s =
    let rest =
      each_hour fuel stats to body (current + hour)
        (visit_hour stats body (hourly_unix_timestamp current) s) in
    if leb current to then rest else s

-- Enough rounds for a range of hours.
abbrev pub rounds : Time → Time → ℕ
rounds from to = (to - from) / hour + 1

abbrev sum_successes : ℤ → HourlyUptimeStatistics → ℕ × ℕ → ℕ × ℕ
sum_successes k h (successful, total) =
    (u64 (successful + h.successful_executions), u64 (total + h.total_executions))

abbrev sum_response_times : ℤ → HourlyUptimeStatistics → ℕ × ℕ → ℕ × ℕ
sum_response_times k h (total, response_time) =
    (u64 (total + h.total_executions), u64 (response_time + h.total_executions_response_time))

-- The keys of a cache that are not among the given ones.
keys_to_delete {ℓ} : {V : Type ℓ} → List Text → List (Text × V) → List Text
keys_to_delete keep [] = []
keys_to_delete keep ((k, v) ∷ m) =
    let rest = keys_to_delete keep m in if member k keep then rest else k ∷ rest

-- The Go type Store, over two caches.
module _ (E : Cache Status) (S : Cache SuiteStatus) where
  pub record Store : Type 0 where
    pub endpoint_cache : E.State
    pub suite_cache : S.State
    pub maximum_number_of_results : ℕ
    pub maximum_number_of_events : ℕ

  unfoldable pub new_store : ℕ → ℕ → Store
  new_store max_results max_events = record {
    endpoint_cache = E.new_cache;
    suite_cache = S.new_cache;
    maximum_number_of_results = max_results;
    maximum_number_of_events = max_events;
  }

  unfoldable pub get_all_endpoint_statuses : Option EndpointStatusParams → Store → List Status
  get_all_endpoint_statuses params s =
      sort_by (λ (st : Status). st.key)
        (map (λ (e : Text × Status). shallow_copy_endpoint_status e.1 params)
          (E.get_all s.endpoint_cache))

  unfoldable pub get_all_suite_statuses : Option SuiteStatusParams → Store → List SuiteStatus
  get_all_suite_statuses params s =
      sort_by (λ (st : SuiteStatus). st.key)
        (map (λ (e : Text × SuiteStatus). shallow_copy_suite_status e.1 params)
          (S.get_all s.suite_cache))

  unfoldable pub get_endpoint_status_by_key :
      Text → Option EndpointStatusParams → Store → Outcome StoreError Status
  get_endpoint_status_by_key k params s = elim (E.get k s.endpoint_cache) [
    | none ↦ err err_endpoint_not_found
    | some st ↦ ok (shallow_copy_endpoint_status st params)
  ]

  unfoldable pub get_endpoint_status :
      Text → Text → Option EndpointStatusParams → Store → Outcome StoreError Status
  unfolding get_endpoint_status_by_key
  get_endpoint_status group name params s =
      get_endpoint_status_by_key (convert_group_and_name_to_key group name) params s

  unfoldable pub get_suite_status_by_key :
      Text → Option SuiteStatusParams → Store → Outcome StoreError SuiteStatus
  get_suite_status_by_key k params s = elim (S.get k s.suite_cache) [
    | none ↦ err err_suite_not_found
    | some st ↦ ok (shallow_copy_suite_status st params)
  ]

  -- The tests that the three queries over a time range begin with. A status that the store holds
  -- has statistics: its Uptime is not nil.
  in_range {ℓ} :
      {A : Type ℓ}
      → Text
      → Time
      → Time
      → Store
      → (List (ℤ × HourlyUptimeStatistics) → A)
      → StoreError ⊎ A
  in_range k from to s f =
      if after from to then inl err_invalid_time_range else elim (E.get k s.endpoint_cache) [
        | none ↦ inl err_endpoint_not_found
        | some st ↦ inr (f st.uptime.hourly_statistics)
      ]

  module _ (F : Floats) where
    unfoldable pub get_uptime_by_key : Text → Time → Time → Store → StoreError ⊎ F.Float
    unfolding in_range
    get_uptime_by_key k from to s = in_range k from to s λ stats.
        let (successful, total) = each_hour (rounds from to) stats to sum_successes from (0, 0) in
        if total == 0 then F.zero_float else F.divide successful total

    unfoldable pub get_average_response_time_by_key : Text → Time → Time → Store → StoreError ⊎ ℤ
    unfolding in_range
    get_average_response_time_by_key k from to s = in_range k from to s λ stats.
        let (total, response_time) =
          each_hour (rounds from to) stats to sum_response_times from (0, 0) in
        if total == 0 then pos 0 else F.to_int (F.divide response_time total)

    unfoldable pub get_hourly_average_response_time_by_key :
        Text → Time → Time → Store → StoreError ⊎ List (ℤ × ℤ)
    unfolding in_range
    get_hourly_average_response_time_by_key k from to s = in_range k from to s λ stats.
        each_hour (rounds from to) stats to
          (λ hk h m.
            insert hk (F.to_int (F.divide h.total_executions_response_time h.total_executions)) m)
          from []

  -- The status that a result is added to: a new one begins with a START event.
  status_for : Time → Endpoint → Option Status → Status
  status_for now ep none =
      let st = new_status ep.group ep.name in
      record st { events = st.events ++ record { type = event_start; timestamp = now } ∷ [] }
  status_for now ep (some st) = st

  unfoldable pub insert_endpoint_result : Time → Endpoint → Result → Store → Store
  unfolding status_for
  insert_endpoint_result now ep r s =
      let k = key ep in
      let st = status_for now ep (E.get k s.endpoint_cache) in
      record s {
        endpoint_cache =
            E.set k (add_result now s.maximum_number_of_results s.maximum_number_of_events st r)
              s.endpoint_cache;
      }

  unfoldable pub insert_suite_result : Suite → SuiteResult → Store → Store
  insert_suite_result su r s =
      let k = suite_key su in
      let st = value_or (S.get k s.suite_cache) (new_suite_status su) in
      record s {
        suite_cache =
            S.set k
              (record st { results = trim_to s.maximum_number_of_results (st.results ++ r ∷ []) })
              s.suite_cache;
      }

  -- GetKeysByPattern("*", 0) is the list of all keys.
  unfoldable pub delete_all_endpoint_statuses_not_in_keys : List Text → Store → Store × ℕ
  unfolding keys_to_delete
  delete_all_endpoint_statuses_not_in_keys keep s =
      let (cache, deleted) =
        E.delete_all (keys_to_delete keep (E.get_all s.endpoint_cache)) s.endpoint_cache in
      (record s { endpoint_cache = cache }, deleted)

  unfoldable pub delete_all_suite_statuses_not_in_keys : List Text → Store → Store × ℕ
  unfolding keys_to_delete
  delete_all_suite_statuses_not_in_keys keep s =
      let (cache, deleted) =
        S.delete_all (keys_to_delete keep (S.get_all s.suite_cache)) s.suite_cache in
      (record s { suite_cache = cache }, deleted)

  unfoldable pub has_endpoint_status_newer_than : Text → Time → Store → Bool
  has_endpoint_status_newer_than k timestamp s = elim (E.get k s.endpoint_cache) [
    | none ↦ false
    | some st ↦ any (λ (r : Result). after r.timestamp timestamp) st.results
  ]

  unfoldable pub clear : Store → Store
  clear s = record s {
    endpoint_cache = E.clear s.endpoint_cache;
    suite_cache = S.clear s.suite_cache;
  }
