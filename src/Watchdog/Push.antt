-- ===== src/Watchdog/Push.antt =====
-- CreateExternalEndpointResult of app/api/external_endpoint.go, and the search for the external
-- endpoint in app/config/config.go. A request is its query parameters, its Authorization header and
-- its key; the external endpoints are a list, changed in place.
pub mod Authorized
use ecs_gatus_app.Base.{
  ℕ, Bool, true, false, not, ◌&&◌, ◌||◌, Option, none, some, List, [], ◌∷◌, ◌++◌, map,
  if◌then◌else◌,
}
use ecs_gatus_app.Base.Int.{ℤ}
use ecs_gatus_app.Base.Text.{
  Text, codes, text_eq, has_prefix, trim_prefix, trim_space, to_lower, is_empty,
}
use ecs_gatus_app.Base.Time.{Time}
use ecs_gatus_app.Base.Outcome.{Outcome, ok, err}
use ecs_gatus_app.Endpoint.{
  ExternalEndpoint, Result, zero_result, add_error, to_endpoint, external_key,
}
use ecs_gatus_app.Watchdog.Checks.{
  Config, Readings, Action, inserted, published, alerted, handle_external_alerting,
}

pub record Request : Type 0 where
  -- c.Queries()["success"], and c.QueryBool("success"): where the parameter is repeated they need not
  -- read the same one of its values.
  pub success : Option Text
  pub success_flag : Bool
  pub authorization : Text
  pub key : Text
  -- Empty where the query parameter is absent.
  pub duration : Text
  pub error : Text

pub record Response : Type 0 where
  pub status : ℕ
  pub body : Text

-- What InsertEndpointResult of the store returns.
pub data Insertion : Type 0 where
  stored : Insertion
  endpoint_not_found : Text → Insertion
  not_stored : Text → Insertion

-- What one request reads of the clock and the store. `parse_duration` is time.ParseDuration.
pub record Handling : Type 0 where
  pub now : Time
  pub parse_duration : Text → Outcome Text ℤ
  pub insertion : Insertion
  pub readings : Readings

unfoldable pub get_external_endpoint_by_key : Text → List ExternalEndpoint → Option ExternalEndpoint
get_external_endpoint_by_key k [] = none
get_external_endpoint_by_key k (ee ∷ ees) =
    if text_eq (external_key ee) (to_lower k) then some ee else get_external_endpoint_by_key k ees

-- A write through the pointer that GetExternalEndpointByKey returned.
unfoldable pub replace_by_key :
    Text → ExternalEndpoint → List ExternalEndpoint → List ExternalEndpoint
replace_by_key k new [] = []
replace_by_key k new (ee ∷ ees) =
    if text_eq (external_key ee) (to_lower k) then new ∷ ees else ee ∷ replace_by_key k new ees

abbrev pub bearer : Text
bearer = codes "Bearer "

-- The tests before the configuration is looked at: the token, or the response that refuses.
unfoldable pub read_token : Request → Outcome Response Text
read_token q =
    let success : Bool = elim q.success [
      | none ↦ false
      | some s ↦ text_eq s (codes "true") || text_eq s (codes "false")
    ] in
    let token = trim_space (trim_prefix q.authorization bearer) in
    if not success
    then err (record { status = 400; body = codes "missing or invalid success query parameter" })
    else if not (has_prefix q.authorization bearer)
    then err (record { status = 401; body = codes "invalid Authorization header" })
    else if is_empty token
    then err (record { status = 401; body = codes "bearer token must not be empty" })
    else ok token

-- The tests on the external endpoint that was searched for.
permit : Outcome Response Text → Option ExternalEndpoint → Outcome Response ExternalEndpoint
permit (err e) o = err e
permit (ok token) none = err (record { status = 404; body = codes "not found" })
permit (ok token) (some ee) =
    if not (text_eq ee.token token)
    then err (record { status = 401; body = codes "invalid token" })
    else ok ee

-- The external endpoint that a request may push to, or the response that refuses.
unfoldable pub authorize : Request → List ExternalEndpoint → Outcome Response ExternalEndpoint
unfolding read_token get_external_endpoint_by_key permit
authorize q ees = permit (read_token q) (get_external_endpoint_by_key q.key ees)

-- The result of a request that is allowed, or the response to a duration that is none.
unfoldable pub result_of : Handling → Request → Outcome Response Result
result_of h q =
    let success = q.success_flag in
    let r = record zero_result { timestamp = h.now; success = success; errors = [] } in
    let with_error =
      λ (x : Result). if not success && not (is_empty q.error) then add_error x q.error else x in
    if is_empty q.duration then ok (with_error r) else elim (h.parse_duration q.duration) [
      | err e ↦ err (record { status = 400; body = codes "invalid duration: " ++ e })
      | ok d ↦ ok (with_error (record r { duration = d }))
    ]

abbrev pub Handled : Type 0
Handled = Response × List ExternalEndpoint × List Action

-- The store, the alerting and the metrics, for the endpoint found and its result. The metrics get the
-- converted endpoint after the alerting; it is recorded as it was before, with the same labels.
unfoldable pub take_in :
    Handling → Config → Request → List ExternalEndpoint → ExternalEndpoint → Result → Handled
unfolding replace_by_key
take_in h cfg q ees ee r =
    let (next, effects) = handle_external_alerting h.readings cfg r ee in
    elim h.insertion [
      | endpoint_not_found e ↦
          (record { status = 404; body = e }, ees, inserted (to_endpoint ee) r ∷ [])
      | not_stored e ↦ (record { status = 500; body = e }, ees, inserted (to_endpoint ee) r ∷ [])
      | stored ↦ (
        record { status = 200; body = [] },
        replace_by_key q.key next ees,
        (inserted (to_endpoint ee) r ∷ map alerted effects)
            ++ (if cfg.metrics then published (to_endpoint ee) r ∷ [] else []),
      )
    ]

unfoldable pub create_external_endpoint_result :
    Handling → Config → Request → List ExternalEndpoint → Handled
unfolding authorize result_of take_in
create_external_endpoint_result h cfg q ees = elim (authorize q ees) [
  | err e ↦ (e, ees, [])
  | ok ee ↦ elim (result_of h q) [ err e ↦ (e, ees, []) | ok r ↦ take_in h cfg q ees ee r ]
]
