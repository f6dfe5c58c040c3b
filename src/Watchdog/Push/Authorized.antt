-- ===== src/Watchdog/Push/Authorized.antt =====
-- What a request to push a result may lead to.
use ecs_gatus_app.Base.{
  ◌≡◌, ◌∙◌, ℕ, refl, ap, subst, true, false, ◌⊎◌, inl, inr, Option, none, some, List, [], ◌∷◌,
  arith, Bool-cases, Option-cases,
}
use ecs_gatus_app.Base.Text.{
  Text, codes, text_eq, text_eq_iff, has_prefix, trim_prefix, trim_space, to_lower, is_empty,
}
use ecs_gatus_app.Base.Outcome.{Outcome, ok, err, Outcome-cases}
use ecs_gatus_app.Endpoint.{ExternalEndpoint, Result, external_key, add_error}
use ecs_gatus_app.Watchdog.Checks.{Config}
use ecs_gatus_app.Watchdog.Push.{
  Request, Response, Handling, Handled, bearer, get_external_endpoint_by_key, read_token, permit,
  authorize, result_of, take_in, create_external_endpoint_result,
}

-- The request names the endpoint by its key, and carries its token.
pub record IsAuthorized (q : Request) (ee : ExternalEndpoint) : Type 0 where
  pub for_key : external_key ee ≡ to_lower q.key
  pub with_token : ee.token ≡ trim_space (trim_prefix q.authorization bearer)
  pub as_bearer : has_prefix q.authorization bearer ≡ true
  pub not_empty : is_empty ee.token ≡ false

found_by_key :
    (k : Text) (ees : List ExternalEndpoint) (ee : ExternalEndpoint)
    → get_external_endpoint_by_key k ees ≡ some ee
    → external_key ee ≡ to_lower k
unfolding get_external_endpoint_by_key
found_by_key k [] ee h = ground arith
found_by_key k (x ∷ ees) ee h =
    ground (arith, text_eq_iff (external_key x) (to_lower k), found_by_key k ees ee)

read_token_lem :
    (q : Request) (token : Text)
    → read_token q ≡ ok token
    → (token ≡ trim_space (trim_prefix q.authorization bearer))
      × (has_prefix q.authorization bearer ≡ true)
      × (is_empty token ≡ false)
unfolding read_token
read_token_lem q token h = ground arith

success_given :
    (q : Request) (token : Text)
    → read_token q ≡ ok token
    → (q.success ≡ some (codes "true")) ⊎ (q.success ≡ some (codes "false"))
unfolding read_token
success_given q token h = elim (Option-cases q.success) [
  | inl absent ↦ let refused = rw (absent, read_token) at h in absurd cc
  | inr (s, there) ↦ elim (Bool-cases (text_eq s (codes "true"))) [
    | inl says_true ↦ inl (there ∙ ap some ((text_eq_iff s (codes "true")).0 says_true))
    | inr other ↦ elim (Bool-cases (text_eq s (codes "false"))) [
      | inl says_false ↦ inr (there ∙ ap some ((text_eq_iff s (codes "false")).0 says_false))
      | inr neither ↦ let refused = rw (there, other, neither, read_token) at h in absurd cc
    ]
  ]
]

permit_lem :
    (t : Outcome Response Text) (o : Option ExternalEndpoint) (ee : ExternalEndpoint)
    → permit t o ≡ ok ee
    → (t ≡ ok ee.token) × (o ≡ some ee)
unfolding permit
permit_lem (err e) o ee h = ground arith
permit_lem (ok token) none ee h = ground arith
permit_lem (ok token) (some x) ee h = ground (arith, text_eq_iff x.token token)

authorize-IsAuthorized :
    (q : Request) (ees : List ExternalEndpoint) (ee : ExternalEndpoint)
    → authorize q ees ≡ ok ee
    → (get_external_endpoint_by_key q.key ees ≡ some ee)
      × IsAuthorized q ee
      × ((q.success ≡ some (codes "true")) ⊎ (q.success ≡ some (codes "false")))
unfolding authorize
authorize-IsAuthorized q ees ee h =
    let both = permit_lem (read_token q) (get_external_endpoint_by_key q.key ees) ee h in
    let (trimmed, prefixed, present) = read_token_lem q ee.token both.0 in
    (
      both.1,
      record {
        for_key = found_by_key q.key ees ee both.1;
        with_token = trimmed;
        as_bearer = prefixed;
        not_empty = present;
      },
      success_given q ee.token both.0,
    )

abbrev Refused : ℕ → Type 0
Refused n = (n ≡ 400) ⊎ (n ≡ 401) ⊎ (n ≡ 404)

permit-Refused :
    (t : Outcome Response Text) (o : Option ExternalEndpoint) (e : Response)
    → ((x : Response) → t ≡ err x → Refused x.status)
    → permit t o ≡ err e
    → Refused e.status
unfolding permit
permit-Refused (err x) o e w h =
    let same : x ≡ e = ground arith in subst (λ (y : Response). Refused y.status) same (w x refl)
permit-Refused (ok token) none e w h = ground arith
permit-Refused (ok token) (some x) e w h = ground arith

read_token-Refused : (q : Request) (e : Response) → read_token q ≡ err e → Refused e.status
unfolding read_token
read_token-Refused q e h = ground arith

result_of-Refused :
    (h : Handling) (q : Request) (e : Response) → result_of h q ≡ err e → Refused e.status
unfolding result_of
result_of-Refused h q e w = ground arith

success-result_of :
    (h : Handling) (q : Request) (r : Result) → result_of h q ≡ ok r → r.success ≡ q.success_flag
unfolding result_of add_error
success-result_of h q r w = ground arith

-- What a request may lead to: a refusal, which changes nothing; or the endpoint that it is
-- authorized for takes in a result.
abbrev pub Outcomes : Handling → Config → Request → List ExternalEndpoint → Handled → Type 0
Outcomes h cfg q ees out =
    ((out.1 ≡ ees) × (out.2 ≡ []) × Refused out.0.status)
    ⊎ ((ee : ExternalEndpoint) × (r : Result) × (get_external_endpoint_by_key q.key ees ≡ some ee)
        × IsAuthorized q ee
        × ((q.success ≡ some (codes "true")) ⊎ (q.success ≡ some (codes "false")))
        × (r.success ≡ q.success_flag)
        × (out ≡ take_in h cfg q ees ee r))

-- A request to push a result is either refused with status 400, 401 or 404, and then no external
-- endpoint changes and nothing is inserted, published or sent; or its Authorization header is a
-- bearer token, not empty, that is the token of the first external endpoint with the request's key,
-- and that endpoint takes in a result whose success is what QueryBool reads of the parameter
-- "success", while Queries has read "true" or "false" there.
pub create_external_endpoint_result-Outcomes :
    (h : Handling) (cfg : Config) (q : Request) (ees : List ExternalEndpoint)
    → Outcomes h cfg q ees (create_external_endpoint_result h cfg q ees)
unfolding create_external_endpoint_result authorize
create_external_endpoint_result-Outcomes h cfg q ees = elim (Outcome-cases (authorize q ees)) [
  | inr (e, refused) ↦
      rw (refused, create_external_endpoint_result)
        (inl (
          refl,
          refl,
          permit-Refused (read_token q) (get_external_endpoint_by_key q.key ees) e
              (λ x. read_token-Refused q x) refused,
        ))
  | inl (ee, allowed) ↦ elim (Outcome-cases (result_of h q)) [
    | inr (e, refused) ↦
        rw (allowed, refused, create_external_endpoint_result)
          (inl (refl, refl, result_of-Refused h q e refused))
    | inl (r, good) ↦
        let (found, authorized, given) = authorize-IsAuthorized q ees ee allowed in
        rw (allowed, good, create_external_endpoint_result)
          (inr (ee, r, found, authorized, given, success-result_of h q r good, refl))
  ]
]
