-- ===== src/Suite/Defaults.antt =====
-- ValidateAndSetDefaults of app/config/suite/suite.go. Where an error is returned the program does
-- not start, so what has been changed until then is not kept.
use ecs_gatus_app.Base.{
  ◌≡◌, refl, sym, subst, false, List, [], ◌∷◌, All, map, arith, Bool-cases, inl, inr, if◌then◌else◌,
}
use ecs_gatus_app.Base.Int.{ℤ, pos, eqb_ℤ, ltb_ℤ, ◌<ℤ◌}
use ecs_gatus_app.Base.Text.{Text, is_empty, text_eq_iff}
use ecs_gatus_app.Base.Eq.{text_key}
use ecs_gatus_app.Base.Assoc.{member}
use ecs_gatus_app.Base.Outcome.{Outcome, ok, err, ◌>>=◌, bind-ok, ok-injective}
use ecs_gatus_app.Client
use ecs_gatus_app.Endpoint.{Endpoint}
use ecs_gatus_app.Endpoint.Errors.{IsDistinct}
use ecs_gatus_app.Health.Defaults.{Outside, Refusal}
use ecs_gatus_app.Health
use ecs_gatus_app.Health.Defaults.Accepted.{validate_and_set_defaults_keeps_name}
use ecs_gatus_app.Suite.{Suite}

pub data SuiteError : Type 0 where
  err_suite_with_no_name : SuiteError
  err_suite_with_no_endpoints : SuiteError
  err_suite_with_duplicate_endpoint_names : Text → SuiteError
  invalid_endpoint : Text → Refusal → SuiteError
  err_suite_with_invalid_timeout : SuiteError

-- One endpoint in front of the others, unless either is refused.
with_endpoint :
    Text
    → Outcome Refusal Endpoint
    → Outcome SuiteError (List Endpoint)
    → Outcome SuiteError (List Endpoint)
with_endpoint name (err x) rest = err (invalid_endpoint name x)
with_endpoint name (ok e) (err x) = err x
with_endpoint name (ok e) (ok es) = ok (e ∷ es)

-- The loop over the endpoints, with the names that it has seen.
unfoldable pub validate_endpoints :
    Outside → Text → List Text → List Endpoint → Outcome SuiteError (List Endpoint)
unfolding with_endpoint Health.Defaults.validate_and_set_defaults
validate_endpoints out group seen [] = ok []
validate_endpoints out group seen (e ∷ es) =
    let rest = validate_endpoints out group (e.name ∷ seen) es in
    let validated = Health.Defaults.validate_and_set_defaults out (record e { group = group }) in
    if member e.name seen
    then err (err_suite_with_duplicate_endpoint_names e.name)
    else with_endpoint e.name validated rest

-- DefaultInterval is ten minutes and DefaultTimeout five.
abbrev timeout_of : Suite → ℤ
timeout_of s = if eqb_ℤ s.timeout (pos 0) then pos 300_000_000_000 else s.timeout

abbrev with_times : Suite → Outcome SuiteError Suite
with_times s =
    if ltb_ℤ (timeout_of s) (pos 0)
    then err err_suite_with_invalid_timeout
    else ok (record s {
      interval = if eqb_ℤ s.interval (pos 0) then pos 600_000_000_000 else s.interval;
      timeout = timeout_of s;
    })

unfoldable pub validate_and_set_defaults : Outside → Suite → Outcome SuiteError Suite
unfolding validate_endpoints
validate_and_set_defaults out s =
    if is_empty s.name
    then err err_suite_with_no_name
    else if Client.is_set s.endpoints
    then validate_endpoints out s.group [] s.endpoints
      >>= (λ es. with_times (record s { endpoints = es }))
    else err err_suite_with_no_endpoints

abbrev pub names : List Endpoint → List Text
names es = map (λ (e : Endpoint). e.name) es

member-sym :
    (n : Text) (seen rest : List Text)
    → All (λ m. member m (n ∷ seen) ≡ false) rest
    → (member n rest ≡ false) × All (λ m. member m seen ≡ false) rest
member-sym n seen [] h = (refl, tt)
member-sym n seen (m ∷ rest) (new, h) =
    let (apart, later) = member-sym n seen rest h in
    (ground (arith, text_eq_iff n m, text_eq_iff m n), (ground arith, later))

-- What is known of the endpoints behind some names that have been seen.
abbrev AreNew : Text → List Text → List Endpoint → Type 0
AreNew group seen es =
    All (λ n. member n seen ≡ false) (names es)
    × IsDistinct (names es)
    × All (λ (e : Endpoint). e.group ≡ group) es

with_endpoint-ok :
    (name : Text) (o : Outcome Refusal Endpoint) (rest : Outcome SuiteError (List Endpoint))
    (fs : List Endpoint)
    → with_endpoint name o rest ≡ ok fs
    → (f : Endpoint) × (gs : List Endpoint) × (o ≡ ok f) × (rest ≡ ok gs) × (fs ≡ f ∷ gs)
unfolding with_endpoint
with_endpoint-ok name (err x) rest fs h = absurd cc
with_endpoint-ok name (ok e) (err x) fs h = absurd cc
with_endpoint-ok name (ok e) (ok es) fs h =
    (e, es, refl, refl, ok-injective fs (e ∷ es) (ok fs) refl (sym h))

AreNew-cons :
    (group n : Text) (seen : List Text) (f : Endpoint) (gs : List Endpoint)
    → f.name ≡ n
    → f.group ≡ group
    → member n seen ≡ false
    → AreNew group (n ∷ seen) gs
    → AreNew group seen (f ∷ gs)
AreNew-cons group n seen f gs same grouped new (unseen, distinct, rest) =
    let (apart, later) = member-sym n seen (names gs) unseen in
    (
      (subst (λ m. member m seen ≡ false) (sym same) new, later),
      (subst (λ m. member m (names gs) ≡ false) (sym same) apart, distinct),
      (grouped, rest),
    )

validate_endpoints-AreNew :
    (out : Outside) (group : Text) (seen : List Text) (es fs : List Endpoint)
    → validate_endpoints out group seen es ≡ ok fs
    → AreNew group seen fs
unfolding validate_endpoints
validate_endpoints-AreNew out group seen [] fs h =
    subst (AreNew group seen) (ok-injective [] fs (ok []) refl h) (tt, tt, tt)
validate_endpoints-AreNew out group seen (e ∷ es) fs h = elim (Bool-cases (member e.name seen)) [
  | inl twice ↦ let ended = rw (twice, validate_endpoints) at h in absurd cc
  | inr new ↦
      let (f, gs, validated, rest, same) =
        with_endpoint-ok e.name _ _ fs (rw (new, validate_endpoints) at h) in
      let (kept_name, kept_group) =
        validate_and_set_defaults_keeps_name out (record e { group = group }) f validated in
      subst (AreNew group seen) (sym same) (
        AreNew-cons group e.name seen f gs kept_name kept_group new
          (validate_endpoints-AreNew out group (e.name ∷ seen) es gs rest))
]

timeout_of-positive : (s : Suite) → ltb_ℤ (timeout_of s) (pos 0) ≡ false → pos 0 <ℤ timeout_of s
timeout_of-positive s h = ground arith

with_times-ok :
    (s t : Suite) → with_times s ≡ ok t → (t.endpoints ≡ s.endpoints) × (pos 0 <ℤ t.timeout)
with_times-ok s t h = elim (Bool-cases (ltb_ℤ (timeout_of s) (pos 0))) [
  | inl negative ↦ let ended = rw negative at h in absurd cc
  | inr fine ↦
      subst (λ (x : Suite). (x.endpoints ≡ s.endpoints) × (pos 0 <ℤ x.timeout))
        (ok-injective _ t _ refl (rw fine at h)) (refl, timeout_of-positive s fine)
]

-- An accepted suite has a timeout above zero, endpoints with names that differ, and they are all in
-- its group.
pub validate_and_set_defaults-IsDistinct :
    (out : Outside) (s t : Suite)
    → validate_and_set_defaults out s ≡ ok t
    → IsDistinct (names t.endpoints)
      × All (λ (e : Endpoint). e.group ≡ s.group) t.endpoints
      × (pos 0 <ℤ t.timeout)
unfolding validate_and_set_defaults
validate_and_set_defaults-IsDistinct out s t h = elim (Bool-cases (is_empty s.name)) [
  | inl nameless ↦ let ended = rw (nameless, validate_and_set_defaults) at h in absurd cc
  | inr named ↦ elim (Bool-cases (Client.is_set s.endpoints)) [
    | inr empty ↦ let ended = rw (named, empty, validate_and_set_defaults) at h in absurd cc
    | inl filled ↦
        let (es, validated, timed) =
          bind-ok _ _ t (rw (named, filled, validate_and_set_defaults) at h) in
        let (unseen, distinct, grouped) =
          validate_endpoints-AreNew out s.group [] s.endpoints es validated in
        let (same, positive) = with_times-ok (record s { endpoints = es }) t timed in
        (
          subst (λ x. IsDistinct (names x)) (sym same) distinct,
          subst (All (λ (e : Endpoint). e.group ≡ s.group)) (sym same) grouped,
          positive,
        )
  ]
]
