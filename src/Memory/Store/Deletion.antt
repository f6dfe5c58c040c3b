-- ===== src/Memory/Store/Deletion.antt =====
-- What the store holds after DeleteAllEndpointStatusesNotInKeys and
-- DeleteAllSuiteStatusesNotInKeys.
use ecs_gatus_app.Base.{
  ◌≡◌, refl, sym, ap, ◌∙◌, Bool, true, false, Bool-cases, inl, inr, Option, none, some, List, [],
  ◌∷◌, if◌then◌else◌, arith,
}
use ecs_gatus_app.Base.Text.{Text, text_eq, text_eq_iff}
use ecs_gatus_app.Base.Eq.{text_key}
use ecs_gatus_app.Base.Assoc.{lookup, member}
use ecs_gatus_app.Base.Outcome.{Outcome, ok, err}
use ecs_gatus_app.Endpoint.{Status}
use ecs_gatus_app.Suite.{SuiteStatus}
use ecs_gatus_app.Memory.Cache.{Cache}
use ecs_gatus_app.Memory.Paging.{EndpointStatusParams, SuiteStatusParams}
use ecs_gatus_app.Memory.Store.{
  Store, StoreError, err_endpoint_not_found, err_suite_not_found, keys_to_delete,
  shallow_copy_endpoint_status, shallow_copy_suite_status, get_endpoint_status_by_key,
  get_suite_status_by_key, delete_all_endpoint_statuses_not_in_keys,
  delete_all_suite_statuses_not_in_keys,
}

-- A key that is kept is not among those deleted.
kept_not_deleted :
    {V : Type 0} (keep : List Text) (k : Text) (m : List (Text × V))
    → member k keep ≡ true
    → member k (keys_to_delete keep m) ≡ false
unfolding keys_to_delete
kept_not_deleted keep k [] h = refl
kept_not_deleted keep k ((j, v) ∷ m) h =
    let ih : member k (keys_to_delete keep m) ≡ false = kept_not_deleted keep k m h in
    elim (Bool-cases (text_eq j k)) [
      | inl same ↦ let e : j ≡ k = (text_eq_iff j k).0 same in rw (e, h) ih
      | inr apart ↦ ground (arith, ih, apart)
    ]

-- A key is kept, or it is deleted, or it was not bound.
lookup-keys_to_delete :
    {V : Type 0} (keep : List Text) (k : Text) (m : List (Text × V))
    → (if member k (keys_to_delete keep m) then none else lookup k m)
      ≡ (if member k keep then lookup k m else none)
unfolding keys_to_delete lookup
lookup-keys_to_delete keep k [] = ground arith
lookup-keys_to_delete keep k ((j, v) ∷ m) = elim (Bool-cases (member k keep)) [
  | inl kept ↦ let out = kept_not_deleted keep k ((j, v) ∷ m) kept in rw (kept, out) refl
  | inr gone ↦
      let ih = lookup-keys_to_delete keep k m in
      elim (Bool-cases (text_eq j k)) [
        | inl same ↦
            let e : j ≡ k = (text_eq_iff j k).0 same in
            let self : text_eq k k ≡ true = (text_eq_iff k k).1 refl in rw (e, gone, self) refl
        | inr apart ↦ ground (arith, ih, apart, gone)
      ]
]

if-ap :
    {A B : Type 0} (f : A → B) (b : Bool) (x y : A)
    → f (if b then x else y) ≡ (if b then f x else f y)
if-ap f true x y = refl
if-ap f false x y = refl

abbrev endpoint_answer : Option EndpointStatusParams → Option Status → Outcome StoreError Status
endpoint_answer p o = elim o [
  | none ↦ err err_endpoint_not_found
  | some st ↦ ok (shallow_copy_endpoint_status st p)
]

abbrev suite_answer : Option SuiteStatusParams → Option SuiteStatus → Outcome StoreError SuiteStatus
suite_answer p o = elim o [
  | none ↦ err err_suite_not_found
  | some st ↦ ok (shallow_copy_suite_status st p)
]

module _ (E : Cache Status) (S : Cache SuiteStatus) where
  get_endpoints_left :
      (keep : List Text) (k : Text) (s : Store E S)
      → E.get k (delete_all_endpoint_statuses_not_in_keys E S keep s).0.endpoint_cache
        ≡ (if member k keep then E.get k s.endpoint_cache else none)
  unfolding delete_all_endpoint_statuses_not_in_keys
  get_endpoints_left keep k s =
      E.get_delete_all (keys_to_delete keep (E.get_all s.endpoint_cache)) k s.endpoint_cache
      ∙ ap (λ o. if member k (keys_to_delete keep (E.get_all s.endpoint_cache)) then none else o)
          (sym (E.lookup_get_all k s.endpoint_cache))
      ∙ lookup-keys_to_delete keep k (E.get_all s.endpoint_cache)
      ∙ ap (λ o. if member k keep then o else none) (E.lookup_get_all k s.endpoint_cache)

  get_suites_left :
      (keep : List Text) (k : Text) (s : Store E S)
      → S.get k (delete_all_suite_statuses_not_in_keys E S keep s).0.suite_cache
        ≡ (if member k keep then S.get k s.suite_cache else none)
  unfolding delete_all_suite_statuses_not_in_keys
  get_suites_left keep k s =
      S.get_delete_all (keys_to_delete keep (S.get_all s.suite_cache)) k s.suite_cache
      ∙ ap (λ o. if member k (keys_to_delete keep (S.get_all s.suite_cache)) then none else o)
          (sym (S.lookup_get_all k s.suite_cache))
      ∙ lookup-keys_to_delete keep k (S.get_all s.suite_cache)
      ∙ ap (λ o. if member k keep then o else none) (S.lookup_get_all k s.suite_cache)

  -- After DeleteAllEndpointStatusesNotInKeys, GetEndpointStatusByKey answers as before for a key that
  -- is among the given ones, and with an error for any other key; GetSuiteStatusByKey answers as
  -- before for every key.
  pub get-delete_all_endpoint_statuses_not_in_keys :
      (keep : List Text) (k : Text) (p : Option EndpointStatusParams) (q : Option SuiteStatusParams)
      (s : Store E S)
      → (get_endpoint_status_by_key E S k p (delete_all_endpoint_statuses_not_in_keys E S keep s).0
          ≡ (if member k keep
              then get_endpoint_status_by_key E S k p s
              else err err_endpoint_not_found))
        × (get_suite_status_by_key E S k q (delete_all_endpoint_statuses_not_in_keys E S keep s).0
            ≡ get_suite_status_by_key E S k q s)
  unfolding get_endpoint_status_by_key get_suite_status_by_key
      delete_all_endpoint_statuses_not_in_keys
  get-delete_all_endpoint_statuses_not_in_keys keep k p q s = (
    ap (endpoint_answer p) (get_endpoints_left keep k s)
        ∙ if-ap (endpoint_answer p) (member k keep) (E.get k s.endpoint_cache) none,
    refl,
  )

  -- The same for DeleteAllSuiteStatusesNotInKeys, with suites and endpoints exchanged.
  pub get-delete_all_suite_statuses_not_in_keys :
      (keep : List Text) (k : Text) (p : Option EndpointStatusParams) (q : Option SuiteStatusParams)
      (s : Store E S)
      → (get_suite_status_by_key E S k q (delete_all_suite_statuses_not_in_keys E S keep s).0
          ≡ (if member k keep then get_suite_status_by_key E S k q s else err err_suite_not_found))
        × (get_endpoint_status_by_key E S k p (delete_all_suite_statuses_not_in_keys E S keep s).0
            ≡ get_endpoint_status_by_key E S k p s)
  unfolding get_endpoint_status_by_key get_suite_status_by_key delete_all_suite_statuses_not_in_keys
  get-delete_all_suite_statuses_not_in_keys keep k p q s = (
    ap (suite_answer q) (get_suites_left keep k s)
        ∙ if-ap (suite_answer q) (member k keep) (S.get k s.suite_cache) none,
    refl,
  )
