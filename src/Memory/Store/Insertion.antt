-- ===== src/Memory/Store/Insertion.antt =====
-- What the store returns for an endpoint after any sequence of inserted results.
use mathlib.Core.List.{append_assoc, append-nil}
use ecs_gatus_app.Base.{
  any, subst, ℕ, suc, ◌≤◌, ◌≡◌, refl, ap, sym, ◌∙◌, inl, inr, Option, none, some, List, [], ◌∷◌,
  ◌++◌, arith, if◌then◌else◌, Bool-cases,
}
use ecs_gatus_app.Base.Text.{Text, text_eq, text_eq_iff}
use ecs_gatus_app.Base.Time.{Time, after}
use ecs_gatus_app.Base.Outcome.{Outcome, ok, err}
use ecs_gatus_app.Endpoint.{Endpoint, Result, Status, event_start, new_status, new_uptime, key}
use ecs_gatus_app.Suite.{SuiteStatus}
use ecs_gatus_app.Memory.Cache.{Cache}
use ecs_gatus_app.Memory.History.{add_result}
use ecs_gatus_app.Memory.History.LastN.{last_n, last_n-all}
use ecs_gatus_app.Memory.History.Results.{add_results, results_of, results-add_results}
use ecs_gatus_app.Memory.History.Events.{changes, events-add_results}
use ecs_gatus_app.Memory.Store.{
  Store, StoreError, err_endpoint_not_found, new_store, status_for, insert_endpoint_result,
  get_endpoint_status_by_key, shallow_copy_endpoint_status, has_endpoint_status_newer_than,
}

-- A call of InsertEndpointResult.
pub record Insertion : Type 0 where
  pub now : Time
  pub endpoint : Endpoint
  pub result : Result

-- The results inserted for a key, each with its time.
abbrev pub inserted_for : Text → List Insertion → List (Time × Result)
inserted_for k [] = []
inserted_for k (i ∷ is) =
    if text_eq (key i.endpoint) k then (i.now, i.result) ∷ inserted_for k is else inserted_for k is

module _ (E : Cache Status) (S : Cache SuiteStatus) where
  pub insert_all : Store E S → List Insertion → Store E S
  insert_all s [] = s
  insert_all s (i ∷ is) = insert_all (insert_endpoint_result E S i.now i.endpoint i.result s) is

  -- What the cache holds under a key after an insertion.
  get-insert :
      (i : Insertion) (k : Text) (s : Store E S)
      → E.get k (insert_endpoint_result E S i.now i.endpoint i.result s).endpoint_cache ≡ (
          if text_eq (key i.endpoint) k
          then some (
              add_result i.now s.maximum_number_of_results s.maximum_number_of_events
                (status_for E S i.now i.endpoint (E.get (key i.endpoint) s.endpoint_cache))
                i.result)
          else E.get k s.endpoint_cache)
  unfolding insert_endpoint_result
  get-insert i k s = E.get_set (key i.endpoint) k _ s.endpoint_cache

  -- A status as InsertEndpointResult makes it for the first result of a key.
  pub record IsFresh (st : Status) : Type 0 where
    pub no_results : st.results ≡ []
    pub began : Time
    pub started : st.events ≡ record { type = event_start; timestamp = began } ∷ []

  fresh_status_lem : (now : Time) (ep : Endpoint) → IsFresh (status_for E S now ep none)
  unfolding status_for new_status
  fresh_status_lem now ep = record { no_results = refl; began = now; started = refl }

  -- What a key holds after the results h: nothing before the first one, then a fresh status that has
  -- taken them in.
  abbrev Holds : ℕ → ℕ → List (Time × Result) → Option Status → Type 0
  Holds n m [] o = o ≡ none
  Holds n m (x ∷ h) o = (st : Status) × IsFresh st × (o ≡ some (add_results n m st (x ∷ h)))

  add_results-snoc :
      (n m : ℕ) (st : Status) (h : List (Time × Result)) (now : Time) (r : Result)
      → add_results n m st (h ++ (now, r) ∷ []) ≡ add_result now n m (add_results n m st h) r
  add_results-snoc n m st [] now r = refl
  add_results-snoc n m st ((t, q) ∷ h) now r = add_results-snoc n m (add_result t n m st q) h now r

  Holds-snoc :
      (n m : ℕ) (h : List (Time × Result)) (o : Option Status) (now : Time) (ep : Endpoint)
      (r : Result)
      → Holds n m h o
      → Holds n m (h ++ (now, r) ∷ []) (some (add_result now n m (status_for E S now ep o) r))
  unfolding status_for
  Holds-snoc n m [] o now ep r e = (
    status_for E S now ep none,
    fresh_status_lem now ep,
    ap (λ p. some (add_result now n m (status_for E S now ep p) r)) e,
  )
  Holds-snoc n m ((t, q) ∷ h) o now ep r (st, fresh, e) = (
    st,
    fresh,
    ap (λ p. some (add_result now n m (status_for E S now ep p) r)) e
        ∙ ap some (sym (add_results-snoc n m (add_result t n m st q) h now r)),
  )

  Holds-get :
      (i : Insertion) (k : Text) (h : List (Time × Result)) (s : Store E S)
      → Holds s.maximum_number_of_results s.maximum_number_of_events h (E.get k s.endpoint_cache)
      → Holds s.maximum_number_of_results s.maximum_number_of_events
          (h ++ inserted_for k (i ∷ []))
          (E.get k (insert_endpoint_result E S i.now i.endpoint i.result s).endpoint_cache)
  Holds-get i k h s p =
      let n = s.maximum_number_of_results in
      let m = s.maximum_number_of_events in
      elim (Bool-cases (text_eq (key i.endpoint) k)) [
        | inl same ↦
            let e : key i.endpoint ≡ k = (text_eq_iff (key i.endpoint) k).0 same in
            rw (get-insert i k s, same, e)
              (Holds-snoc n m h (E.get k s.endpoint_cache) i.now i.endpoint i.result p)
        | inr apart ↦ rw (get-insert i k s, apart, append-nil h) p
      ]

  inserted_for-cons :
      (i : Insertion) (k : Text) (is : List Insertion) (h : List (Time × Result))
      → (h ++ inserted_for k (i ∷ [])) ++ inserted_for k is ≡ h ++ inserted_for k (i ∷ is)
  inserted_for-cons i k is h = elim (Bool-cases (text_eq (key i.endpoint) k)) [
    | inl same ↦ rw same (append_assoc h ((i.now, i.result) ∷ []) (inserted_for k is))
    | inr apart ↦ rw apart (ap (λ xs. xs ++ inserted_for k is) (append-nil h))
  ]

  insert_all-Holds :
      (k : Text) (is : List Insertion) (h : List (Time × Result)) (s : Store E S)
      → Holds s.maximum_number_of_results s.maximum_number_of_events h (E.get k s.endpoint_cache)
      → Holds s.maximum_number_of_results s.maximum_number_of_events
          (h ++ inserted_for k is)
          (E.get k (insert_all s is).endpoint_cache)
  unfolding insert_all insert_endpoint_result
  insert_all-Holds k [] h s p =
      subst
        (λ x.
          Holds s.maximum_number_of_results s.maximum_number_of_events x (E.get k s.endpoint_cache))
        (sym (append-nil h)) p
  insert_all-Holds k (i ∷ is) h s p =
      let next : Store E S = insert_endpoint_result E S i.now i.endpoint i.result s in
      subst
        (λ x.
          Holds s.maximum_number_of_results s.maximum_number_of_events x
            (E.get k (insert_all next is).endpoint_cache))
        (inserted_for-cons i k is h)
        (insert_all-Holds k is (h ++ inserted_for k (i ∷ [])) next (Holds-get i k h s p))

  -- What GetEndpointStatusByKey gives for a key, when the results h were inserted for it: an error
  -- if there were none, else a status that keeps the last n results and the last m events.
  abbrev pub Answers : ℕ → ℕ → List (Time × Result) → Outcome StoreError Status → Type 0
  Answers n m [] o = o ≡ err err_endpoint_not_found
  Answers n m (x ∷ h) o =
      (st : Status) × (o ≡ ok st)
      × (st.results ≡ last_n n (results_of (x ∷ h)))
      × ((began : Time) × (st.events
            ≡ last_n m (
                record { type = event_start; timestamp = began }
                ∷ changes none (results_of (x ∷ h)))))

  Holds-Answers :
      (n m : ℕ) (h : List (Time × Result)) (k : Text) (s : Store E S)
      → 2 ≤ m
      → Holds (suc n) m h (E.get k s.endpoint_cache)
      → Answers (suc n) m h (get_endpoint_status_by_key E S k none s)
  unfolding get_endpoint_status_by_key shallow_copy_endpoint_status
  Holds-Answers n m [] k s le e = rw (e, get_endpoint_status_by_key) refl
  Holds-Answers n m (x ∷ h) k s le (st, fresh, e) =
      rw (e, get_endpoint_status_by_key)
        (
          record (add_results (suc n) m st (x ∷ h)) { uptime = new_uptime },
          refl,
          (results-add_results (suc n) m st [] (x ∷ h)
              (fresh.no_results ∙ sym (last_n-all (suc n) [] (omega arith)))).0,
          (fresh.began, events-add_results n m st _ (x ∷ h) le fresh.no_results fresh.started),
        )

  -- After any sequence of calls of InsertEndpointResult on a new store, whatever the endpoints,
  -- GetEndpointStatusByKey without parameters gives, for each key, an error if no call was for that
  -- key; else a status with the last n results inserted for that key, in their order, and the last
  -- m of the events that these results call for after a START event. The store holds at least one
  -- result and at least two events of each.
  pub get_endpoint_status_by_key-insert_all :
      (n m : ℕ) (k : Text) (is : List Insertion)
      → 2 ≤ m
      → Answers
          (suc n)
          m
          (inserted_for k is)
          (get_endpoint_status_by_key E S k none (insert_all (new_store E S (suc n) m) is))
  unfolding new_store
  get_endpoint_status_by_key-insert_all n m k is le =
      let s : Store E S = new_store E S (suc n) m in
      Holds-Answers n m (inserted_for k is) k (insert_all s is) le
        (insert_all-Holds k is [] s (E.get_new_cache k))

  Holds-newer :
      (n m : ℕ) (h : List (Time × Result)) (k : Text) (t : Time) (s : Store E S)
      → Holds n m h (E.get k s.endpoint_cache)
      → has_endpoint_status_newer_than E S k t s
        ≡ any (λ (r : Result). after r.timestamp t) (last_n n (results_of h))
  unfolding has_endpoint_status_newer_than
  Holds-newer n m [] k t s e =
      let nothing : last_n {A = Result} n [] ≡ [] = last_n-all n [] (omega arith) in
      rw (e, has_endpoint_status_newer_than, nothing) refl
  Holds-newer n m (x ∷ h) k t s (st, fresh, e) =
      rw (e, has_endpoint_status_newer_than)
        (ap (any (λ (r : Result). after r.timestamp t))
          (results-add_results n m st [] (x ∷ h)
            (fresh.no_results ∙ sym (last_n-all n [] (omega arith)))).0)

  -- After the same calls, HasEndpointStatusNewerThan tells of each key whether one of the last n
  -- results inserted for that key is later than the given time, n being the number of results that
  -- the store holds of each key.
  pub has_endpoint_status_newer_than-insert_all :
      (n m : ℕ) (k : Text) (t : Time) (is : List Insertion)
      → has_endpoint_status_newer_than E S k t (insert_all (new_store E S n m) is)
        ≡ any (λ (r : Result). after r.timestamp t) (last_n n (results_of (inserted_for k is)))
  unfolding new_store
  has_endpoint_status_newer_than-insert_all n m k t is =
      let s : Store E S = new_store E S n m in
      Holds-newer n m (inserted_for k is) k t (insert_all s is)
        (insert_all-Holds k is [] s (E.get_new_cache k))
