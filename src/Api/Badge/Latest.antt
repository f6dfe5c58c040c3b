-- ===== src/Api/Badge/Latest.antt =====
-- What the health badges show after any sequence of inserted results.
use mathlib.Core.List.{append-nil}
use ecs_gatus_app.Base.{
  ℕ, zero, suc, ◌-◌, ◌≤◌, ◌<◌, ◌≡◌, refl, ap, sym, ◌∙◌, inl, inr, Option, none, some, List, [], ◌∷◌,
  length, drop, last?, arith, if◌then◌else◌, Option-cases,
}
use ecs_gatus_app.Base.Int.{pos}
use ecs_gatus_app.Base.Text.{Text, codes}
use ecs_gatus_app.Base.Time.{Time}
use ecs_gatus_app.Base.Outcome.{Outcome, ok, err}
use ecs_gatus_app.Gontext.{Entries}
use ecs_gatus_app.Endpoint.{Result, Status}
use ecs_gatus_app.Suite.{SuiteStatus}
use ecs_gatus_app.Memory.Cache.{Cache}
use ecs_gatus_app.Memory.History.LastN.{last_n, length-last_n}
use ecs_gatus_app.Memory.History.Results.{results_of}
use ecs_gatus_app.Memory.Paging.{page_of, new_endpoint_status_params, with_results}
use ecs_gatus_app.Memory.Paging.Bounds.{two_63}
use ecs_gatus_app.Memory.Paging.Partition.{pages_down-drop}
use ecs_gatus_app.Memory.Store.{
  Store, StoreError, new_store, get_endpoint_status_by_key, shallow_copy_endpoint_status,
}
use ecs_gatus_app.Memory.Store.Insertion.{
  Insertion, Answers, inserted_for, insert_all, get_endpoint_status_by_key-insert_all,
}
use ecs_gatus_app.Watchdog.Push.{Response}
use ecs_gatus_app.Api.Badge.{
  health_status_up, health_status_down, health_status_unknown, health_status_of, latest_result,
  read_status, find_health_status, health_badge, health_badge_shields, send_svg, send_json, refusal,
}

module _ {ℓ} {A : Type ℓ} where
  last?-drop : (i : ℕ) (xs : List A) → i < length xs → last? (drop i xs) ≡ last? xs
  last?-drop zero xs h = refl
  last?-drop (suc i) [] h = absurd (omega arith)
  last?-drop (suc i) (x ∷ []) h = absurd (omega arith)
  last?-drop (suc i) (x ∷ y ∷ xs) h = last?-drop i (y ∷ xs) (omega arith)

  last?-last_n_cons :
      (n : ℕ) (x : A) (xs : List A) → last? (last_n (suc n) (x ∷ xs)) ≡ last? (x ∷ xs)
  last?-last_n_cons n x xs = last?-drop (length (x ∷ xs) - suc n) (x ∷ xs) (omega arith)

-- The response without a result, and the word for one.
abbrev pub word_for : Option Result → Outcome Response Text
word_for none = err (record { status = 404; body = codes "endpoint not found" })
word_for (some r) = ok (if r.success then health_status_up else health_status_down)

-- The word for the last of the results, where there are any.
abbrev word_of : Option Result → Text
word_of none = health_status_unknown
word_of (some r) = if r.success then health_status_up else health_status_down

word_of_last : (xs : List Result) → health_status_of (last_n 1 xs) ≡ word_of (last? xs)
unfolding health_status_of
word_of_last [] = refl
word_of_last (x ∷ []) = refl
word_of_last (x ∷ y ∷ ys) =
    let e : length (x ∷ y ∷ ys) - 1 ≡ suc (length (y ∷ ys) - 1) = omega arith in
    rw e (word_of_last (y ∷ ys))

word_for_cons :
    (x : Result) (xs : List Result) → word_for (last? (x ∷ xs)) ≡ ok (word_of (last? (x ∷ xs)))
word_for_cons x [] = refl
word_for_cons x (y ∷ ys) = word_for_cons y ys

-- Page 1 of size 1 is the newest element.
page_of_one :
    {A : Type 0} (xs : List A) → length xs < two_63 → page_of xs (pos 1) (pos 1) ≡ last_n 1 xs
page_of_one xs h =
    sym (append-nil (page_of xs (pos 1) (pos 1)))
    ∙ pages_down-drop xs 1 1 h (omega arith) (omega arith)

-- The word for the newest result of a status without paging.
abbrev first_page : Outcome StoreError Status → Outcome Response Text
first_page (err e) = err (refusal e)
first_page (ok st) = ok (health_status_of (page_of st.results (pos 1) (pos 1)))

module _ (E : Cache Status) (S : Cache SuiteStatus) where
  -- The status for the badge is that without parameters, but for the page of the results.
  read_status-get :
      (k : Text) (s : Store E S)
      → read_status (get_endpoint_status_by_key E S k (some latest_result) s)
        ≡ first_page (get_endpoint_status_by_key E S k none s)
  unfolding get_endpoint_status_by_key shallow_copy_endpoint_status read_status
      new_endpoint_status_params with_results
  read_status-get k s = elim (Option-cases (E.get k s.endpoint_cache)) [
    | inl e ↦ rw (get_endpoint_status_by_key, e)
    | inr (st, e) ↦ rw (get_endpoint_status_by_key, e)
  ]

  first_page-Answers :
      (n m : ℕ) (h : List (Time × Result)) (o : Outcome StoreError Status)
      → suc n < two_63
      → Answers E S (suc n) m h o
      → first_page o ≡ word_for (last? (results_of h))
  unfolding refusal
  first_page-Answers n m [] o le a = ap first_page a
  first_page-Answers n m ((t, r) ∷ h) o le (st, found, held, events) =
      let rs = results_of ((t, r) ∷ h) in
      let short : length st.results < two_63 =
        omega (arith, length-last_n (suc n) rs, ap length held) in
      ap first_page found
      ∙ ap (λ xs. ok (health_status_of xs)) (page_of_one st.results short)
      ∙ ap ok (
          word_of_last st.results
          ∙ ap (λ xs. word_of (last? xs)) held
          ∙ ap word_of (last?-last_n_cons n r (results_of h)))
      ∙ sym (word_for_cons r (results_of h))

  module _ (query_unescape : Text → Option Text) where
    find_health_status-insert_all :
        (n m : ℕ) (parameter k : Text) (is : List Insertion)
        → 2 ≤ m
        → suc n < two_63
        → query_unescape parameter ≡ some k
        → find_health_status E S query_unescape parameter
            (insert_all E S (new_store E S (suc n) m) is)
          ≡ word_for (last? (results_of (inserted_for k is)))
    unfolding find_health_status
    find_health_status-insert_all n m parameter k is two fits decoded =
        let s : Store E S = insert_all E S (new_store E S (suc n) m) is in
        rw (find_health_status, decoded)
          (read_status-get k s
            ∙ first_page-Answers n m (inserted_for k is) (get_endpoint_status_by_key E S k none s)
                fits (get_endpoint_status_by_key-insert_all E S n m k is two))

    -- After any sequence of calls of InsertEndpointResult on a new store, whatever the endpoints,
    -- both health badges of a key show "up" or "down" by the success of the last result that was
    -- inserted for that key, and answer with status 404 if none was. The parameter of the request
    -- has to decode to the key, and the store holds at least two events and at least one result of
    -- each key, in a number that fits Go's int.
    pub health_badge-insert_all :
        (marshal : Entries → Outcome Text Text) (n m : ℕ) (parameter k : Text) (is : List Insertion)
        → 2 ≤ m
        → suc n < two_63
        → query_unescape parameter ≡ some k
        → (health_badge E S query_unescape parameter (insert_all E S (new_store E S (suc n) m) is)
            ≡ send_svg (word_for (last? (results_of (inserted_for k is)))))
          × (health_badge_shields E S query_unescape marshal parameter
                (insert_all E S (new_store E S (suc n) m) is)
              ≡ send_json marshal (word_for (last? (results_of (inserted_for k is)))))
    unfolding health_badge health_badge_shields
    health_badge-insert_all marshal n m parameter k is two fits decoded =
        let e = find_health_status-insert_all n m parameter k is two fits decoded in
        (ap send_svg e, ap (send_json marshal) e)
