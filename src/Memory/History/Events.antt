-- ===== src/Memory/History/Events.antt =====
-- The events that a status holds.
use mathlib.Core.List.{append_assoc, append-nil}
use ecs_gatus_app.Base.{
  ℕ, suc, ◌≤◌, ◌≡◌, ap, sym, ◌∙◌, List, [], ◌∷◌, ◌++◌, Option, none, some, last?, if◌then◌else◌,
  xor, Bool-cases, inl, inr, arith,
}
use ecs_gatus_app.Base.Time.{Time}
use ecs_gatus_app.Endpoint.{Result, Event, Status, new_event_from_result}
use ecs_gatus_app.Memory.History.LastN.{
  last_n, trim_to-last_n, last_n-append, last?-last_n, last_n-all,
}
use ecs_gatus_app.Memory.History.Results.{add_results, results_of, results-add_result}
use ecs_gatus_app.Memory.History.{add_event, add_result}

-- The events that a sequence of results calls for, independently of any storage: one for the first
-- result, then one for each result whose success differs from that of the result before it.
abbrev pub changes : Option Result → List Result → List Event
changes none [] = []
changes none (r ∷ rs) = new_event_from_result r ∷ changes (some r) rs
changes (some last) [] = []
changes (some last) (r ∷ rs) =
    if xor last.success r.success
    then new_event_from_result r ∷ changes (some r) rs
    else changes (some r) rs

last?-add_result :
    (now : Time) (n e : ℕ) (ss : Status) (r : Result)
    → last? (add_result now (suc n) e ss r).results ≡ some r
last?-add_result now n e ss r =
    ap last? (results-add_result now (suc n) e ss r) ∙ last?-last_n n ss.results r

-- One event more, behind a history of events of which the last m are held.
add_event-last_n :
    (m : ℕ) (last r : Result) (held full : List Event)
    → held ≡ last_n m full
    → add_event m (some last) r held
      ≡ last_n m (if xor last.success r.success then full ++ new_event_from_result r ∷ [] else full)
unfolding add_event
add_event-last_n m last r held full h = elim (Bool-cases (xor last.success r.success)) [
  | inl change ↦ rw change (
      trim_to-last_n m (held ++ new_event_from_result r ∷ [])
      ∙ ap (λ xs. last_n m (xs ++ new_event_from_result r ∷ [])) h
      ∙ last_n-append m full (new_event_from_result r))
  | inr same ↦ rw same h
]

events_of_change :
    (last r : Result) (full : List Event) (rs : List Result)
    → (if xor last.success r.success then full ++ new_event_from_result r ∷ [] else full)
        ++ changes (some r) rs
      ≡ full ++ changes (some last) (r ∷ rs)
events_of_change last r full rs = elim (Bool-cases (xor last.success r.success)) [
  | inl change ↦ rw change (append_assoc full _ _)
  | inr same ↦ rw same
]

events_later :
    (n m : ℕ) (ss : Status) (last : Result) (full : List Event) (rs : List (Time × Result))
    → last? ss.results ≡ some last
    → ss.events ≡ last_n m full
    → (add_results (suc n) m ss rs).events ≡ last_n m (full ++ changes (some last) (results_of rs))
unfolding add_result
events_later n m ss last full [] l h = h ∙ ap (last_n m) (sym (append-nil full))
events_later n m ss last full ((now, r) ∷ rs) l h =
    events_later n m (add_result now (suc n) m ss r) r _ rs (last?-add_result now n m ss r)
      (rw l (add_event-last_n m last r ss.events full h))
    ∙ ap (last_n m) (events_of_change last r full (results_of rs))

-- A status that starts with no result and one event holds, after any results, the last m events of
-- its history: the first one, the event of the first result, and an event for each change between
-- healthy and unhealthy since; if at least one result and at least two events may be held.
pub events-add_results :
    (n m : ℕ) (ss : Status) (first : Event) (rs : List (Time × Result))
    → 2 ≤ m
    → ss.results ≡ []
    → ss.events ≡ first ∷ []
    → (add_results (suc n) m ss rs).events ≡ last_n m (first ∷ changes none (results_of rs))
unfolding add_result add_event
events-add_results n m ss first [] h none_yet e = e ∙ sym (last_n-all m (first ∷ []) (omega arith))
events-add_results n m ss first ((now, r) ∷ rs) h none_yet e =
    events_later n m (add_result now (suc n) m ss r) r (first ∷ new_event_from_result r ∷ []) rs
      (last?-add_result now n m ss r)
      (rw (none_yet, e) (sym (last_n-all m (first ∷ new_event_from_result r ∷ []) h)))
