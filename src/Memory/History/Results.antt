-- ===== src/Memory/History/Results.antt =====
-- The results that a status holds.
use mathlib.Core.List.{append_assoc, append-nil}
use ecs_gatus_app.Base.{ℕ, ◌≤◌, ◌≡◌, ap, sym, ◌∙◌, List, [], ◌∷◌, ◌++◌, length, arith}
use ecs_gatus_app.Base.Time.{Time}
use ecs_gatus_app.Endpoint.{Result, Status}
use ecs_gatus_app.Memory.History.LastN.{last_n, trim_to-last_n, last_n-append, length-last_n}
use ecs_gatus_app.Memory.History.{add_result}

-- Results one after another, each with the time at which it is taken in.
abbrev pub add_results : ℕ → ℕ → Status → List (Time × Result) → Status
add_results max_results max_events ss [] = ss
add_results max_results max_events ss ((now, r) ∷ rs) =
    add_results max_results max_events (add_result now max_results max_events ss r) rs

abbrev pub results_of : List (Time × Result) → List Result
results_of [] = []
results_of ((now, r) ∷ rs) = r ∷ results_of rs

pub results-add_result :
    (now : Time) (n e : ℕ) (ss : Status) (r : Result)
    → (add_result now n e ss r).results ≡ last_n n (ss.results ++ r ∷ [])
unfolding add_result
results-add_result now n e ss r = trim_to-last_n n (ss.results ++ r ∷ [])

window :
    (n e : ℕ) (ss : Status) (old : List Result) (rs : List (Time × Result))
    → ss.results ≡ last_n n old
    → (add_results n e ss rs).results ≡ last_n n (old ++ results_of rs)
window n e ss old [] h = h ∙ ap (last_n n) (sym (append-nil old))
window n e ss old ((now, r) ∷ rs) h =
    window n e (add_result now n e ss r) (old ++ r ∷ []) rs (
      results-add_result now n e ss r
      ∙ ap (λ xs. last_n n (xs ++ r ∷ [])) h
      ∙ last_n-append n old r)
    ∙ ap (last_n n) (append_assoc old (r ∷ []) (results_of rs))

-- Taking in results one after another keeps a window over the whole history: a status that holds
-- the last n of the older results holds, afterwards, the last n of the older and the new ones
-- together, in their order, and so never more than n.
pub results-add_results :
    (n e : ℕ) (ss : Status) (old : List Result) (rs : List (Time × Result))
    → ss.results ≡ last_n n old
    → ((add_results n e ss rs).results ≡ last_n n (old ++ results_of rs))
      × (length (add_results n e ss rs).results ≤ n)
results-add_results n e ss old rs h =
    let kept = window n e ss old rs h in
    (kept, rw kept (omega (arith, length-last_n n (old ++ results_of rs))))
