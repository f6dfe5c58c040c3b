-- ===== src/Watchdog/Alerting/Counters.antt =====
-- The counters of failures and of successes in a row.
use ecs_gatus_app.Base.{
  ℕ, suc, ◌≡◌, refl, ap, ◌∙◌, Bool, true, false, Bool-cases, inl, inr, some, List, [], ◌∷◌, ◌++◌,
  if◌then◌else◌,
}
use ecs_gatus_app.Endpoint.{Endpoint, Result}
use ecs_gatus_app.Watchdog.Alerting.{
  AlertingConfig, Round, Effect, handle_alerts_to_trigger, handle_alerts_to_resolve,
  handle_alerting,
}

-- Results one after another, each with what its alerts read; and all the effects.
unfoldable pub handle_all :
    AlertingConfig → List ((ℕ → Round) × Result) → Endpoint → Endpoint × List Effect
handle_all config [] ep = (ep, [])
handle_all config ((rounds, r) ∷ later) ep =
    let (next, effects) = handle_alerting (some config) rounds r ep in
    let (after, rest) = handle_all config later next in (after, effects ++ rest)

-- How many results with one outcome there are at the end of a history, on top of a number that
-- there were in a row before it.
abbrev pub in_a_row : Bool → ℕ → List ((ℕ → Round) × Result) → ℕ
in_a_row b n [] = n
in_a_row true n ((rounds, r) ∷ later) = in_a_row true (if r.success then suc n else 0) later
in_a_row false n ((rounds, r) ∷ later) = in_a_row false (if r.success then 0 else suc n) later

counters_lem :
    (config : AlertingConfig) (rounds : ℕ → Round) (r : Result) (ep : Endpoint)
    → ((handle_alerting (some config) rounds r ep).0.number_of_failures_in_a_row
        ≡ (if r.success then 0 else suc ep.number_of_failures_in_a_row))
      × ((handle_alerting (some config) rounds r ep).0.number_of_successes_in_a_row
          ≡ (if r.success then suc ep.number_of_successes_in_a_row else 0))
unfolding handle_alerting handle_alerts_to_trigger handle_alerts_to_resolve
counters_lem config rounds r ep = elim (Bool-cases r.success) [
  | inl success ↦ rw success (refl, refl)
  | inr failure ↦ rw failure (refl, refl)
]

-- After any sequence of results, NumberOfFailuresInARow is the number of failed results at the end
-- of the sequence, and NumberOfSuccessesInARow that of the successful ones, where a sequence of one
-- outcome goes on from the number that there was before it.
pub counters-handle_all :
    (config : AlertingConfig) (history : List ((ℕ → Round) × Result)) (ep : Endpoint)
    → ((handle_all config history ep).0.number_of_failures_in_a_row
        ≡ in_a_row false ep.number_of_failures_in_a_row history)
      × ((handle_all config history ep).0.number_of_successes_in_a_row
          ≡ in_a_row true ep.number_of_successes_in_a_row history)
unfolding handle_all
counters-handle_all config [] ep = (refl, refl)
counters-handle_all config ((rounds, r) ∷ later) ep =
    let here = counters_lem config rounds r ep in
    let ih = counters-handle_all config later (handle_alerting (some config) rounds r ep).0 in
    (ih.0 ∙ ap (λ n. in_a_row false n later) here.0, ih.1 ∙ ap (λ n. in_a_row true n later) here.1)
