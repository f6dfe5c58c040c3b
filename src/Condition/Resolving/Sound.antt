-- ===== src/Condition/Resolving/Sound.antt =====
-- What sanitizeAndResolveWithContext returns.
use ecs_gatus_app.Base.{
  ℕ, suc, ◌≡◌, refl, ap, true, false, Option, none, some, List, [], ◌∷◌, length,
}
use ecs_gatus_app.Base.Text.{Text, trim_space}
use ecs_gatus_app.Base.Outcome.{err}
use ecs_gatus_app.Endpoint.{Result}
use ecs_gatus_app.Gontext.{Gontext}
use ecs_gatus_app.Golib.{Golib}
use ecs_gatus_app.Placeholder.{Resolution, resolved, failed, panics, resolve_placeholder}
use ecs_gatus_app.Placeholder.Resolved.{
  is_failed, is_resolved, is_failed-resolve_placeholder, is_resolved-resolve_placeholder,
}
use ecs_gatus_app.Condition.Resolving.{
  Sanitized, sanitize_and_resolve_with_context, add_resolution, after_resolution,
}

-- One parameter and one resolved parameter for each element, and the result as it was.
abbrev pub IsSound : ℕ → Result → Option Sanitized → Type 0
IsSound n r none = Unit
IsSound n r (some s) =
    (s.result ≡ r) × (length s.parameters ≡ n) × (length s.resolved_parameters ≡ n)

add_resolution-IsSound :
    (element : Text) (x : Resolution) (n : ℕ) (r : Result) (o : Option Sanitized)
    → is_failed x ≡ false
    → IsSound n (after_resolution x r) o
    → IsSound
        (suc n)
        r
        (elim o as (λ o. Option Sanitized) [ none ↦ none | some s ↦ add_resolution element x s ])
unfolding add_resolution
add_resolution-IsSound element (failed e) n r o h k = cc
add_resolution-IsSound element panics n r none h k = tt
add_resolution-IsSound element panics n r (some s) h k = tt
add_resolution-IsSound element (resolved t) n r none h k = tt
add_resolution-IsSound element (resolved t) n r (some s) h (same, ps, rs) =
    (same, ap suc ps, ap suc rs)

pub sanitize-IsSound :
    (lib : Golib) (elements : List Text) (r : Result) (ctx : Option Gontext)
    → IsSound (length elements) r (sanitize_and_resolve_with_context lib elements r ctx)
unfolding sanitize_and_resolve_with_context
sanitize-IsSound lib [] r ctx = (refl, refl, refl)
sanitize-IsSound lib (element ∷ elements) r ctx =
    let x = resolve_placeholder lib (trim_space element) r ctx in
    add_resolution-IsSound (trim_space element) x (length elements) r
      (sanitize_and_resolve_with_context lib elements (after_resolution x r) ctx)
      (is_failed-resolve_placeholder lib (trim_space element) r ctx)
      (sanitize-IsSound lib elements (after_resolution x r) ctx)

abbrev pub IsPresent : Option Sanitized → Type 0
IsPresent o = (s : Sanitized) × (o ≡ some s)

add_resolution-IsPresent :
    (element : Text) (x : Resolution) (o : Option Sanitized)
    → is_resolved x ≡ true
    → IsPresent o
    → IsPresent
        (elim o as (λ o. Option Sanitized) [ none ↦ none | some s ↦ add_resolution element x s ])
unfolding add_resolution
add_resolution-IsPresent element (failed e) o h k = cc
add_resolution-IsPresent element panics o h k = cc
add_resolution-IsPresent element (resolved t) none h (s, k) = cc
add_resolution-IsPresent element (resolved t) (some s) h k = (_, refl)

after_resolution-resolved :
    (x : Resolution) (r : Result) → is_resolved x ≡ true → after_resolution x r ≡ r
after_resolution-resolved (resolved t) r h = refl
after_resolution-resolved (failed e) r h = cc
after_resolution-resolved panics r h = cc

-- Where the body is no JSON, nothing panics.
pub sanitize_without_document :
    (lib : Golib) (elements : List Text) (r : Result) (ctx : Option Gontext) (e : Text)
    → lib.unmarshal r.body ≡ err e
    → IsPresent (sanitize_and_resolve_with_context lib elements r ctx)
unfolding sanitize_and_resolve_with_context
sanitize_without_document lib [] r ctx e h = (_, refl)
sanitize_without_document lib (element ∷ elements) r ctx e h =
    let x = resolve_placeholder lib (trim_space element) r ctx in
    let good = is_resolved-resolve_placeholder lib (trim_space element) e r ctx h in
    let rest : IsPresent
        (sanitize_and_resolve_with_context lib elements (after_resolution x r) ctx) =
      rw (after_resolution-resolved x r good) (sanitize_without_document lib elements r ctx e h) in
    add_resolution-IsPresent (trim_space element) x _ good rest
