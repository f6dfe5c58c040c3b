-- ===== src/Condition/Resolving.antt =====
-- sanitizeAndResolveWithContext and sanitizeAndResolveNumericalWithContext of
-- app/config/endpoint/condition.go.
pub mod Sound
use ecs_gatus_app.Base.{Option, none, some, List, [], ◌∷◌, if◌then◌else◌}
use ecs_gatus_app.Base.Int.{ℤ, pos, quot, eqb_ℤ}
use ecs_gatus_app.Base.Text.{Text, trim_space}
use ecs_gatus_app.Base.Numbers.{parse_int}
use ecs_gatus_app.Endpoint.{Result, add_error}
use ecs_gatus_app.Gontext.{Gontext}
use ecs_gatus_app.Golib.{Golib}
use ecs_gatus_app.Placeholder.{Resolution, resolved, failed, panics, resolve_placeholder, invalid}

-- The parameters, the texts that they resolve to, and the result, which errors are added to.
pub record Sanitized : Type 0 where
  pub parameters : List Text
  pub resolved_parameters : List Text
  pub result : Result

-- One element of the loop, in front of the others.
add_resolution : Text → Resolution → Sanitized → Option Sanitized
add_resolution element panics s = none
add_resolution element (failed e) s = some (record s {
  parameters = element ∷ s.parameters;
  resolved_parameters = invalid element ∷ s.resolved_parameters;
})
add_resolution element (resolved t) s = some (record s {
  parameters = element ∷ s.parameters;
  resolved_parameters = t ∷ s.resolved_parameters;
})

-- The result after one element.
abbrev pub after_resolution : Resolution → Result → Result
after_resolution (failed e) r = add_error r e
after_resolution other r = r

unfoldable pub sanitize_and_resolve_with_context :
    Golib → List Text → Result → Option Gontext → Option Sanitized
unfolding add_resolution add_error resolve_placeholder
sanitize_and_resolve_with_context lib [] r ctx =
    some (record { parameters = []; resolved_parameters = []; result = r })
sanitize_and_resolve_with_context lib (element ∷ elements) r ctx =
    let trimmed = trim_space element in
    let resolution = resolve_placeholder lib trimmed r ctx in
    elim (sanitize_and_resolve_with_context lib elements (after_resolution resolution r) ctx) [
      | none ↦ none
      | some s ↦ add_resolution trimmed resolution s
    ]

-- A duration in milliseconds, an integer, a floating-point number without its fraction, or 0.
abbrev number_of : Golib → Text → ℤ
number_of lib element = elim (parse_int element) [
  | some n ↦ n
  | none ↦ elim (lib.parse_float element) [ some f ↦ lib.float_to_int f | none ↦ pos 0 ]
]

unfoldable pub resolve_number : Golib → Text → ℤ
unfolding parse_int
resolve_number lib element = elim (lib.parse_duration element) [
  | none ↦ number_of lib element
  | some d ↦ if eqb_ℤ d (pos 0) then number_of lib element else quot d 1000000
]
