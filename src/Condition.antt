-- ===== src/Condition.antt =====
-- app/config/endpoint/condition.go: the evaluation and the validation of a condition. A panic of the
-- Go code is `none`: of an index, or of the evaluation of a path (app/jsonpath).
pub mod Equality
pub mod Resolving
pub mod Display
pub mod Appended
mod Examples
use ecs_gatus_app.Base.{
  Bool, true, false, not, Option, none, some, List, [], ◌∷◌, ◌++◌, if◌then◌else◌,
}
use ecs_gatus_app.Base.Int.{ltb_ℤ, leb_ℤ}
use ecs_gatus_app.Base.Text.{Text, codes}
use ecs_gatus_app.Base.Strings.{contains, split_by}
use ecs_gatus_app.Endpoint.{Result, ConditionResult, zero_result, add_error}
use ecs_gatus_app.Gontext.{Gontext}
use ecs_gatus_app.Golib.{Golib}
use ecs_gatus_app.Condition.Equality.{is_equal}
use ecs_gatus_app.Condition.Resolving.{sanitize_and_resolve_with_context, resolve_number}
use ecs_gatus_app.Condition.Display.{prettify, prettify_numerical_parameters}

-- The six operators, in the order in which evaluate looks for them.
pub data Operator : Type 0 where
  equal : Operator
  not_equal : Operator
  at_most : Operator
  at_least : Operator
  more_than : Operator
  less_than : Operator

abbrev pub symbol : Operator → Text
symbol equal = codes "=="
symbol not_equal = codes "!="
symbol at_most = codes "<="
symbol at_least = codes ">="
symbol more_than = codes ">"
symbol less_than = codes "<"

abbrev pub spaced : Operator → Text
spaced op = b' ' ∷ (symbol op ++ codes " ")

unfoldable pub operator_of : Text → Option Operator
unfolding contains
operator_of c =
    if contains c (spaced equal)
    then some equal
    else if contains c (spaced not_equal)
    then some not_equal
    else if contains c (spaced at_most)
    then some at_most
    else if contains c (spaced at_least)
    then some at_least
    else if contains c (spaced more_than)
    then some more_than
    else if contains c (spaced less_than)
    then some less_than
    else none

-- The first two elements: an index out of range panics.
abbrev pub two {ℓ} : {A : Type ℓ} → List A → Option (A × A)
two [] = none
two (x ∷ []) = none
two (x ∷ y ∷ xs) = some (x, y)

-- Whether the operator holds of the values that the two parameters are resolved to.
unfoldable pub holds : Golib → Operator → Text → Text → Bool
unfolding is_equal resolve_number
holds lib equal a b = is_equal lib a b
holds lib not_equal a b = not (is_equal lib a b)
holds lib at_most a b = leb_ℤ (resolve_number lib a) (resolve_number lib b)
holds lib at_least a b = leb_ℤ (resolve_number lib b) (resolve_number lib a)
holds lib more_than a b = ltb_ℤ (resolve_number lib b) (resolve_number lib a)
holds lib less_than a b = ltb_ℤ (resolve_number lib a) (resolve_number lib b)

-- The condition with its values in parentheses.
abbrev resolved_condition : Golib → Operator → Text × Text → Text × Text → Text
resolved_condition lib equal (p, q) (a, b) =
    prettify (record { parameter = p; shown = a }) (record { parameter = q; shown = b })
      (codes "==")
resolved_condition lib not_equal (p, q) (a, b) =
    prettify (record { parameter = p; shown = a }) (record { parameter = q; shown = b })
      (codes "!=")
resolved_condition lib op (p, q) (a, b) =
    prettify_numerical_parameters lib p q (resolve_number lib a) (resolve_number lib b) (symbol op)

-- Which conditions are shown with their values: those that fail, unless told not to, and those
-- that succeed, if told to.
pub record Showing : Type 0 where
  pub dont_resolve_failed_conditions : Bool
  pub resolve_successful_conditions : Bool

abbrev should_resolve_condition : Showing → Bool → Bool
should_resolve_condition showing true = showing.resolve_successful_conditions
should_resolve_condition showing false = not showing.dont_resolve_failed_conditions

unfoldable pub add_condition_result : Result → Text → Bool → Result
add_condition_result r condition success = record r {
  condition_results =
      r.condition_results ++ record { condition = condition; success = success } ∷ [];
}

-- The end of evaluate: the result, and whether the condition succeeded.
conclude :
    Golib
    → Showing
    → Text
    → Operator
    → Result
    → Option (Text × Text)
    → Option (Text × Text)
    → Option (Result × Bool)
unfolding holds prettify prettify_numerical_parameters add_condition_result
conclude lib showing c op r none values = none
conclude lib showing c op r (some parameters) none = none
conclude lib showing c op r (some parameters) (some (a, b)) =
    let success = holds lib op a b in
    let display =
      if should_resolve_condition showing success
      then resolved_condition lib op parameters (a, b)
      else c in
    some (add_condition_result r display success, success)

evaluate_operator :
    Golib → Showing → Text → Result → Option Gontext → Operator → Option (Result × Bool)
unfolding conclude sanitize_and_resolve_with_context
evaluate_operator lib showing c r ctx op =
    elim (sanitize_and_resolve_with_context lib (split_by c (spaced op)) r ctx) [
      | none ↦ none
      | some s ↦ conclude lib showing c op s.result (two s.parameters) (two s.resolved_parameters)
    ]

unfoldable pub evaluate : Golib → Showing → Text → Result → Option Gontext → Option (Result × Bool)
unfolding operator_of evaluate_operator add_error
evaluate lib showing c r ctx = elim (operator_of c) [
  | none ↦ some (add_error r (codes "invalid condition: " ++ c), false)
  | some op ↦ evaluate_operator lib showing c r ctx op
]

-- The error that Validate returns: the first one of the evaluation on an empty result.
abbrev first_error : Option (Result × Bool) → Option (Option Text)
first_error none = none
first_error (some (r, success)) = elim r.errors [ [] ↦ some none | e ∷ es ↦ some (some e) ]

unfoldable pub validate : Golib → Text → Option (Option Text)
unfolding evaluate
validate lib c = first_error (
    evaluate lib
      (record { dont_resolve_failed_conditions = false; resolve_successful_conditions = false }) c
      zero_result none)

unfoldable pub has_body_placeholder : Text → Bool
has_body_placeholder c = contains c (codes "[BODY]")

unfoldable pub has_domain_expiration_placeholder : Text → Bool
has_domain_expiration_placeholder c = contains c (codes "[DOMAIN_EXPIRATION]")

unfoldable pub has_ip_placeholder : Text → Bool
has_ip_placeholder c = contains c (codes "[IP]")
