-- ===== src/Condition/Appended.antt =====
-- What the evaluation of a condition does to the result.
use ecs_gatus_app.Base.{
  ◌≤◌, ◌≡◌, ◌≢◌, refl, ap, subst, ◌∙◌, ◌⊎◌, inl, inr, Bool, true, false, Option, none, some, List,
  [], ◌∷◌, ◌++◌, length, any, arith, if◌then◌else◌, Option-cases,
}
use ecs_gatus_app.Base.Text.{Text, codes}
use ecs_gatus_app.Base.Strings.{contains, split_by}
use ecs_gatus_app.Base.Strings.Laws.{split_by-two}
use ecs_gatus_app.Base.Outcome.{err}
use ecs_gatus_app.Endpoint.{Result, zero_result, add_if_absent, add_error}
use ecs_gatus_app.Gontext.{Gontext}
use ecs_gatus_app.Golib.{Golib}
use ecs_gatus_app.Condition.Resolving.{sanitize_and_resolve_with_context}
use ecs_gatus_app.Condition.Resolving.Sound.{IsSound, sanitize-IsSound, sanitize_without_document}
use ecs_gatus_app.Condition.{
  Operator, equal, not_equal, at_most, at_least, more_than, less_than, spaced, operator_of, two,
  Showing, add_condition_result, conclude, evaluate_operator, evaluate, first_error, validate,
}

two-some {ℓ} : {A : Type ℓ} (xs : List A) → 2 ≤ length xs → (p : A × A) × (two xs ≡ some p)
two-some [] h = absurd (omega arith)
two-some (x ∷ []) h = absurd (omega arith)
two-some (x ∷ y ∷ xs) h = ((x, y), refl)

contains-operator_of :
    (c : Text) (op : Operator) → operator_of c ≡ some op → contains c (spaced op) ≡ true
unfolding operator_of
contains-operator_of c equal h = ground arith
contains-operator_of c not_equal h = ground arith
contains-operator_of c at_most h = ground arith
contains-operator_of c at_least h = ground arith
contains-operator_of c more_than h = ground arith
contains-operator_of c less_than h = ground arith

-- The elements of a condition with an operator: two at least.
split_by-operator :
    (c : Text) (op : Operator) → operator_of c ≡ some op → 2 ≤ length (split_by c (spaced op))
split_by-operator c op h =
    let (first, second, rest, e) = split_by-two c (spaced op) refl (contains-operator_of c op h) in
    rw e (omega arith)

-- What evaluate ends with, if it does not panic: an error for an invalid condition, or one more
-- condition result, whose success is the one returned.
abbrev pub IsAppended : Text → Result → Result × Bool → Type 0
IsAppended c r (after, success) =
    ((operator_of c ≡ none)
      × (after ≡ add_error r (codes "invalid condition: " ++ c))
      × (success ≡ false))
    ⊎ ((op : Operator) × (display : Text) × (operator_of c ≡ some op)
        × (after ≡ add_condition_result r display success))

conclude-IsAppended :
    (lib : Golib) (showing : Showing) (c : Text) (op : Operator) (r : Result)
    (parameters values : Option (Text × Text)) (x : Result × Bool)
    → operator_of c ≡ some op
    → conclude lib showing c op r parameters values ≡ some x
    → IsAppended c r x
unfolding conclude
conclude-IsAppended lib showing c op r none values x h k = cc
conclude-IsAppended lib showing c op r (some parameters) none x h k = cc
conclude-IsAppended lib showing c op r (some parameters) (some (a, b)) x h k =
    let same =
      ap (λ (o : Option (Result × Bool)). elim o as (λ o. Result × Bool) [ none ↦ x | some y ↦ y ])
        k in
    subst (IsAppended c r) same (inr (op, _, h, refl))

evaluate_operator-IsAppended :
    (lib : Golib) (showing : Showing) (c : Text) (op : Operator) (r : Result) (ctx : Option Gontext)
    (x : Result × Bool)
    → operator_of c ≡ some op
    → evaluate_operator lib showing c r ctx op ≡ some x
    → IsAppended c r x
unfolding evaluate_operator
evaluate_operator-IsAppended lib showing c op r ctx x h k =
    elim (Option-cases (sanitize_and_resolve_with_context lib (split_by c (spaced op)) r ctx)) [
      | inl absent ↦ let panicked = rw (absent, evaluate_operator) at k in absurd cc
      | inr (s, there) ↦
          let sound =
            subst (IsSound (length (split_by c (spaced op))) r) there
              (sanitize-IsSound lib (split_by c (spaced op)) r ctx) in
          let ended = rw (there, evaluate_operator, sound.0) at k in
          conclude-IsAppended lib showing c op r (two s.parameters) (two s.resolved_parameters) x h
            ended
    ]

-- If evaluating a condition does not panic, it adds an error to the result and fails, where the
-- condition has no operator, and else it adds one condition result with the success that it returns
-- and changes nothing else.
pub evaluate-IsAppended :
    (lib : Golib) (showing : Showing) (c : Text) (r : Result) (ctx : Option Gontext)
    (x : Result × Bool)
    → evaluate lib showing c r ctx ≡ some x
    → IsAppended c r x
unfolding evaluate
evaluate-IsAppended lib showing c r ctx x h = elim (Option-cases (operator_of c)) [
  | inl absent ↦
      let ended = rw (absent, evaluate) at h in
      let same =
        ap
          (λ (o : Option (Result × Bool)). elim o as (λ o. Result × Bool) [ none ↦ x | some y ↦ y ])
          ended in
      subst (IsAppended c r) same (inl (absent, refl, refl))
  | inr (op, there) ↦
      evaluate_operator-IsAppended lib showing c op r ctx x there (rw (there, evaluate) at h)
]

evaluate_operator_without_document :
    (lib : Golib) (showing : Showing) (c : Text) (op : Operator) (r : Result) (ctx : Option Gontext)
    (e : Text)
    → lib.unmarshal r.body ≡ err e
    → operator_of c ≡ some op
    → evaluate_operator lib showing c r ctx op ≢ none
unfolding evaluate_operator conclude
evaluate_operator_without_document lib showing c op r ctx e h k panicked =
    let (s, there) = sanitize_without_document lib (split_by c (spaced op)) r ctx e h in
    let (same, parameters, values) =
      subst (IsSound (length (split_by c (spaced op))) r) there
        (sanitize-IsSound lib (split_by c (spaced op)) r ctx) in
    let count = split_by-operator c op k in
    let (ps, p) = two-some s.parameters (omega arith) in
    let (vs, v) = two-some s.resolved_parameters (omega arith) in
    let ended = rw (evaluate_operator, there, p, v, conclude) at panicked in cc

-- Where the body of the result is no JSON, evaluating a condition does not panic.
pub evaluate_without_document :
    (lib : Golib) (showing : Showing) (c : Text) (r : Result) (ctx : Option Gontext) (e : Text)
    → lib.unmarshal r.body ≡ err e
    → evaluate lib showing c r ctx ≢ none
unfolding evaluate
evaluate_without_document lib showing c r ctx e h panicked = elim (Option-cases (operator_of c)) [
  | inl absent ↦ let ended = rw (absent, evaluate) at panicked in absurd cc
  | inr (op, there) ↦ absurd (
      evaluate_operator_without_document lib showing c op r ctx e h there
        (rw (evaluate, there) at panicked))
]

-- The operators, with the spaces around them.
abbrev pub operators : List Text
operators =
    codes " == " ∷ codes " != " ∷ codes " <= " ∷ codes " >= " ∷ codes " > " ∷ codes " < " ∷ []

-- The refusal of a condition: that of one that holds none of the operators.
abbrev pub refusal_of : Text → Option Text
refusal_of c = if any (contains c) operators then none else some (codes "invalid condition: " ++ c)

-- evaluate finds an operator where there is one.
pub refused_lem : (c : Text) → operator_of c ≡ none → any (contains c) operators ≡ false
unfolding operator_of
refused_lem c h = ground arith

pub found_lem :
    (c : Text) (op : Operator) → operator_of c ≡ some op → any (contains c) operators ≡ true
unfolding operator_of
found_lem c op h = ground arith

first_error-IsAppended :
    (c : Text) (x : Result × Bool)
    → IsAppended c zero_result x
    → first_error (some x) ≡ some (refusal_of c)
unfolding add_error add_if_absent add_condition_result
first_error-IsAppended c x (inl (absent, same, fails)) =
    ap (λ (r : Result). first_error (some (r, x.1))) same ∙ rw (refused_lem c absent)
first_error-IsAppended c x (inr (op, display, there, same)) =
    ap (λ (r : Result). first_error (some (r, x.1))) same ∙ rw (found_lem c op there)

abbrev as_validated : Showing
as_validated = record {
  dont_resolve_failed_conditions = false;
  resolve_successful_conditions = false;
}

-- Where an empty text is no JSON, Validate does not panic: it accepts the conditions that hold one of
-- " == ", " != ", " <= ", " >= ", " > " and " < ", and refuses all others with an error that names
-- them.
pub validate_iff :
    (lib : Golib) (c e : Text) → lib.unmarshal [] ≡ err e → validate lib c ≡ some (refusal_of c)
unfolding validate
validate_iff lib c e h = elim (Option-cases (evaluate lib as_validated c zero_result none)) [
  | inl absent ↦ absurd (evaluate_without_document lib as_validated c zero_result none e h absent)
  | inr (x, there) ↦
      ap first_error there
      ∙ first_error-IsAppended c x (evaluate-IsAppended lib as_validated c zero_result none x there)
]
