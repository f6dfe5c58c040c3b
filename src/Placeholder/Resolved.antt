-- ===== src/Placeholder/Resolved.antt =====
-- What ResolvePlaceholder can end with.
use ecs_gatus_app.Base.{
  ◌≡◌, refl, inl, inr, Bool, true, false, ◌||◌, Option, none, some, [], Bool-cases, arith,
}
use ecs_gatus_app.Base.Text.{Text, codes, text_eq, has_prefix, to_upper, trim_space}
use ecs_gatus_app.Base.Outcome.{err}
use ecs_gatus_app.Endpoint.{Result}
use ecs_gatus_app.Gontext.{Gontext}
use ecs_gatus_app.Golib.{Golib}
use ecs_gatus_app.Jsonpath.{Evaluation, eval}
use ecs_gatus_app.Jsonpath.Panics.{is_answer, eval_without_document}
use ecs_gatus_app.Placeholder.{
  FunctionType, no_function, function_len, function_has, Resolution, resolved, failed, body_value,
  body_length, resolve_body, resolve_json_path_placeholder, format_with_function, after_switch,
  resolve_in_result, resolve_unwrapped, resolve_placeholder,
}

-- A property that every text has, and what the two readings of the body end with, holds of all that
-- is resolved.
module _ (lib : Golib) (r : Result) (P : Resolution → Type 0) (good : (t : Text) → P (resolved t))
    (at_path : (fn : FunctionType) (original path : Text)
      → P (body_value fn original (eval lib path r.body)))
    (of_body : (body : Text) → P (body_length body (eval lib [] r.body))) where
  resolve_body-P : (fn : FunctionType) → P (resolve_body lib fn r)
  unfolding resolve_body
  resolve_body-P no_function = good _
  resolve_body-P function_len = of_body (trim_space r.body)
  resolve_body-P function_has = good _

  after_switch-P :
      (placeholder : Text) (fn : FunctionType) (original : Text) (value : Option Text)
      → P (after_switch lib placeholder fn original r value)
  unfolding after_switch resolve_json_path_placeholder
  after_switch-P placeholder fn original (some value) = good (format_with_function value fn)
  after_switch-P placeholder fn original none =
      let name = to_upper placeholder in
      elim (Bool-cases (text_eq name (codes "[BODY]"))) [
        | inl body ↦ rw body (resolve_body-P fn)
        | inr other ↦
            elim (Bool-cases
              (has_prefix name (codes "[BODY].") || has_prefix name (codes "[BODY]["))) [
                | inl path ↦ rw (other, path) (at_path fn original _)
                | inr neither ↦ rw (other, neither) (good _)
              ]
      ]

  resolve_unwrapped-P :
      (placeholder : Text) (fn : FunctionType) (original : Text) (ctx : Option Gontext)
      → P (resolve_unwrapped lib placeholder fn original r ctx)
  unfolding resolve_unwrapped resolve_in_result
  resolve_unwrapped-P placeholder fn original none = after_switch-P placeholder fn original _
  resolve_unwrapped-P placeholder fn original (some ctx) =
      elim (Bool-cases (has_prefix (to_upper placeholder) (codes "[CONTEXT]"))) [
        | inl context ↦ rw context (good _)
        | inr other ↦ rw other (after_switch-P placeholder fn original _)
      ]

  resolve_placeholder-P :
      (placeholder : Text) (ctx : Option Gontext) → P (resolve_placeholder lib placeholder r ctx)
  unfolding resolve_placeholder
  resolve_placeholder-P placeholder ctx = resolve_unwrapped-P _ _ _ ctx

abbrev pub is_failed : Resolution → Bool
is_failed (failed e) = true
is_failed other = false

abbrev pub is_resolved : Resolution → Bool
is_resolved (resolved t) = true
is_resolved other = false

body_value-NotFailed :
    (fn : FunctionType) (original : Text) (e : Evaluation)
    → is_failed (body_value fn original e) ≡ false
unfolding body_value
body_value-NotFailed fn original e = ground arith

body_length-NotFailed : (body : Text) (e : Evaluation) → is_failed (body_length body e) ≡ false
unfolding body_length
body_length-NotFailed body e = ground arith

-- ResolvePlaceholder never returns an error.
pub is_failed-resolve_placeholder :
    (lib : Golib) (placeholder : Text) (r : Result) (ctx : Option Gontext)
    → is_failed (resolve_placeholder lib placeholder r ctx) ≡ false
is_failed-resolve_placeholder lib placeholder r ctx =
    resolve_placeholder-P lib r (λ x. is_failed x ≡ false) (λ t. refl)
      (λ fn original path. body_value-NotFailed fn original (eval lib path r.body))
      (λ body. body_length-NotFailed body (eval lib [] r.body)) placeholder ctx

body_value-IsResolved :
    (fn : FunctionType) (original : Text) (e : Evaluation)
    → is_answer e ≡ true
    → is_resolved (body_value fn original e) ≡ true
unfolding body_value
body_value-IsResolved fn original e h = ground arith

body_length-IsResolved :
    (body : Text) (e : Evaluation) → is_answer e ≡ true → is_resolved (body_length body e) ≡ true
unfolding body_length
body_length-IsResolved body e h = ground arith

-- Where the body is no JSON, every placeholder is resolved to a text.
pub is_resolved-resolve_placeholder :
    (lib : Golib) (placeholder e : Text) (r : Result) (ctx : Option Gontext)
    → lib.unmarshal r.body ≡ err e
    → is_resolved (resolve_placeholder lib placeholder r ctx) ≡ true
is_resolved-resolve_placeholder lib placeholder e r ctx h =
    resolve_placeholder-P lib r (λ x. is_resolved x ≡ true) (λ t. refl)
      (λ fn original path.
        body_value-IsResolved fn original (eval lib path r.body)
          (eval_without_document lib path r.body e h))
      (λ body.
        body_length-IsResolved body (eval lib [] r.body) (eval_without_document lib [] r.body e h))
      placeholder ctx
