-- ===== src/Health/Success.antt =====
-- When a health check is a success.
use ecs_gatus_app.Base.{
  ◌≡◌, ◌≢◌, refl, sym, ap, subst, ◌∙◌, inl, inr, Bool, true, false, ◌&&◌, Option, none, some, List,
  [], ◌∷◌, ◌++◌, if◌then◌else◌, All, all, value_or, Option-cases,
}
use ecs_gatus_app.Base.Text.{Text}
use ecs_gatus_app.Endpoint.{Endpoint, Result, ConditionResult}
use ecs_gatus_app.Endpoint.Parts.{UiConfig}
use ecs_gatus_app.Gontext.{Gontext}
use ecs_gatus_app.Golib.{Golib}
use ecs_gatus_app.Condition.{Showing, operator_of, add_condition_result, evaluate}
use ecs_gatus_app.Condition.Appended.{IsAppended, evaluate-IsAppended}
use ecs_gatus_app.Health.Templates.{preprocess_with_context}
use ecs_gatus_app.Health.{
  Readings, before_conditions, after_condition, evaluate_conditions, clean_up, processed,
  showing_of, finish, evaluate_health_with_context,
}

abbrev pub succeeded : ConditionResult → Bool
succeeded c = c.success

-- A result after a condition: one that fails takes the success away.
abbrev pub after_judgement : Result → Text → Bool → Result
after_judgement r display true = add_condition_result r display true
after_judgement r display false = record (add_condition_result r display false) { success = false }

append_assoc : (r s t : List ConditionResult) → (r ++ s) ++ t ≡ r ++ (s ++ t)
append_assoc [] s t = refl
append_assoc (c ∷ r) s t = ap (◌∷◌ c) (append_assoc r s t)

&&_assoc : (a b c : Bool) → ((a && b) && c) ≡ (a && (b && c))
&&_assoc true b c = refl
&&_assoc false b c = refl

&&_true : (b : Bool) → (b && true) ≡ b
&&_true true = refl
&&_true false = refl

&&_false : (b : Bool) → (b && false) ≡ false
&&_false true = refl
&&_false false = refl

append_nil : (r : List ConditionResult) → r ≡ r ++ []
append_nil [] = refl
append_nil (c ∷ r) = ap (◌∷◌ c) (append_nil r)

results-after_judgement :
    (r : Result) (display : Text) (b : Bool)
    → (after_judgement r display b).condition_results
      ≡ r.condition_results ++ record { condition = display; success = b } ∷ []
unfolding add_condition_result
results-after_judgement r display true = refl
results-after_judgement r display false = refl

success-after_judgement :
    (r : Result) (display : Text) (b : Bool)
    → (after_judgement r display b).success ≡ (r.success && b)
unfolding add_condition_result
success-after_judgement r display true = sym (&&_true r.success)
success-after_judgement r display false = sym (&&_false r.success)

errors-after_judgement :
    (r : Result) (display : Text) (b : Bool) → (after_judgement r display b).errors ≡ r.errors
unfolding add_condition_result
errors-after_judgement r display true = refl
errors-after_judgement r display false = refl

module _ (lib : Golib) (showing : Showing) (ctx : Option Gontext) where
  -- The conditions are evaluated one after another, each on the result that the ones before it left:
  -- each adds the condition result that it is listed with, whose success is what evaluate returns.
  abbrev pub AreEvaluated : List Text → Result → List ConditionResult → Type 0
  AreEvaluated [] r [] = Unit
  AreEvaluated [] r (x ∷ added) = ⊥
  AreEvaluated (c ∷ cs) r [] = ⊥
  AreEvaluated (c ∷ cs) r (x ∷ added) =
      (evaluate lib showing c r ctx
        ≡ some (add_condition_result r x.condition x.success, x.success))
      × AreEvaluated cs (after_judgement r x.condition x.success) added

  -- From one result to another, the conditions are evaluated, their results are added, the errors
  -- stay, and the success is kept if all that were added succeeded.
  record Judged (cs : List Text) (r after : Result) : Type 0 where
    added : List ConditionResult
    evaluated : AreEvaluated cs r added
    appended : after.condition_results ≡ r.condition_results ++ added
    judged : after.success ≡ (r.success && all succeeded added)
    same_errors : after.errors ≡ r.errors

  Judged-none : (r : Result) → Judged [] r r
  Judged-none r = record {
    added = [];
    evaluated = tt;
    appended = append_nil r.condition_results;
    judged = sym (&&_true r.success);
    same_errors = refl;
  }

  -- One condition result and those that follow.
  Judged-cons :
      (c : Text) (cs : List Text) (r after : Result) (display : Text) (b : Bool)
      → evaluate lib showing c r ctx ≡ some (add_condition_result r display b, b)
      → Judged cs (after_judgement r display b) after
      → Judged (c ∷ cs) r after
  Judged-cons c cs r after display b here j =
      let x : ConditionResult = record { condition = display; success = b } in
      record {
        added = x ∷ j.added;
        evaluated = (here, j.evaluated);
        appended =
            j.appended
            ∙ (ap (λ rs. rs ++ j.added) (results-after_judgement r display b)
                ∙ append_assoc r.condition_results (x ∷ []) j.added);
        judged =
            j.judged
            ∙ (ap (λ s. s && all succeeded j.added) (success-after_judgement r display b)
                ∙ &&_assoc r.success b (all succeeded j.added));
        same_errors = j.same_errors ∙ errors-after_judgement r display b;
      }

  after_condition-Judged :
      (c : Text) (cs : List Text) (r after : Result) (x : Result × Bool)
      (rest : Result → Option Result)
      → operator_of c ≢ none
      → evaluate lib showing c r ctx ≡ some x
      → IsAppended c r x
      → ((mid : Result) → rest mid ≡ some after → Judged cs mid after)
      → after_condition (some x) rest ≡ some after
      → Judged (c ∷ cs) r after
  unfolding after_condition
  after_condition-Judged c cs r after x rest named here (inl (absent, same, fails)) next h =
      absurd (named absent)
  after_condition-Judged c cs r after (r', true) rest named here (inr (op, display, there, same))
        next h =
      Judged-cons c cs r after display true (here ∙ ap (λ (s : Result). some (s, true)) same)
        (next (add_condition_result r display true) (ap rest (sym same) ∙ h))
  after_condition-Judged c cs r after (r', false) rest named here (inr (op, display, there, same))
        next h =
      Judged-cons c cs r after display false (here ∙ ap (λ (s : Result). some (s, false)) same) (
        next (record (add_condition_result r display false) { success = false })
          (ap (λ (s : Result). rest (record s { success = false })) (sym same) ∙ h))

  evaluate_conditions-Judged :
      (cs : List Text) (r after : Result)
      → All (λ c. operator_of c ≢ none) cs
      → evaluate_conditions lib showing ctx cs r ≡ some after
      → Judged cs r after
  unfolding evaluate_conditions
  evaluate_conditions-Judged [] r after h k =
      subst (Judged [] r) (ap (λ o. value_or o r) k) (Judged-none r)
  evaluate_conditions-Judged (c ∷ cs) r after (named, h) k =
      elim (Option-cases (evaluate lib showing c r ctx)) [
        | inl panicked ↦ let ended = rw (panicked, evaluate_conditions) at k in absurd cc
        | inr (x, there) ↦
            after_condition-Judged c cs r after x
              (λ mid. evaluate_conditions lib showing ctx cs mid) named there
              (evaluate-IsAppended lib showing c r ctx x there)
              (λ mid later. evaluate_conditions-Judged cs mid after h later)
              (rw (there, evaluate_conditions) at k)
      ]

-- What a health check that ends has gone through: the configuration of the UI, the result before the
-- conditions, and the condition results.
pub record Checked (lib : Golib) (readings : Readings) (e : Endpoint) (ctx : Option Gontext)
    (out : Result) : Type 0 where
  pub ui : UiConfig
  pub configured : (processed lib e ctx).0.ui_config ≡ some ui
  pub before : Result
  pub from_call :
      before_conditions lib readings (processed lib e ctx).0 (processed lib e ctx).1 ≡ some before
  pub added : List ConditionResult
  pub evaluated : AreEvaluated lib (showing_of ui) ctx e.conditions before added
  pub judged : out.success ≡ (before.success && all succeeded added)
  pub shown :
      out.condition_results ≡ (if ui.hide_conditions then [] else before.condition_results ++ added)

finish-Checked :
    (lib : Golib) (readings : Readings) (ctx : Option Gontext) (e p : Endpoint) (ui : UiConfig)
    (o : Option Result) (out : Result)
    → p.conditions ≡ e.conditions
    → (processed lib e ctx).0.ui_config ≡ some ui
    → All (λ c. operator_of c ≢ none) e.conditions
    → before_conditions lib readings (processed lib e ctx).0 (processed lib e ctx).1 ≡ o
    → finish lib readings ctx p ui o ≡ some out
    → Checked lib readings e ctx out
unfolding finish clean_up
finish-Checked lib readings ctx e p ui none out same configured named b h = cc
finish-Checked lib readings ctx e p ui (some r) out same configured named b h =
    elim (Option-cases (evaluate_conditions lib (showing_of ui) ctx p.conditions r)) [
      | inl panicked ↦ let ended = rw (panicked, finish) at h in absurd cc
      | inr (after, there) ↦
          let j =
            evaluate_conditions-Judged lib (showing_of ui) ctx e.conditions r after named
              (ap (λ cs. evaluate_conditions lib (showing_of ui) ctx cs r) (sym same) ∙ there) in
          let ended = rw (there, finish) at h in
          record {
            ui = ui;
            configured = configured;
            before = r;
            from_call = b;
            added = j.added;
            evaluated = j.evaluated;
            judged = ap (λ o. (value_or o out).success) (sym ended) ∙ j.judged;
            shown =
                ap (λ o. (value_or o out).condition_results) (sym ended)
                ∙ ap (λ rs. if ui.hide_conditions then [] else rs) j.appended;
          }
    ]

conditions-processed :
    (lib : Golib) (e : Endpoint) (ctx : Option Gontext)
    → (processed lib e ctx).0.conditions ≡ e.conditions
unfolding preprocess_with_context
conditions-processed lib e none = refl
conditions-processed lib e (some ctx) = refl

-- A health check of an endpoint whose conditions have operators, if it ends without a panic, has
-- evaluated each condition, in their order, on the result that the call and the conditions before it
-- left; it is a success exactly if the result of the call is one and all these evaluations succeed,
-- and it shows their condition results behind those of the call, or none where the UI hides them.
pub evaluate_health_with_context-Checked :
    (lib : Golib) (readings : Readings) (e : Endpoint) (ctx : Option Gontext) (out : Result)
    → All (λ c. operator_of c ≢ none) e.conditions
    → evaluate_health_with_context lib readings e ctx ≡ some out
    → Checked lib readings e ctx out
unfolding evaluate_health_with_context
evaluate_health_with_context-Checked lib readings e ctx out named h =
    let p = (processed lib e ctx).0 in
    elim (Option-cases p.ui_config) [
      | inl absent ↦ let ended = rw (absent, evaluate_health_with_context) at h in absurd cc
      | inr (ui, there) ↦
          finish-Checked lib readings ctx e p ui
            (before_conditions lib readings p (processed lib e ctx).1) out
            (conditions-processed lib e ctx) there named refl
            (rw (there, evaluate_health_with_context) at h)
    ]
