-- ===== src/Condition/Examples.antt =====
-- Conditions on a result with the status 200.
use ecs_gatus_app.Base.{◌≡◌, refl, false, none, some, any}
use ecs_gatus_app.Base.Int.{pos}
use ecs_gatus_app.Base.Text.{codes, text_eq, split, trim_space, has_prefix}
use ecs_gatus_app.Base.Strings.{contains, cut, has_suffix, trim_suffix, itoa}
use ecs_gatus_app.Endpoint.{Result, zero_result, add_error}
use ecs_gatus_app.Golib.Sample.{lib}
use ecs_gatus_app.Condition.Equality.{is_equal}
use ecs_gatus_app.Condition.Equality.Options.{is_equal-any}
use ecs_gatus_app.Condition.Display.{format_duration}
use ecs_gatus_app.Base.Numbers.{whole_seconds_text, clock_text}
use ecs_gatus_app.Condition.Equality.Symmetric.{is_equal-sym}
use ecs_gatus_app.Condition.Appended.{IsAppended, refusal_of, evaluate-IsAppended, validate_iff}
use ecs_gatus_app.Condition.{Showing, operator_of, evaluate, validate}

abbrev result : Result
result = record zero_result { http_status = pos 200 }

abbrev showing : Showing
showing = record { dont_resolve_failed_conditions = false; resolve_successful_conditions = false }

is_equal-any_example :
    is_equal lib (codes "any(100, 200)") (codes "200")
    ≡ any (λ option. text_eq (trim_space option) (codes "200")) (split b',' (codes "100, 200"))
unfolding has_suffix
is_equal-any_example = is_equal-any lib (codes "100, 200") (codes "200") refl

is_equal-sym_example :
    is_equal lib (codes "0xC8") (codes "any(100, 200)")
    ≡ is_equal lib (codes "any(100, 200)") (codes "0xC8")
is_equal-sym_example = is_equal-sym lib (codes "0xC8") (codes "any(100, 200)")

-- Only the zero and the unit are cut off, so that ten seconds are shown as "1".
ten_seconds : format_duration (pos 10_000_000_000) ≡ codes "1"
unfolding format_duration whole_seconds_text clock_text itoa has_suffix trim_suffix text_eq
ten_seconds = refl

evaluate-IsAppended_example :
    IsAppended
      (codes "[STATUS]")
      result
      (add_error result (codes "invalid condition: [STATUS]"), false)
unfolding evaluate operator_of contains cut has_prefix add_error
evaluate-IsAppended_example =
    evaluate-IsAppended lib showing (codes "[STATUS]") result none
      (add_error result (codes "invalid condition: [STATUS]"), false) refl

validate_iff_example :
    validate lib (codes "[STATUS] == 200") ≡ some (refusal_of (codes "[STATUS] == 200"))
unfolding text_eq
validate_iff_example = validate_iff lib (codes "[STATUS] == 200") (codes "no JSON") refl
