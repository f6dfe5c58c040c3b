-- ===== src/Condition/Equality.antt =====
-- isEqual of app/config/endpoint/condition.go, with the functions pat and any.
pub mod Symmetric
pub mod Options
use ecs_gatus_app.Base.{
  ℕ, Bool, true, false, ◌&&◌, ◌||◌, Option, none, some, List, [], ◌∷◌, if◌then◌else◌, any,
}
use ecs_gatus_app.Base.Int.{ℤ, eqb_ℤ}
use ecs_gatus_app.Base.Text.{Text, codes, text_eq, has_prefix, trim_space, split}
use ecs_gatus_app.Base.Strings.{has_suffix}
use ecs_gatus_app.Base.Numbers.{parse_int}
use ecs_gatus_app.Golib.{Golib}
use ecs_gatus_app.Pattern.{match}
use ecs_gatus_app.Placeholder.{unwrapped}

-- A text without the function around it, and whether there was one; whether the text ends like a
-- function was found before any function was taken off.
abbrev take_off : Text → Bool → Text → Bool × Text
take_off prefix has_function_suffix s =
    if has_prefix s prefix && has_function_suffix then (true, unwrapped prefix s) else (false, s)

-- One of the options, which commas separate.
unfoldable pub is_one_of : Text → Text → Bool
is_one_of options s = any (λ option. text_eq (trim_space option) s) (split b',' options)

-- What is left when no function decides: integers are compared as numbers, and all else as texts.
compare_numbers : Option ℤ → Option ℤ → Bool → Bool
compare_numbers (some m) (some n) same_text = eqb_ℤ m n
compare_numbers (some m) none same_text = same_text
compare_numbers none n same_text = same_text

unfoldable pub equal_values : Text → Text → Bool
unfolding compare_numbers parse_int text_eq
equal_values first second =
    compare_numbers (parse_int first) (parse_int second) (text_eq first second)

decide_any : Bool × Text → Bool × Text → Bool
unfolding is_one_of equal_values
decide_any (true, options) (false, s) = is_one_of options s
decide_any (false, s) (true, options) = is_one_of options s
decide_any (true, first) (true, second) = equal_values first second
decide_any (false, first) (false, second) = equal_values first second

decide_pattern : Golib → Bool → Bool → Bool × Text → Bool × Text → Bool
unfolding decide_any match
decide_pattern lib f g (true, pattern) (false, s) = match lib pattern s
decide_pattern lib f g (false, s) (true, pattern) = match lib pattern s
decide_pattern lib f g (true, first) (true, second) =
    decide_any (take_off (codes "any(") f first) (take_off (codes "any(") g second)
decide_pattern lib f g (false, first) (false, second) =
    decide_any (take_off (codes "any(") f first) (take_off (codes "any(") g second)

unfoldable pub is_equal : Golib → Text → Text → Bool
unfolding decide_pattern
is_equal lib first second =
    let f = has_suffix first (codes ")") in
    let g = has_suffix second (codes ")") in
    if f || g
    then decide_pattern lib f g (take_off (codes "pat(") f first) (take_off (codes "pat(") g second)
    else equal_values first second
