-- ===== src/Condition/Equality/Options.antt =====
-- What the functions any and pat mean on one side of a comparison.
use ecs_gatus_app.Base.{
  ◌-◌, ◌≡◌, refl, true, false, ◌++◌, length, any, arith, Bool-cases, inl, inr, length-append,
}
use ecs_gatus_app.Base.Text.{Text, codes, text_eq, has_prefix, trim_prefix, trim_space, split}
use ecs_gatus_app.Base.Strings.{has_suffix, trim_suffix}
use ecs_gatus_app.Base.Strings.Laws.{
  append_assoc, has_prefix-append, drop-append, take-append, has_suffix-append,
}
use ecs_gatus_app.Golib.{Golib}
use ecs_gatus_app.Pattern.{match}
use ecs_gatus_app.Placeholder.{unwrapped}
use ecs_gatus_app.Condition.Equality.{is_equal, is_one_of, decide_any, decide_pattern, take_off}

unwrapped-wrapped :
    (prefix inner : Text) → unwrapped prefix (prefix ++ (inner ++ codes ")")) ≡ inner
unfolding trim_prefix trim_suffix
unwrapped-wrapped prefix inner =
    let kept : length (inner ++ codes ")") - 1 ≡ length inner =
      omega (arith, length-append inner (codes ")")) in
    rw
      (
        has_prefix-append prefix (inner ++ codes ")"),
        drop-append prefix (inner ++ codes ")"),
        has_suffix-append inner (codes ")"),
        kept,
      )
      (take-append inner (codes ")"))

function-IsWrapped :
    (prefix inner : Text) → has_suffix (prefix ++ (inner ++ codes ")")) (codes ")") ≡ true
function-IsWrapped prefix inner =
    rw (append_assoc prefix inner (codes ")")) (has_suffix-append (prefix ++ inner) (codes ")"))

take_off-false : (prefix s : Text) → take_off prefix false s ≡ (false, s)
take_off-false prefix s = elim (Bool-cases (has_prefix s prefix)) [
  | inl begins ↦ rw begins refl
  | inr other ↦ rw other refl
]

take_off-function :
    (prefix inner : Text) → take_off prefix true (prefix ++ (inner ++ codes ")")) ≡ (true, inner)
take_off-function prefix inner =
    rw (has_prefix-append prefix (inner ++ codes ")"), unwrapped-wrapped prefix inner) refl

-- A text that does not end with a parenthesis equals a function any if one of the options that its
-- commas separate is that text, without the white space around it.
pub is_equal-any :
    (lib : Golib) (options s : Text)
    → has_suffix s (codes ")") ≡ false
    → is_equal lib (codes "any(" ++ (options ++ codes ")")) s
      ≡ any (λ option. text_eq (trim_space option) s) (split b',' options)
unfolding is_equal decide_pattern decide_any is_one_of has_prefix
is_equal-any lib options s h =
    rw (function-IsWrapped (codes "any(") options, h)
      (rw
        (
          take_off-false (codes "pat(") s,
          h,
          take_off-false (codes "any(") s,
          function-IsWrapped (codes "any(") options,
          unwrapped-wrapped (codes "any(") options,
        )
        refl)

-- Such a text equals a function pat if it matches the pattern.
pub is_equal-pat :
    (lib : Golib) (pattern s : Text)
    → has_suffix s (codes ")") ≡ false
    → is_equal lib (codes "pat(" ++ (pattern ++ codes ")")) s ≡ match lib pattern s
unfolding is_equal decide_pattern
is_equal-pat lib pattern s h =
    rw (function-IsWrapped (codes "pat(") pattern, h)
      (rw (take_off-false (codes "pat(") s, take_off-function (codes "pat(") pattern) refl)
