-- ===== src/Condition/Equality/Symmetric.antt =====
-- isEqual as a relation.
use ecs_gatus_app.Base.{
  ◌≡◌, refl, Bool, true, false, Option, none, some, arith, Bool-cases, inl, inr,
}
use ecs_gatus_app.Base.Int.{ℤ}
use ecs_gatus_app.Base.Text.{Text, codes, text_eq, text_eq_iff, text_eq_refl}
use ecs_gatus_app.Base.Numbers.{parse_int}
use ecs_gatus_app.Base.Strings.{has_suffix}
use ecs_gatus_app.Golib.{Golib}
use ecs_gatus_app.Condition.Equality.{
  is_equal, equal_values, compare_numbers, take_off, decide_any, decide_pattern,
}

text_eq-sym : (a b : Text) → text_eq a b ≡ text_eq b a
text_eq-sym a b = ground (arith, text_eq_iff a b, text_eq_iff b a)

compare_numbers-sym :
    (m n : Option ℤ) (same_text : Bool)
    → compare_numbers m n same_text ≡ compare_numbers n m same_text
unfolding compare_numbers
compare_numbers-sym (some m) (some n) t = ground arith
compare_numbers-sym (some m) none t = refl
compare_numbers-sym none (some n) t = refl
compare_numbers-sym none none t = refl

compare_numbers_refl : (m : Option ℤ) → compare_numbers m m true ≡ true
unfolding compare_numbers
compare_numbers_refl (some m) = ground arith
compare_numbers_refl none = refl

equal_values-sym : (a b : Text) → equal_values a b ≡ equal_values b a
unfolding equal_values
equal_values-sym a b =
    rw (text_eq-sym b a) (compare_numbers-sym (parse_int a) (parse_int b) (text_eq a b))

equal_values_refl : (a : Text) → equal_values a a ≡ true
unfolding equal_values
equal_values_refl a = rw (text_eq_refl a) (compare_numbers_refl (parse_int a))

decide_any-sym : (x y : Bool × Text) → decide_any x y ≡ decide_any y x
unfolding decide_any
decide_any-sym (true, a) (true, b) = equal_values-sym a b
decide_any-sym (true, a) (false, b) = refl
decide_any-sym (false, a) (true, b) = refl
decide_any-sym (false, a) (false, b) = equal_values-sym a b

decide_pattern-sym :
    (lib : Golib) (f g : Bool) (x y : Bool × Text)
    → decide_pattern lib f g x y ≡ decide_pattern lib g f y x
unfolding decide_pattern
decide_pattern-sym lib f g (true, a) (true, b) =
    decide_any-sym (take_off (codes "any(") f a) (take_off (codes "any(") g b)
decide_pattern-sym lib f g (true, a) (false, b) = refl
decide_pattern-sym lib f g (false, a) (true, b) = refl
decide_pattern-sym lib f g (false, a) (false, b) =
    decide_any-sym (take_off (codes "any(") f a) (take_off (codes "any(") g b)

-- The two sides of a comparison can be exchanged, functions included.
pub is_equal-sym :
    (lib : Golib) (first second : Text) → is_equal lib first second ≡ is_equal lib second first
unfolding is_equal
is_equal-sym lib first second = elim (Bool-cases (has_suffix first (codes ")"))) [
  | inl f ↦ elim (Bool-cases (has_suffix second (codes ")"))) [
    | inl g ↦
        rw (f, g)
          (decide_pattern-sym lib true true (take_off (codes "pat(") true first)
            (take_off (codes "pat(") true second))
    | inr g ↦
        rw (f, g)
          (decide_pattern-sym lib true false (take_off (codes "pat(") true first)
            (take_off (codes "pat(") false second))
  ]
  | inr f ↦ elim (Bool-cases (has_suffix second (codes ")"))) [
    | inl g ↦
        rw (f, g)
          (decide_pattern-sym lib false true (take_off (codes "pat(") false first)
            (take_off (codes "pat(") true second))
    | inr g ↦ rw (f, g) (equal_values-sym first second)
  ]
]

decide_any_refl : (x : Bool × Text) → decide_any x x ≡ true
unfolding decide_any
decide_any_refl (true, a) = equal_values_refl a
decide_any_refl (false, a) = equal_values_refl a

decide_pattern_refl : (lib : Golib) (f : Bool) (x : Bool × Text) → decide_pattern lib f f x x ≡ true
unfolding decide_pattern
decide_pattern_refl lib f (true, a) = decide_any_refl (take_off (codes "any(") f a)
decide_pattern_refl lib f (false, a) = decide_any_refl (take_off (codes "any(") f a)

-- Every text is equal to itself, a function too.
pub is_equal_refl : (lib : Golib) (first : Text) → is_equal lib first first ≡ true
unfolding is_equal
is_equal_refl lib first = elim (Bool-cases (has_suffix first (codes ")"))) [
  | inl f ↦ rw f (decide_pattern_refl lib true (take_off (codes "pat(") true first))
  | inr f ↦ rw f (equal_values_refl first)
]
