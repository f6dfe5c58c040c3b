-- ===== src/Base/Strings/Decimal.antt =====
-- Reading what Itoa prints.
use ecs_gatus_app.Base.{
  ℕ, zero, suc, ◌+◌, ◌-◌, ◌*◌, ◌/◌, ◌%◌, ◌<◌, ◌≡◌, refl, ap, sym, ◌∙◌, true, false, some, [], ◌∷◌,
  arith, Bool-cases, inl, inr, ltb, length, drop, All, ◌==◌,
}
use ecs_gatus_app.Base.Int.{pos}
use ecs_gatus_app.Base.Text.{Text, digits, digits_from, atoi, is_digit, text_eq}
use ecs_gatus_app.Base.Strings.{digits_of, itoa, has_suffix}

power_of_ten : ℕ → ℕ
power_of_ten zero = 1
power_of_ten (suc k) = 10 * power_of_ten k

digits_from-digit :
    (a d : ℕ) (s : Text) → d < 10 → digits_from a ((b'0' + d) ∷ s) ≡ digits_from (a * 10 + d) s
unfolding digits_from
digits_from-digit a d s h =
    let there : is_digit (b'0' + d) ≡ true = ground arith in
    let value : a * 10 + (b'0' + d - b'0') ≡ a * 10 + d = omega arith in rw (there, value) refl

digits_from-digits_of :
    (fuel n : ℕ) (s : Text)
    → n < power_of_ten fuel
    → digits_from 0 (digits_of fuel n s) ≡ digits_from n s
unfolding digits_of power_of_ten
digits_from-digits_of zero n s h = ap (λ k. digits_from k s) (omega arith)
digits_from-digits_of (suc fuel) n s h = elim (Bool-cases (ltb n 10)) [
  | inl small ↦
      rw small (digits_from-digit 0 n s (ground arith) ∙ ap (λ k. digits_from k s) (omega arith))
  | inr large ↦
      let less : n / 10 < power_of_ten fuel = omega arith in
      rw large (
        digits_from-digits_of fuel (n / 10) ((b'0' + n % 10) ∷ s) less
        ∙ (digits_from-digit (n / 10) (n % 10) s (omega arith)
            ∙ ap (λ k. digits_from k s) (omega arith)))
]

-- The printed text begins with a digit.
digits_of-first :
    (fuel n : ℕ) (s : Text)
    → (c : ℕ) × (rest : Text) × (digits_of (suc fuel) n s ≡ c ∷ rest) × (is_digit c ≡ true)
unfolding digits_of
digits_of-first zero n s = elim (Bool-cases (ltb n 10)) [
  | inl small ↦ (b'0' + n, s, rw small refl, ground arith)
  | inr large ↦ (b'0' + n % 10, s, rw large refl, ground arith)
]
digits_of-first (suc fuel) n s = elim (Bool-cases (ltb n 10)) [
  | inl small ↦ (b'0' + n, s, rw (small, digits_of) refl, ground arith)
  | inr large ↦
      let (c, rest, e, digit) = digits_of-first fuel (n / 10) ((b'0' + n % 10) ∷ s) in
      (c, rest, rw large e, digit)
]

atoi-digits :
    (c : ℕ) (s : Text)
    → is_digit c ≡ true
    → (n : ℕ) → digits_from 0 (c ∷ s) ≡ some n
    → n < 9223372036854775808
    → atoi (c ∷ s) ≡ some (pos n)
unfolding atoi digits
atoi-digits c s h n k small =
    let not_minus : (c == b'-') ≡ false = ground arith in
    let not_plus : (c == b'+') ≡ false = ground arith in
    let fits : ltb n 9223372036854775808 ≡ true = ground arith in
    rw (not_minus, not_plus, k, fits) refl

-- An integer that is not negative and fits into 64 bits is read back as it is printed.
pub atoi-itoa : (n : ℕ) → n < 9223372036854775808 → atoi (itoa (pos n)) ≡ some (pos n)
unfolding itoa digits_from power_of_ten
atoi-itoa n h =
    let (c, rest, e, digit) = digits_of-first 19 n [] in
    let back = digits_from-digits_of 20 n [] (omega arith) in
    let read : digits_from 0 (c ∷ rest) ≡ some n = ap (digits_from 0) (sym e) ∙ back in
    ap atoi e ∙ atoi-digits c rest digit n read h

abbrev pub AreDigits : Text → Type 0
AreDigits s = All (λ c. is_digit c ≡ true) s

digits_of-AreDigits : (fuel n : ℕ) (s : Text) → AreDigits s → AreDigits (digits_of fuel n s)
unfolding digits_of
digits_of-AreDigits zero n s h = h
digits_of-AreDigits (suc fuel) n s h = elim (Bool-cases (ltb n 10)) [
  | inl small ↦ rw small (ground arith, h)
  | inr large ↦ rw large (digits_of-AreDigits fuel (n / 10) ((b'0' + n % 10) ∷ s) (ground arith, h))
]

drop-AreDigits : (k : ℕ) (s : Text) → AreDigits s → AreDigits (drop k s)
drop-AreDigits zero s h = h
drop-AreDigits (suc k) [] h = h
drop-AreDigits (suc k) (c ∷ s) (digit, h) = drop-AreDigits k s h

text_eq-AreDigits :
    (s t : Text) (d : ℕ) → is_digit d ≡ false → AreDigits s → text_eq s (d ∷ t) ≡ false
unfolding text_eq
text_eq-AreDigits [] t d h k = refl
text_eq-AreDigits (c ∷ s) t d h (digit, k) = ground arith

has_suffix-AreDigits :
    (s t : Text) (d : ℕ) → is_digit d ≡ false → AreDigits s → has_suffix s (d ∷ t) ≡ false
unfolding has_suffix
has_suffix-AreDigits s t d h k =
    let other =
      text_eq-AreDigits (drop (length s - length (d ∷ t)) s) t d h
        (drop-AreDigits (length s - length (d ∷ t)) s k) in
    elim (Bool-cases (ltb (length s) (length (d ∷ t)))) [
      | inl short ↦ rw short refl
      | inr long ↦ rw (long, other) refl
    ]

-- What begins with another character than a digit is no end of a printed integer that is not
-- negative.
pub has_suffix-itoa :
    (n d : ℕ) (t : Text) → is_digit d ≡ false → has_suffix (itoa (pos n)) (d ∷ t) ≡ false
unfolding itoa
has_suffix-itoa n d t h =
    has_suffix-AreDigits (digits_of 20 n []) t d h (digits_of-AreDigits 20 n [] tt)
