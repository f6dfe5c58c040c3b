-- ===== src/Base/Numbers.antt =====
-- strconv.ParseInt in base 0 with 64 bits, and the printing of whole seconds by time.Duration.
use Prim.Native.Nat.{ℕ, suc, ◌+◌, ◌-◌, ◌*◌, ◌/◌, ◌%◌}
use mathlib.Core.Bool.{Bool, true, false, not, ◌&&◌, ◌||◌}
use mathlib.Core.Option.{Option, none, some}
use mathlib.Core.List.{[], ◌∷◌, ◌++◌}
use ecs_gatus_app.Base.Tests.{ltb, leb, ◌==◌, if◌then◌else◌}
use ecs_gatus_app.Base.Int.{ℤ, pos, negsuc, sub_ℕ, quot}
use ecs_gatus_app.Base.Text.{Text, lower_char, is_digit}
use ecs_gatus_app.Base.Strings.{itoa}

-- The value of a digit, of which there are 36.
abbrev digit_value : ℕ → Option ℕ
digit_value c =
    if is_digit c
    then some (c - b'0')
    else if leb b'a' (lower_char c) && leb (lower_char c) b'z'
    then some (lower_char c - b'a' + 10)
    else none

-- One more digit, if it is one of the base.
add_digit : ℕ → ℕ → Option ℕ → Option ℕ
add_digit base n none = none
add_digit base n (some d) = if ltb d base then some (n * base + d) else none

-- The loop over the digits, which passes over underscores.
unfoldable pub digits_in : ℕ → ℕ → Text → Option ℕ
unfolding add_digit
digits_in base n [] = some n
digits_in base n (c ∷ s) =
    let same = digits_in base n s in
    let more : Option ℕ = elim (add_digit base n (digit_value c)) [
      | none ↦ none
      | some m ↦ digits_in base m s
    ] in
    if c == b'_' then same else more

-- What underscoreOK has seen last: '^', '0', '_' or '!'.
pub data Seen : Type 0 where
  start : Seen
  digit : Seen
  underscore : Seen
  other : Seen

abbrev is_underscore : Seen → Bool
is_underscore underscore = true
is_underscore x = false

abbrev is_digit_seen : Seen → Bool
is_digit_seen digit = true
is_digit_seen x = false

unfoldable pub underscores_separate : Bool → Seen → Text → Bool
underscores_separate hex seen [] = not (is_underscore seen)
underscores_separate hex seen (c ∷ s) =
    let after_digit = underscores_separate hex digit s in
    let after_underscore = underscores_separate hex underscore s in
    let after_other = underscores_separate hex other s in
    if is_digit c || (hex && leb b'a' (lower_char c) && leb (lower_char c) b'f')
    then after_digit
    else if c == b'_'
    then is_digit_seen seen && after_underscore
    else not (is_underscore seen) && after_other

-- The digits behind the prefix, and the base that the prefix stands for.
abbrev base_prefix : ℕ → Option ℕ
base_prefix c =
    if lower_char c == b'b'
    then some 2
    else if lower_char c == b'o'
    then some 8
    else if lower_char c == b'x'
    then some 16
    else none

abbrev checked : Bool → Option ℕ → Option ℕ
checked true n = n
checked false n = none

prefixed : ℕ → Text → Option ℕ
unfolding digits_in underscores_separate
prefixed base [] = none
prefixed base (c ∷ s) =
    checked (underscores_separate (base == 16) digit (c ∷ s)) (digits_in base 0 (c ∷ s))

-- strconv.ParseUint in base 0. underscoreOK takes off a prefix of two characters too.
unfoldable pub parse_uint : Text → Option ℕ
unfolding digits_in underscores_separate prefixed
parse_uint [] = none
parse_uint (c ∷ []) =
    if c == b'0'
    then some 0
    else checked (underscores_separate false start (c ∷ [])) (digits_in 10 0 (c ∷ []))
parse_uint (c ∷ d ∷ s) =
    if c == b'0'
    then elim (base_prefix d) [
      | none ↦ checked (underscores_separate false start (c ∷ d ∷ s)) (digits_in 8 0 (d ∷ s))
      | some base ↦ prefixed base s
    ]
    else checked (underscores_separate false start (c ∷ d ∷ s)) (digits_in 10 0 (c ∷ d ∷ s))

abbrev in_int64 : Bool → Option ℕ → Option ℤ
in_int64 negative none = none
in_int64 true (some n) = if leb n 9223372036854775808 then some (sub_ℕ 0 n) else none
in_int64 false (some n) = if ltb n 9223372036854775808 then some (pos n) else none

-- strconv.ParseInt(s, 0, 64); none stands for an error.
unfoldable pub parse_int : Text → Option ℤ
unfolding parse_uint
parse_int [] = none
parse_int (c ∷ s) =
    if c == b'-'
    then in_int64 true (parse_uint s)
    else if c == b'+'
    then in_int64 false (parse_uint s)
    else in_int64 false (parse_uint (c ∷ s))

-- The hours and minutes, where there are any, and the seconds.
unfoldable pub clock_text : ℕ → Text
unfolding itoa
clock_text n =
    let seconds = itoa (pos (n % 60)) ++ b's' ∷ [] in
    let minutes = itoa (pos (n / 60 % 60)) ++ (b'm' ∷ seconds) in
    if ltb n 60
    then seconds
    else if ltb n 3600
    then minutes
    else itoa (pos (n / 3600)) ++ (b'h' ∷ minutes)

-- d.Truncate(time.Second).String(), for a duration of d nanoseconds.
unfoldable pub whole_seconds_text : ℤ → Text
unfolding clock_text
whole_seconds_text d = elim (quot d 1000000000) [
  | pos n ↦ clock_text n
  | negsuc n ↦ b'-' ∷ clock_text (suc n)
]
