-- ===== src/Base/Text.antt =====
-- Go strings as lists of their bytes, and what the program uses of Go's package strings. The
-- functions on case and white space know those of ASCII only.
use Prim.Native.Nat.{ℕ, ◌+◌, ◌-◌, ◌*◌}
use Prim.Native.Char.{code}
use Prim.Native.String.{String}
use mathlib.Core.Path.{◌≡◌, refl}
use mathlib.Core.Logic.{◌↔◌}
use mathlib.Core.Bool.{Bool, true, false, ◌&&◌, ◌||◌}
use mathlib.Core.Option.{Option, none, some}
use mathlib.Core.List.{List, [], ◌∷◌, ◌++◌, map}
use native.Mathlib.Omega.{arith}
use ecs_gatus_app.Base.Tests.{ltb, leb, ◌==◌, if◌then◌else◌}
use ecs_gatus_app.Base.Lists.{length, drop, any}
use ecs_gatus_app.Base.Int.{ℤ, pos, sub_ℕ, ◌<ℤ◌}

abbrev pub Text : Type 0
Text = List ℕ

-- A literal, in ASCII: its bytes.
abbrev pub codes : String → Text
codes String.[] = []
codes (String.◌∷◌ c s) = code c ∷ codes s

-- `a == b` on strings.
unfoldable pub text_eq : Text → Text → Bool
text_eq [] [] = true
text_eq [] (d ∷ t) = false
text_eq (c ∷ s) [] = false
text_eq (c ∷ s) (d ∷ t) = c == d && text_eq s t

-- `a < b` on strings: by the first code that differs.
unfoldable pub text_lt : Text → Text → Bool
text_lt s [] = false
text_lt [] (d ∷ t) = true
text_lt (c ∷ s) (d ∷ t) = ltb c d || (c == d && text_lt s t)

-- strings.HasPrefix.
unfoldable pub has_prefix : Text → Text → Bool
has_prefix s [] = true
has_prefix [] (p ∷ ps) = false
has_prefix (c ∷ s) (p ∷ ps) = c == p && has_prefix s ps

-- strings.TrimPrefix.
unfoldable pub trim_prefix : Text → Text → Text
unfolding has_prefix
trim_prefix s p = if has_prefix s p then drop (length p) s else s

-- strings.ContainsAny.
unfoldable pub contains_any : Text → Text → Bool
contains_any s chars = any (λ c. any (λ d. c == d) chars) s

-- unicode.IsSpace and unicode.ToLower on ASCII.
abbrev pub is_space : ℕ → Bool
is_space c = (leb 9 c && leb c 13) || c == 32

abbrev pub lower_char : ℕ → ℕ
lower_char c = if leb b'A' c && leb c b'Z' then c + 32 else c

abbrev pub upper_char : ℕ → ℕ
upper_char c = if leb b'a' c && leb c b'z' then c - 32 else c

-- strings.ToLower, strings.ToUpper.
unfoldable pub to_lower : Text → Text
to_lower s = map lower_char s

unfoldable pub to_upper : Text → Text
to_upper s = map upper_char s

unfoldable pub trim_left : Text → Text
trim_left [] = []
trim_left (c ∷ s) = let rest = trim_left s in if is_space c then rest else c ∷ s

abbrev pub is_empty : Text → Bool
is_empty [] = true
is_empty (c ∷ s) = false

unfoldable pub trim_right : Text → Text
trim_right [] = []
trim_right (c ∷ s) = let rest = trim_right s in if is_space c && is_empty rest then [] else c ∷ rest

-- strings.TrimSpace.
unfoldable pub trim_space : Text → Text
unfolding trim_left trim_right
trim_space s = trim_right (trim_left s)

-- strings.ReplaceAll of one character by another.
unfoldable pub replace_char : ℕ → ℕ → Text → Text
replace_char old new s = map (λ c. if c == old then new else c) s

pub text_eq_iff : (a b : Text) → (text_eq a b ≡ true) ↔ (a ≡ b)
unfolding text_eq
text_eq_iff [] [] = ground arith
text_eq_iff [] (d ∷ t) = ground arith
text_eq_iff (c ∷ s) [] = ground arith
text_eq_iff (c ∷ s) (d ∷ t) = ground (arith, text_eq_iff s t)

pub text_eq_refl : (a : Text) → text_eq a a ≡ true
text_eq_refl a = (text_eq_iff a a).1 refl

-- What strconv.Atoi makes of the digits behind the sign: none for an empty text or another sign.
abbrev pub is_digit : ℕ → Bool
is_digit c = leb b'0' c && leb c b'9'

unfoldable pub digits_from : ℕ → Text → Option ℕ
digits_from acc [] = some acc
digits_from acc (c ∷ s) =
    let rest = digits_from (acc * 10 + (c - b'0')) s in if is_digit c then rest else none

unfoldable pub digits : Text → Option ℕ
unfolding digits_from
digits [] = none
digits (c ∷ s) = digits_from 0 (c ∷ s)

in_range : Bool → Option ℕ → Option ℤ
in_range negative none = none
in_range true (some n) = if leb n 9223372036854775808 then some (sub_ℕ 0 n) else none
in_range false (some n) = if ltb n 9223372036854775808 then some (pos n) else none

-- strconv.Atoi; none stands for an error.
unfoldable pub atoi : Text → Option ℤ
unfolding digits in_range
atoi [] = none
atoi (c ∷ s) =
    if c == b'-'
    then in_range true (digits s)
    else if c == b'+'
    then in_range false (digits s)
    else in_range false (digits (c ∷ s))

-- What Atoi reads fits Go's int.
in_range_lt :
    (negative : Bool) (o : Option ℕ) (n : ℤ)
    → in_range negative o ≡ some n
    → n <ℤ pos 9223372036854775808
unfolding in_range
in_range_lt negative none n h = ground arith
in_range_lt true (some m) n h = ground arith
in_range_lt false (some m) n h = ground arith

pub atoi_lt : (s : Text) (n : ℤ) → atoi s ≡ some n → n <ℤ pos 9223372036854775808
unfolding atoi
atoi_lt [] n h = ground arith
atoi_lt (c ∷ s) n h =
    let minus = in_range_lt true (digits s) n in
    let plus = in_range_lt false (digits s) n in
    let unsigned = in_range_lt false (digits (c ∷ s)) n in ground arith

-- strings.Split by one character: the parts between its occurrences, at least one.
abbrev cons_to_first : ℕ → List Text → List Text
cons_to_first c [] = (c ∷ []) ∷ []
cons_to_first c (part ∷ parts) = (c ∷ part) ∷ parts

unfoldable pub split : ℕ → Text → List Text
split sep [] = [] ∷ []
split sep (c ∷ s) =
    let parts = split sep s in if c == sep then [] ∷ parts else cons_to_first c parts

-- strings.Join.
unfoldable pub join : Text → List Text → Text
join sep [] = []
join sep (part ∷ []) = part
join sep (part ∷ next ∷ parts) = part ++ (sep ++ join sep (next ∷ parts))
