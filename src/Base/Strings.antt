-- ===== src/Base/Strings.antt =====
-- More of Go's package strings, and the reading and printing of integers.
pub mod Laws
pub mod Decimal
use Prim.Native.Nat.{ℕ, zero, suc, ◌+◌, ◌-◌, ◌*◌, ◌/◌, ◌%◌, ◌≤◌}
use mathlib.Core.Path.{◌≡◌, refl}
use mathlib.Core.Bool.{Bool, true, false, not, ◌&&◌, ◌||◌}
use mathlib.Core.Option.{Option, none, some}
use mathlib.Core.List.{List, [], ◌∷◌, ◌++◌}
use native.Mathlib.Omega.{arith}
use ecs_gatus_app.Base.Tests.{ltb, leb, ◌==◌, if◌then◌else◌}
use ecs_gatus_app.Base.Lists.{length, take, drop}
use ecs_gatus_app.Base.Int.{ℤ, pos, negsuc, sub_ℕ}
use ecs_gatus_app.Base.Text.{Text, text_eq, has_prefix, is_empty, is_digit}

-- strings.HasSuffix.
unfoldable pub has_suffix : Text → Text → Bool
unfolding text_eq
has_suffix s t = not (ltb (length s) (length t)) && text_eq (drop (length s - length t) s) t

-- strings.TrimSuffix.
unfoldable pub trim_suffix : Text → Text → Text
unfolding has_suffix
trim_suffix s t = if has_suffix s t then take (length s - length t) s else s

-- A character more in front of the first part.
with_first : ℕ → Option (Text × Text) → Option (Text × Text)
with_first c none = none
with_first c (some (before, after)) = some (c ∷ before, after)

-- What stands before the first occurrence of a separator, and what stands behind it.
unfoldable pub cut : Text → Text → Option (Text × Text)
unfolding has_prefix with_first
cut sep [] = if is_empty sep then some ([], []) else none
cut sep (c ∷ s) =
    let later = cut sep s in
    if has_prefix (c ∷ s) sep then some ([], drop (length sep) (c ∷ s)) else with_first c later

-- strings.Contains.
unfoldable pub contains : Text → Text → Bool
unfolding cut
contains s sep = elim (cut sep s) [ none ↦ false | some parts ↦ true ]

-- strings.Split by a separator that is not empty; `fuel` bounds the parts, see split_by.
split_fuel : ℕ → Text → Text → List Text
split_fuel zero s sep = s ∷ []
split_fuel (suc fuel) s sep = elim (cut sep s) [
  | none ↦ s ∷ []
  | some (before, after) ↦ before ∷ split_fuel fuel after sep
]

-- strings.Split: each separator takes a character of the text at least.
unfoldable pub split_by : Text → Text → List Text
unfolding split_fuel cut
split_by s sep = split_fuel (length s) s sep

-- strings.Replace of the first occurrence.
unfoldable pub replace_first : Text → Text → Text → Text
unfolding cut
replace_first s old new = elim (cut old s) [
  | none ↦ s
  | some (before, after) ↦ before ++ (new ++ after)
]

-- strconv.Itoa of a number that is not negative, with fuel for its digits.
digits_of : ℕ → ℕ → Text → Text
digits_of zero n acc = acc
digits_of (suc fuel) n acc =
    let later = digits_of fuel (n / 10) ((b'0' + n % 10) ∷ acc) in
    if ltb n 10 then (b'0' + n) ∷ acc else later

-- strconv.Itoa and strconv.FormatInt in base 10: 20 digits are enough for 64 bits.
unfoldable pub itoa : ℤ → Text
unfolding digits_of
itoa (pos n) = digits_of 20 n []
itoa (negsuc n) = b'-' ∷ digits_of 20 (suc n) []

-- strconv.FormatBool.
abbrev pub format_bool : Bool → Text
format_bool true = b't' ∷ b'r' ∷ b'u' ∷ b'e' ∷ []
format_bool false = b'f' ∷ b'a' ∷ b'l' ∷ b's' ∷ b'e' ∷ []
