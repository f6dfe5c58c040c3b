-- ===== src/Maintenance/StartTime.antt =====
-- The start time of a window, written hh:mm.
use ecs_gatus_app.Base.{
  if◌then◌else◌, ◌⊎◌, ap, ◌∙◌, ℕ, zero, suc, ◌+◌, ◌*◌, ◌/◌, ◌%◌, ◌<◌, ◌≡◌, refl, Bool, true, false,
  [], ◌∷◌, ◌++◌, arith, length, take, drop, ◌==◌, Bool-cases, inl, inr,
}
use ecs_gatus_app.Base.Int.{ℤ, pos}
use ecs_gatus_app.Base.Text.{Text, atoi, trim_prefix}
use ecs_gatus_app.Base.Outcome.{Outcome, ok, err}
use ecs_gatus_app.Maintenance.{
  MaintenanceError, check_start, parse_parts,
  extract_numerical_value_from_potentially_zero_padded_string, hhmm_to_duration,
}

-- Two decimal digits.
abbrev pub two_digits : ℕ → Text
two_digits n = (n / 10 + b'0') ∷ (n % 10 + b'0') ∷ []

abbrev pub IsClockTime : ℤ → Type 0
IsClockTime d =
    (h : ℕ) × (m : ℕ) × (h < 24) × (m < 60) × (d ≡ pos (h * 3_600_000_000_000 + m * 60_000_000_000))

parsed-IsClockTime :
    (a b : Outcome MaintenanceError ℤ) {d : ℤ} → parse_parts a b ≡ ok d → IsClockTime d
unfolding parse_parts check_start
parsed-IsClockTime (err e) b h = ground arith
parsed-IsClockTime (ok x) (err e) h = ground arith
parsed-IsClockTime (ok (ℤ.pos x)) (ok (ℤ.pos y)) h =
    (x, y, ground arith, ground arith, ground arith)
parsed-IsClockTime (ok (ℤ.negsuc x)) (ok y) h = ground arith
parsed-IsClockTime (ok (ℤ.pos x)) (ok (ℤ.negsuc y)) h = ground arith

abbrev first : Text → Outcome MaintenanceError ℤ
first s = extract_numerical_value_from_potentially_zero_padded_string (take 2 s)

abbrev second : Text → Outcome MaintenanceError ℤ
second s = extract_numerical_value_from_potentially_zero_padded_string (take 2 (drop 3 s))

-- A start time is accepted only if it has five bytes, and then it is a time of the day: at
-- most 23 whole hours and 59 whole minutes after midnight.
pub hhmm_to_duration-IsClockTime :
    (s : Text) {d : ℤ} → hhmm_to_duration s ≡ ok d → (length s ≡ 5) × IsClockTime d
unfolding hhmm_to_duration
hhmm_to_duration-IsClockTime s h = elim (Bool-cases (length s == 5)) [
  | inl five ↦ (ground arith, parsed-IsClockTime (first s) (second s) (rw five at h))
  | inr other ↦ ground arith
]

reads_back : ℕ → Bool
reads_back n = elim (extract_numerical_value_from_potentially_zero_padded_string (two_digits n)) [
  | ok (ℤ.pos m) ↦ m == n
  | _ ↦ false
]

-- The numbers below a bound, written with two digits, are read back.
two_digits_read : ℕ → Bool
two_digits_read zero = true
two_digits_read (suc bound) = if reads_back bound then two_digits_read bound else false

two_digits_read_lem :
    (bound : ℕ) → two_digits_read bound ≡ true → (n : ℕ) → n < bound → reads_back n ≡ true
unfolding two_digits_read
two_digits_read_lem zero h n small = absurd (omega arith)
two_digits_read_lem (suc bound) h n small =
    let reach : (n < bound) ⊎ (n ≡ bound) = ground arith in
    let last : reads_back bound ≡ true = ground (arith, h) in
    elim reach [
      | inl earlier ↦ two_digits_read_lem bound (ground (arith, h)) n earlier
      | inr same ↦ ap reads_back same ∙ last
    ]

below_sixty : two_digits_read 60 ≡ true
unfolding two_digits_read reads_back extract_numerical_value_from_potentially_zero_padded_string
    atoi trim_prefix
below_sixty = refl

extract-two_digits :
    (n : ℕ)
    → n < 60
    → extract_numerical_value_from_potentially_zero_padded_string (two_digits n) ≡ ok (pos n)
unfolding reads_back
extract-two_digits n h = ground (arith, two_digits_read_lem 60 below_sixty n h)

checked :
    (h m : ℕ)
    → h < 24
    → m < 60
    → parse_parts (ok (pos h)) (ok (pos m)) ≡ ok (pos (h * 3_600_000_000_000 + m * 60_000_000_000))
unfolding parse_parts
checked h m p q = ground arith

-- Every time of the day, written hh:mm with two digits each and any ASCII character between them,
-- is accepted and stands for that many hours and minutes.
pub hhmm_to_duration-two_digits :
    (h m c : ℕ)
    → h < 24
    → m < 60
    → c < 128
    → hhmm_to_duration (two_digits h ++ c ∷ two_digits m)
      ≡ ok (pos (h * 3_600_000_000_000 + m * 60_000_000_000))
unfolding hhmm_to_duration
hhmm_to_duration-two_digits h m c p q ascii =
    rw (extract-two_digits h (omega arith), extract-two_digits m q) (checked h m p q)
