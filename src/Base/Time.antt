-- ===== src/Base/Time.antt =====
-- What the program uses of Go's package time. An instant is the number of nanoseconds since Go's
-- zero time (year 1, UTC), a duration an integer of nanoseconds. Instants before year 1 do not
-- occur: `add` stops there.
use Prim.Native.Nat.{ℕ, ◌*◌, ◌/◌}
use mathlib.Core.Bool.{Bool}
use ecs_gatus_app.Base.Tests.{ltb, if◌then◌else◌}
use ecs_gatus_app.Base.Int.{ℤ, pos, negsuc, pos_part, sub_ℕ, ◌+ℤ◌, ltb_ℤ, quot}

abbrev pub Time : Type 0
Time = ℕ

abbrev pub second : ℕ
second = 1_000_000_000

abbrev pub hour : ℕ
hour = 3_600_000_000_000

-- t.Add(d).
abbrev pub add : Time → ℤ → Time
add t d = pos_part (pos t +ℤ d)

-- The duration nearest to an exact difference: Go's Sub saturates.
abbrev pub saturate : ℤ → ℤ
saturate d =
    if ltb_ℤ (pos 9223372036854775807) d
    then pos 9223372036854775807
    else if ltb_ℤ d (negsuc 9223372036854775807)
    then negsuc 9223372036854775807
    else d

-- t.Sub(u). time.Since(u) is this at the current instant.
unfoldable pub sub : Time → Time → ℤ
sub t u = saturate (sub_ℕ t u)

-- t.Truncate(time.Hour).
abbrev pub truncate_hour : Time → Time
truncate_hour t = t / hour * hour

-- t.Unix(): seconds since 1970, which is 62135596800 seconds after the zero time.
abbrev pub unix : Time → ℤ
unix t = sub_ℕ (t / second) 62_135_596_800

-- d.Milliseconds().
abbrev pub milliseconds : ℤ → ℤ
milliseconds d = quot d 1_000_000

-- t.After(u), t.Before(u).
abbrev pub after : Time → Time → Bool
after t u = ltb u t

abbrev pub before : Time → Time → Bool
before t u = ltb t u
