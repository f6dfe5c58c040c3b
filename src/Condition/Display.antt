-- ===== src/Condition/Display.antt =====
-- formatDuration, prettify and prettifyNumericalParameters of app/config/endpoint/condition.go.
use ecs_gatus_app.Base.{Bool, ◌&&◌, ◌||◌, none, some, ◌∷◌, ◌++◌, if◌then◌else◌, length, take, ltb}
use ecs_gatus_app.Base.Int.{ℤ, pos, i64, ◌*ℤ◌}
use ecs_gatus_app.Base.Text.{Text, codes, text_eq, has_prefix}
use ecs_gatus_app.Base.Strings.{has_suffix, trim_suffix, itoa}
use ecs_gatus_app.Base.Numbers.{whole_seconds_text}
use ecs_gatus_app.Golib.{Golib}
use ecs_gatus_app.Placeholder.{invalid}

-- formatDuration.
unfoldable pub format_duration : ℤ → Text
unfolding whole_seconds_text has_suffix trim_suffix text_eq
format_duration d =
    let s = whole_seconds_text d in
    if text_eq s (codes "0s")
    then codes "0s"
    else if has_suffix s (codes "0s")
    then trim_suffix (trim_suffix s (codes "0s")) (codes "0m")
    else s

-- One side of a condition, and what it is resolved to.
pub record Side : Type 0 where
  pub parameter : Text
  pub shown : Text

-- A long value that a pattern is compared with is cut.
abbrev is_pattern : Text → Bool
is_pattern s = has_prefix s (codes "pat(") && has_suffix s (codes ")")

abbrev truncated : Text → Side → Side
truncated pattern side = record side {
  shown =
      if is_pattern pattern && ltb 25 (length side.shown)
      then take 25 side.shown ++ codes "...(truncated)"
      else side.shown;
}

abbrev format_side : Side → Text
format_side side =
    if text_eq side.shown (invalid side.parameter)
    then side.shown
    else if text_eq side.parameter side.shown
    then side.parameter
    else side.parameter ++ (codes " (" ++ (side.shown ++ codes ")"))

unfoldable pub prettify : Side → Side → Text → Text
unfolding has_prefix has_suffix text_eq
prettify left right operator =
    format_side (truncated right.parameter left)
    ++ (b' ' ∷ (operator ++ (b' ' ∷ format_side (truncated left.parameter right))))

-- The text that stands for a number that a parameter is resolved to.
abbrev shown_number : Golib → Text → ℤ → Text
shown_number lib parameter n =
    let duration = format_duration (i64 (n *ℤ pos 1000000)) in
    if text_eq parameter (codes "[CERTIFICATE_EXPIRATION]")
      || text_eq parameter (codes "[DOMAIN_EXPIRATION]")
    then duration
    else elim (lib.parse_duration parameter) [ some d ↦ duration | none ↦ itoa n ]

unfoldable pub prettify_numerical_parameters : Golib → Text → Text → ℤ → ℤ → Text → Text
unfolding prettify format_duration
prettify_numerical_parameters lib p q m n operator =
    prettify (record { parameter = p; shown = shown_number lib p m })
      (record { parameter = q; shown = shown_number lib q n }) operator
