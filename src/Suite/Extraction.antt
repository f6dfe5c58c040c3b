-- ===== src/Suite/Extraction.antt =====
-- extractValueForStorage of app/config/suite/suite.go: what a placeholder is stored as. A panic of
-- the evaluation of a path is `none`.
use ecs_gatus_app.Base.{
  ℕ, ◌<◌, ◌≡◌, refl, ap, ◌∙◌, Bool, true, false, ◌||◌, Option, none, some, List, [], ◌∷◌, ◌++◌,
  if◌then◌else◌,
}
use ecs_gatus_app.Base.Int.{pos}
use ecs_gatus_app.Base.Text.{Text, codes, text_eq, atoi, to_upper, trim_space}
use ecs_gatus_app.Base.Strings.{has_suffix, trim_suffix, itoa}
use ecs_gatus_app.Base.Strings.Decimal.{atoi-itoa, has_suffix-itoa}
use ecs_gatus_app.Base.Outcome.{Outcome, ok, err}
use ecs_gatus_app.Endpoint.{Result}
use ecs_gatus_app.Gontext.{Value, int64, float64, boolean, string}
use ecs_gatus_app.Golib.{Golib}
use ecs_gatus_app.Placeholder.{Resolution, resolved, failed, panics, resolve_placeholder}

abbrev is_any_of : List Text → Text → Bool
is_any_of [] s = false
is_any_of (t ∷ ts) s = text_eq s t || is_any_of ts s

-- strconv.ParseBool; none stands for an error.
unfoldable pub parse_bool : Text → Option Bool
unfolding text_eq
parse_bool s =
    if is_any_of
      (codes "1" ∷ codes "t" ∷ codes "T" ∷ codes "true" ∷ codes "TRUE" ∷ codes "True" ∷ []) s
    then some true
    else if is_any_of
        (codes "0" ∷ codes "f" ∷ codes "F" ∷ codes "false" ∷ codes "FALSE" ∷ codes "False" ∷ []) s
    then some false
    else none

-- An integer, a floating-point number, a truth value, or the text.
unfoldable pub typed_value : Golib → Text → Value
unfolding atoi parse_bool
typed_value lib t = elim (atoi t) [
  | some n ↦ int64 n
  | none ↦ elim (lib.parse_float t) [
    | some f ↦ float64 f
    | none ↦ elim (parse_bool t) [ some b ↦ boolean b | none ↦ string t ]
  ]
]

abbrev stored : Golib → Resolution → Option (Outcome Text Value)
stored lib panics = none
stored lib (failed e) = some (err e)
stored lib (resolved t) =
    if has_suffix t (codes " (INVALID)")
    then some (err (codes "invalid path: " ++ trim_suffix t (codes " (INVALID)")))
    else some (ok (typed_value lib t))

unfoldable pub extract_value_for_storage : Golib → Text → Result → Option (Outcome Text Value)
unfolding resolve_placeholder has_suffix trim_suffix typed_value
extract_value_for_storage lib placeholder r =
    stored lib (resolve_placeholder lib placeholder r none)

stored-itoa :
    (lib : Golib) (n : ℕ)
    → n < 9223372036854775808
    → stored lib (resolved (itoa (pos n))) ≡ some (ok (int64 (pos n)))
unfolding typed_value
stored-itoa lib n h =
    rw (has_suffix-itoa n b' ' (codes "(INVALID)") refl, typed_value, atoi-itoa n h) refl

resolve_placeholder-status :
    (lib : Golib) (r : Result)
    → resolve_placeholder lib (codes "[STATUS]") r none ≡ resolved (itoa r.http_status)
unfolding resolve_placeholder to_upper trim_space
resolve_placeholder-status lib r = refl

-- The status of a result is stored as the integer that it is, if it is not negative and fits into
-- 64 bits.
extract_value_for_storage-status :
    (lib : Golib) (r : Result) (n : ℕ)
    → n < 9223372036854775808
    → r.http_status ≡ pos n
    → extract_value_for_storage lib (codes "[STATUS]") r ≡ some (ok (int64 (pos n)))
unfolding extract_value_for_storage
extract_value_for_storage-status lib r n h k =
    ap (stored lib) (resolve_placeholder-status lib r ∙ ap (λ m. resolved (itoa m)) k)
    ∙ stored-itoa lib n h
