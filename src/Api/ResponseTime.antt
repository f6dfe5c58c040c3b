-- ===== src/Api/ResponseTime.antt =====
-- The colour of the response time badge of app/api/badge.go, and the search for the endpoint in
-- app/config/config.go. none stands for a panic: a nil pointer, or an index out of range.
pub mod Shades
use ecs_gatus_app.Base.{Option, none, some, List, [], ◌∷◌, if◌then◌else◌}
use ecs_gatus_app.Base.Int.{ℤ, leb_ℤ}
use ecs_gatus_app.Base.Text.{Text, codes, text_eq, to_lower}
use ecs_gatus_app.Endpoint.{Endpoint, key}
use ecs_gatus_app.Endpoint.Parts.{UiConfig, get_default_config}

abbrev pub badge_colors : List Text
badge_colors =
    codes "#40cc11" ∷ codes "#94cc11" ∷ codes "#ccd311" ∷ codes "#ccb311" ∷ codes "#cc8111" ∷ []

abbrev pub badge_color_hex_very_bad : Text
badge_color_hex_very_bad = codes "#c7130a"

unfoldable pub get_endpoint_by_key : Text → List Endpoint → Option Endpoint
unfolding text_eq to_lower
get_endpoint_by_key k [] = none
get_endpoint_by_key k (ep ∷ eps) =
    let rest = get_endpoint_by_key k eps in if text_eq (key ep) (to_lower k) then some ep else rest

abbrev pub join_badge : Option (Option (List ℤ)) → Option (List ℤ)
join_badge none = none
join_badge (some response_time) = response_time

-- Badge.ResponseTime.Thresholds of a configuration of the UI.
unfoldable pub thresholds_of : Option UiConfig → Option (List ℤ)
thresholds_of none = none
thresholds_of (some c) = join_badge c.badge

unfoldable pub thresholds_for : Text → List Endpoint → Option (List ℤ)
unfolding get_endpoint_by_key thresholds_of
thresholds_for k endpoints = elim (get_endpoint_by_key k endpoints) [
  | none ↦ thresholds_of (some get_default_config)
  | some ep ↦ thresholds_of ep.ui_config
]

-- The loop, from one of the colours on.
unfoldable pub color_of : ℤ → List ℤ → List Text → Option Text
color_of response_time thresholds [] = some badge_color_hex_very_bad
color_of response_time [] (color ∷ colors) = none
color_of response_time (threshold ∷ thresholds) (color ∷ colors) =
    let rest = color_of response_time thresholds colors in
    if leb_ℤ response_time threshold then some color else rest

unfoldable pub get_badge_color_from_response_time : ℤ → Text → List Endpoint → Option Text
unfolding thresholds_for color_of
get_badge_color_from_response_time response_time k endpoints = elim (thresholds_for k endpoints) [
  | none ↦ none
  | some thresholds ↦ color_of response_time thresholds badge_colors
]
