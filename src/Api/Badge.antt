-- ===== src/Api/Badge.antt =====
-- The two health badges of app/api/badge.go, over the store of app/storage/store/memory.
-- url.QueryUnescape is a parameter, as is the JSON of the second one.
pub mod Latest
use ecs_gatus_app.Base.{ℕ, ◌+◌, ◌/◌, Option, none, some, List, [], ◌∷◌, ◌++◌, if◌then◌else◌}
use ecs_gatus_app.Base.Int.{pos}
use ecs_gatus_app.Base.Text.{Text, codes, text_eq}
use ecs_gatus_app.Base.Strings.{itoa}
use ecs_gatus_app.Base.Outcome.{Outcome, ok, err, ◌>>=◌}
use ecs_gatus_app.Gontext.{int64, string, Entries, end, entry}
use ecs_gatus_app.Endpoint.{Result, Status}
use ecs_gatus_app.Suite.{SuiteStatus}
use ecs_gatus_app.Memory.Cache.{Cache}
use ecs_gatus_app.Memory.Paging.{EndpointStatusParams, new_endpoint_status_params, with_results}
use ecs_gatus_app.Memory.Store.{
  Store, StoreError, err_endpoint_not_found, err_suite_not_found, err_invalid_time_range,
  get_endpoint_status_by_key,
}
use ecs_gatus_app.Watchdog.Push.{Response}

abbrev pub health_status_up : Text
health_status_up = codes "up"

abbrev pub health_status_down : Text
health_status_down = codes "down"

abbrev pub health_status_unknown : Text
health_status_unknown = codes "?"

unfoldable pub get_badge_color_from_health : Text → Text
unfolding text_eq
get_badge_color_from_health health_status =
    if text_eq health_status health_status_up
    then codes "#40cc11"
    else if text_eq health_status health_status_down
    then codes "#c7130a"
    else codes "#ccb311"

unfoldable pub get_badge_shields_color_from_health : Text → Text
unfolding text_eq
get_badge_shields_color_from_health health_status =
    if text_eq health_status health_status_up
    then codes "brightgreen"
    else if text_eq health_status health_status_down
    then codes "red"
    else codes "yellow"

unfoldable pub value_width : Text → ℕ
unfolding text_eq
value_width health_status =
    if text_eq health_status health_status_up
    then 28
    else if text_eq health_status health_status_down
    then 44
    else if text_eq health_status health_status_unknown
    then 10
    else 0

-- The format of the image, with its verbs replaced in their order.
svg : ℕ → ℕ → Text → Text → Text
unfolding itoa
svg label_width width_of_value color health_status =
    let n : ℕ → Text = λ i. itoa (pos i) in
    let width = label_width + width_of_value in
    let label_x = label_width / 2 in
    let value_x = label_width + width_of_value / 2 in
    codes "<svg xmlns=\"http://www.w3.org/2000/svg\" width=\""
    ++ n width
    ++ codes
        "\" height=\"20\">\n  <linearGradient id=\"b\" x2=\"0\" y2=\"100%\">\n    <stop offset=\"0\" stop-color=\"#bbb\" stop-opacity=\".1\"/>\n    <stop offset=\"1\" stop-opacity=\".1\"/>\n  </linearGradient>\n  <mask id=\"a\">\n    <rect width=\""
    ++ n width
    ++ codes
        "\" height=\"20\" rx=\"3\" fill=\"#fff\"/>\n  </mask>\n  <g mask=\"url(#a)\">\n    <path fill=\"#555\" d=\"M0 0h"
    ++ n label_width
    ++ codes "v20H0z\"/>\n    <path fill=\""
    ++ color
    ++ codes "\" d=\"M"
    ++ n label_width
    ++ codes " 0h"
    ++ n width_of_value
    ++ codes "v20H"
    ++ n label_width
    ++ codes "z\"/>\n    <path fill=\"url(#b)\" d=\"M0 0h"
    ++ n width
    ++ codes
        "v20H0z\"/>\n  </g>\n  <g fill=\"#fff\" text-anchor=\"middle\" font-family=\"DejaVu Sans,Verdana,Geneva,sans-serif\" font-size=\"11\">\n    <text x=\""
    ++ n label_x
    ++ codes
        "\" y=\"15\" fill=\"#010101\" fill-opacity=\".3\">\n      health\n    </text>\n    <text x=\""
    ++ n label_x
    ++ codes "\" y=\"14\">\n      health\n    </text>\n    <text x=\""
    ++ n value_x
    ++ codes "\" y=\"15\" fill=\"#010101\" fill-opacity=\".3\">\n      "
    ++ health_status
    ++ codes "\n    </text>\n    <text x=\""
    ++ n value_x
    ++ codes "\" y=\"14\">\n      "
    ++ health_status
    ++ codes "\n    </text>\n  </g>\n</svg>"

unfoldable pub generate_health_badge_svg : Text → Text
unfolding svg value_width get_badge_color_from_health
generate_health_badge_svg health_status =
    svg 48 (value_width health_status) (get_badge_color_from_health health_status) health_status

unfoldable pub generate_health_badge_shields :
    (Entries → Outcome Text Text) → Text → Outcome Text Text
unfolding get_badge_shields_color_from_health
generate_health_badge_shields marshal health_status = marshal (
    entry (codes "schemaVersion") (int64 (pos 1)) (
      entry (codes "label") (string (codes "gatus")) (
        entry (codes "message") (string health_status) (
          entry (codes "color") (string (get_badge_shields_color_from_health health_status)) end))))

-- The word for the first of the results.
unfoldable pub health_status_of : List Result → Text
health_status_of [] = health_status_unknown
health_status_of (r ∷ rs) = if r.success then health_status_up else health_status_down

-- The response for an error of the store.
unfoldable pub refusal : StoreError → Response
refusal err_endpoint_not_found = record { status = 404; body = codes "endpoint not found" }
refusal err_invalid_time_range = record {
  status = 400;
  body = codes "'from' cannot be older than 'to'";
}
refusal err_suite_not_found = record { status = 500; body = codes "suite not found" }

abbrev pub latest_result : EndpointStatusParams
unfolding new_endpoint_status_params with_results
latest_result = with_results (pos 1) (pos 1) new_endpoint_status_params

unfoldable pub read_status : Outcome StoreError Status → Outcome Response Text
unfolding health_status_of refusal
read_status (err e) = err (refusal e)
read_status (ok st) = ok (health_status_of st.results)

unfoldable pub send_svg : Outcome Response Text → Response
unfolding generate_health_badge_svg
send_svg (err refused) = refused
send_svg (ok health_status) = record {
  status = 200;
  body = generate_health_badge_svg health_status;
}

-- `if err != nil` behind the JSON.
abbrev pub answer_with : Outcome Text Text → Response
answer_with (err e) = record { status = 500; body = e }
answer_with (ok json) = record { status = 200; body = json }

unfoldable pub send_json : (Entries → Outcome Text Text) → Outcome Response Text → Response
unfolding generate_health_badge_shields
send_json marshal (err refused) = refused
send_json marshal (ok health_status) =
    answer_with (generate_health_badge_shields marshal health_status)

module _ (E : Cache Status) (S : Cache SuiteStatus) (query_unescape : Text → Option Text) where
  -- What both handlers begin with.
  unfoldable pub find_health_status : Text → Store E S → Outcome Response Text
  unfolding read_status
  find_health_status parameter s = elim (query_unescape parameter) [
    | none ↦ err (record { status = 400; body = codes "invalid key encoding" })
    | some k ↦ read_status (get_endpoint_status_by_key E S k (some latest_result) s)
  ]

  unfoldable pub health_badge : Text → Store E S → Response
  unfolding find_health_status send_svg
  health_badge parameter s = send_svg (find_health_status parameter s)

  unfoldable pub health_badge_shields : (Entries → Outcome Text Text) → Text → Store E S → Response
  unfolding find_health_status send_json
  health_badge_shields marshal parameter s = send_json marshal (find_health_status parameter s)
