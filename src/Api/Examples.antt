-- ===== src/Api/Examples.antt =====
-- Requests for pages, and for the badge of an endpoint with two results.
use ecs_gatus_app.Base.{◌≡◌, refl, Option, some, List, [], ◌∷◌, true, false, arith, last?, length}
use ecs_gatus_app.Base.Int.{ℤ, pos}
use ecs_gatus_app.Base.Text.{Text, codes, atoi, text_eq, trim_space, to_lower}
use ecs_gatus_app.Base.Outcome.{Outcome, ok}
use ecs_gatus_app.Gontext.{Entries}
use ecs_gatus_app.Endpoint.{Endpoint, Status, zero_result}
use ecs_gatus_app.Key.{convert_group_and_name_to_key, sanitize, replace_separators}
use ecs_gatus_app.Endpoint.Parts.{get_default_config, validate_ui, is_ascending}
use ecs_gatus_app.Health.Sample.{endpoint}
use ecs_gatus_app.Suite.{SuiteStatus}
use ecs_gatus_app.Memory.Cache.{Cache, list_cache}
use ecs_gatus_app.Memory.History.Results.{results_of}
use ecs_gatus_app.Memory.Store.{new_store}
use ecs_gatus_app.Memory.Store.Insertion.{Insertion, inserted_for, insert_all}
use ecs_gatus_app.Api.Pages.{extract_page_and_page_size_from_request}
use ecs_gatus_app.Api.Pages.Accepted.{IsPage, extract_page_and_page_size_from_request-IsPage}
use ecs_gatus_app.Api.Badge.{
  get_badge_color_from_health, health_status_up, health_badge, health_badge_shields, send_svg,
  send_json,
}
use ecs_gatus_app.Api.ResponseTime.{
  badge_colors, thresholds_for, get_badge_color_from_response_time,
}
use ecs_gatus_app.Api.ResponseTime.Shades.{
  number_above, shade, get_badge_color_from_response_time-shade,
}
use ecs_gatus_app.Api.Badge.Latest.{word_for, health_badge-insert_all}

extract_page_and_page_size_from_request-IsPage_example :
    IsPage (pos 100) (extract_page_and_page_size_from_request (codes "-3") (codes "9999") (pos 100))
extract_page_and_page_size_from_request-IsPage_example =
    extract_page_and_page_size_from_request-IsPage (codes "-3") (codes "9999") (pos 100)
      (omega arith) (omega arith)

abbrev E : Cache Status
E = list_cache Status

abbrev S : Cache SuiteStatus
S = list_cache SuiteStatus

abbrev insertions : List Insertion
insertions =
    record {
      now = 0;
      endpoint = endpoint (codes "https://example.org");
      result = record zero_result { success = true };
    }
    ∷ record {
      now = 1;
      endpoint = endpoint (codes "https://example.org");
      result = record zero_result { success = false };
    }
    ∷ []

-- A decoding that leaves the key as it is, and JSON that is empty.
abbrev as_it_is : Text → Option Text
as_it_is s = some s

abbrev no_json : Entries → Outcome Text Text
no_json m = ok []

abbrev page_key : Text
page_key = codes "_site"

last_result_is_shown :
    word_for (last? (results_of (inserted_for page_key insertions))) ≡ ok (codes "down")
unfolding text_eq convert_group_and_name_to_key sanitize replace_separators trim_space to_lower
last_result_is_shown = refl

health_badge-insert_all_example :
    (health_badge E S as_it_is page_key (insert_all E S (new_store E S 2 2) insertions)
      ≡ send_svg (word_for (last? (results_of (inserted_for page_key insertions)))))
    × (health_badge_shields E S as_it_is no_json page_key
          (insert_all E S (new_store E S 2 2) insertions)
        ≡ send_json no_json (word_for (last? (results_of (inserted_for page_key insertions)))))
health_badge-insert_all_example =
    health_badge-insert_all E S as_it_is no_json 1 2 page_key page_key insertions (omega arith)
      (omega arith) refl

-- The default can be above the maximum.
default_above_maximum :
    extract_page_and_page_size_from_request (codes "1") (codes "0") (pos 20) ≡ (pos 1, pos 50)
unfolding extract_page_and_page_size_from_request atoi
default_above_maximum = refl

green_when_up : get_badge_color_from_health health_status_up ≡ codes "#40cc11"
unfolding get_badge_color_from_health
green_when_up = refl

abbrev slow : List Endpoint
slow = endpoint (codes "https://example.org") ∷ []

get_badge_color_from_response_time-shade_example :
    (ts : List ℤ) × (thresholds_for page_key slow ≡ some ts)
    × (length ts ≡ 5)
    × (get_badge_color_from_response_time (pos 340) page_key slow
        ≡ some (shade (number_above (pos 340) ts) badge_colors))
unfolding validate_ui is_ascending
get_badge_color_from_response_time-shade_example =
    get_badge_color_from_response_time-shade (pos 340) page_key slow
      ((get_default_config, get_default_config, refl, refl), tt)
