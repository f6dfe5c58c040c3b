-- ===== src/Health/Examples.antt =====
-- A health check over HTTP that is answered with the status 200, and the validation of a DNS
-- endpoint.
use ecs_gatus_app.Base.{◌≡◌, ◌≢◌, inl, refl, true, none, some, [], ◌∷◌}
use ecs_gatus_app.Base.Int.{pos}
use ecs_gatus_app.Base.Text.{codes, text_eq, has_prefix, to_upper, trim_space}
use ecs_gatus_app.Base.Strings.{contains, cut}
use ecs_gatus_app.Base.Outcome.{err}
use ecs_gatus_app.Condition.{operator_of}
use ecs_gatus_app.Endpoint.{Endpoint, Result}
use ecs_gatus_app.Golib.Sample.{lib}
use ecs_gatus_app.Health.Defaults.Accepted.{IsAccepted, validate_and_set_defaults-IsAccepted}
use ecs_gatus_app.Health.Defaults.Windows.{validate_and_set_defaults_keeps_windows}
use ecs_gatus_app.Health.Success.{Checked, evaluate_health_with_context-Checked}
use ecs_gatus_app.Health.{fresh_result, evaluate_health_with_context}
use ecs_gatus_app.Health.Sample.{readings, endpoint, outside, query, queried, query_accepted}

some_dns : query.dns_config ≢ none
some_dns h = cc

no_document : outside.lib.unmarshal [] ≡ err (codes "no JSON")
unfolding text_eq
no_document = refl

validate_and_set_defaults_keeps_windows_example :
    queried.maintenance_windows ≡ query.maintenance_windows
validate_and_set_defaults_keeps_windows_example =
    validate_and_set_defaults_keeps_windows outside query queried (inl some_dns) query_accepted

validate_and_set_defaults-IsAccepted_example : IsAccepted queried
validate_and_set_defaults-IsAccepted_example =
    validate_and_set_defaults-IsAccepted outside (codes "no JSON") query queried no_document
      query_accepted

abbrev site : Endpoint
site = endpoint (codes "https://example.org")

abbrev healthy : Result
healthy = record fresh_result {
  http_status = pos 200;
  hostname = codes "example.org";
  connected = true;
  duration = pos 5_000_000;
  timestamp = 7;
  condition_results = record { condition = codes "[STATUS] == 200"; success = true } ∷ [];
}

site_checked : evaluate_health_with_context lib readings site none ≡ some healthy
unfolding evaluate_health_with_context to_upper trim_space
site_checked = refl

has_operator : operator_of (codes "[STATUS] == 200") ≢ none
unfolding operator_of contains cut has_prefix
has_operator h = cc

evaluate_health_with_context-Checked_example : Checked lib readings site none healthy
evaluate_health_with_context-Checked_example =
    evaluate_health_with_context-Checked lib readings site none healthy (has_operator, tt)
      site_checked
