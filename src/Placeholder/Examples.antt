-- ===== src/Placeholder/Examples.antt =====
-- Placeholders of a result whose body is [1].
use ecs_gatus_app.Base.{◌≡◌, false, none}
use ecs_gatus_app.Base.Text.{codes}
use ecs_gatus_app.Endpoint.{Result, zero_result}
use ecs_gatus_app.Golib.Sample.{lib}
use ecs_gatus_app.Placeholder.{resolve_placeholder}
use ecs_gatus_app.Placeholder.Resolved.{is_failed, is_failed-resolve_placeholder}

abbrev result : Result
result = record zero_result { body = codes "[1]" }

is_failed-resolve_placeholder_example :
    is_failed (resolve_placeholder lib (codes "len([BODY])") result none) ≡ false
is_failed-resolve_placeholder_example =
    is_failed-resolve_placeholder lib (codes "len([BODY])") result none
