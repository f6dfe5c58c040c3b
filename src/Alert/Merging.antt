-- ===== src/Alert/Merging.antt =====
-- Whose setting counts, the endpoint's or the provider's default.
use ecs_gatus_app.Base.{◌≡◌, refl, Option, none, some, arith}
use ecs_gatus_app.Alert.{Alert, merge_provider_default_alert_into_endpoint_alert}

-- Merging the same default a second time changes nothing.
pub merge_idem :
    (d : Option Alert) (a : Option Alert)
    → let m = merge_provider_default_alert_into_endpoint_alert d a in
      merge_provider_default_alert_into_endpoint_alert d m ≡ m
unfolding merge_provider_default_alert_into_endpoint_alert
merge_idem none a = refl
merge_idem (some d) none = refl
merge_idem (some d) (some a) = ground arith
