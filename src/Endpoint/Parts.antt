-- ===== src/Endpoint/Parts.antt =====
-- The sub-configurations of an endpoint: app/config/endpoint/ui/ui.go, dns/dns.go and ssh/ssh.go
-- beside it. The table of the types of DNS queries belongs to the library for DNS: it is a
-- parameter.
use ecs_gatus_app.Base.{
  Bool, true, false, not, ◌&&◌, Option, none, some, List, [], ◌∷◌, ◌++◌, length, ◌==◌,
  if◌then◌else◌,
}
use ecs_gatus_app.Base.Int.{ℤ, pos, ltb_ℤ}
use ecs_gatus_app.Base.Text.{Text, codes, is_empty}
use ecs_gatus_app.Base.Strings.{has_suffix}
use ecs_gatus_app.Base.Outcome.{Outcome, ok, err}

-- A badge whose response time is nil is `some none`.
pub record UiConfig : Type 0 where
  pub hide_conditions : Bool
  pub hide_hostname : Bool
  pub hide_url : Bool
  pub hide_port : Bool
  pub hide_errors : Bool
  pub dont_resolve_failed_conditions : Bool
  pub resolve_successful_conditions : Bool
  pub badge : Option (Option (List ℤ))

abbrev pub default_badge : Option (Option (List ℤ))
default_badge = some (some (pos 50 ∷ pos 200 ∷ pos 300 ∷ pos 500 ∷ pos 750 ∷ []))

abbrev pub get_default_config : UiConfig
get_default_config = record {
  hide_conditions = false;
  hide_hostname = false;
  hide_url = false;
  hide_port = false;
  hide_errors = false;
  dont_resolve_failed_conditions = false;
  resolve_successful_conditions = false;
  badge = default_badge;
}

-- No threshold is below the one before it.
unfoldable pub is_ascending : List ℤ → Bool
is_ascending [] = true
is_ascending (x ∷ []) = true
is_ascending (x ∷ y ∷ xs) = let rest = is_ascending (y ∷ xs) in not (ltb_ℤ y x) && rest

pub data PartError : Type 0 where
  err_invalid_badge_response_time_config : PartError
  nil_response_time : PartError
  err_dns_with_no_query_name : PartError
  err_dns_with_invalid_query_type : PartError
  err_endpoint_without_ssh_username : PartError
  err_endpoint_without_ssh_auth : PartError

-- A badge without a response time panics: `nil_response_time`.
unfoldable pub validate_ui : UiConfig → Outcome PartError UiConfig
unfolding is_ascending
validate_ui c = elim c.badge [
  | none ↦ ok (record c { badge = default_badge })
  | some none ↦ err nil_response_time
  | some (some thresholds) ↦
      if length thresholds == 5 && is_ascending thresholds
      then ok c
      else err err_invalid_badge_response_time_config
]

pub record DnsConfig : Type 0 where
  pub query_type : Text
  pub query_name : Text

unfoldable pub validate_dns : (Text → Bool) → DnsConfig → Outcome PartError DnsConfig
unfolding has_suffix
validate_dns is_query_type d =
    if is_empty d.query_name
    then err err_dns_with_no_query_name
    else if not (is_query_type d.query_type)
    then err err_dns_with_invalid_query_type
    else ok (record d {
      query_name =
          if has_suffix d.query_name (codes ".") then d.query_name else d.query_name ++ codes ".";
    })

pub record SshConfig : Type 0 where
  pub username : Text
  pub password : Text
  pub private_key : Text

unfoldable pub validate_ssh : SshConfig → Option PartError
validate_ssh c =
    if is_empty c.username && is_empty c.password && is_empty c.private_key
    then none
    else if is_empty c.username
    then some err_endpoint_without_ssh_username
    else if is_empty c.password && is_empty c.private_key
    then some err_endpoint_without_ssh_auth
    else none
