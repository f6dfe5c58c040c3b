-- ===== src/Health/Kind.antt =====
-- The questions that app/config/endpoint/endpoint.go answers from the configuration of an endpoint.
use ecs_gatus_app.Base.{Bool, true, ◌||◌, none, some, List, if◌then◌else◌, any, value_or}
use ecs_gatus_app.Base.Text.{Text, codes, text_eq, has_prefix, to_lower}
use ecs_gatus_app.Base.Strings.{contains}
use ecs_gatus_app.Endpoint.{Endpoint}
use ecs_gatus_app.Condition.{
  has_body_placeholder, has_domain_expiration_placeholder, has_ip_placeholder,
}

unfoldable pub is_enabled : Endpoint → Bool
is_enabled e = value_or e.enabled true

pub data EndpointType : Type 0 where
  type_dns : EndpointType
  type_tcp : EndpointType
  type_sctp : EndpointType
  type_udp : EndpointType
  type_icmp : EndpointType
  type_starttls : EndpointType
  type_tls : EndpointType
  type_http : EndpointType
  type_grpc : EndpointType
  type_ws : EndpointType
  type_ssh : EndpointType
  type_unknown : EndpointType

-- The cases of Type on the URL, in their order.
unfoldable pub type_of_url : Text → EndpointType
unfolding has_prefix
type_of_url url =
    if has_prefix url (codes "tcp://")
    then type_tcp
    else if has_prefix url (codes "sctp://")
    then type_sctp
    else if has_prefix url (codes "udp://")
    then type_udp
    else if has_prefix url (codes "icmp://")
    then type_icmp
    else if has_prefix url (codes "starttls://")
    then type_starttls
    else if has_prefix url (codes "tls://")
    then type_tls
    else if has_prefix url (codes "http://") || has_prefix url (codes "https://")
    then type_http
    else if has_prefix url (codes "grpc://") || has_prefix url (codes "grpcs://")
    then type_grpc
    else if has_prefix url (codes "ws://") || has_prefix url (codes "wss://")
    then type_ws
    else if has_prefix url (codes "ssh://")
    then type_ssh
    else type_unknown

unfoldable pub type_of : Endpoint → EndpointType
unfolding type_of_url
type_of e = elim e.dns_config [ some d ↦ type_dns | none ↦ type_of_url e.url ]

-- strings.EqualFold on ASCII.
abbrev pub equal_fold : Text → Text → Bool
equal_fold a b = text_eq (to_lower a) (to_lower b)

unfoldable pub has_header : List (Text × Text) → Text → Bool
has_header headers name = any (λ (h : Text × Text). equal_fold h.0 name) headers

unfoldable pub needs_to_read_body : Endpoint → Bool
unfolding has_body_placeholder
needs_to_read_body e =
    any has_body_placeholder e.conditions
    || any (λ (entry : Text × Text). contains entry.1 (codes "[BODY]")) e.store

unfoldable pub needs_to_retrieve_domain_expiration : Endpoint → Bool
unfolding has_domain_expiration_placeholder
needs_to_retrieve_domain_expiration e = any has_domain_expiration_placeholder e.conditions

unfoldable pub needs_to_retrieve_ip : Endpoint → Bool
unfolding has_ip_placeholder
needs_to_retrieve_ip e = any has_ip_placeholder e.conditions
