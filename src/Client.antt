-- ===== src/Client.antt =====
-- app/client/config.go: the configuration of a client and its validation. Loading a pair of files
-- with keys, tls.LoadX509KeyPair, is a parameter. The fields that hold a client and a tunnel that
-- are made later are not held here.
pub mod Resolver
pub mod Validation
mod Examples
use ecs_gatus_app.Base.{
  ℕ, Bool, true, false, not, ◌&&◌, ◌||◌, Option, none, some, List, [], ◌∷◌, ◌++◌, if◌then◌else◌,
}
use ecs_gatus_app.Base.Int.{ℤ, pos, ltb_ℤ}
use ecs_gatus_app.Base.Text.{Text, codes, is_empty, atoi}
use ecs_gatus_app.Base.Outcome.{Outcome, ok, err, ◌>>◌, fail_if}
use ecs_gatus_app.Client.Resolver.{DnsResolverConfig, find_resolver}

pub record OAuth2Config : Type 0 where
  pub token_url : Text
  pub client_id : Text
  pub client_secret : Text
  pub scopes : List Text

pub record IapConfig : Type 0 where
  pub audience : Text

pub record TlsConfig : Type 0 where
  pub certificate_file : Text
  pub private_key_file : Text
  pub renegotiation_support : Text

pub record Config : Type 0 where
  pub proxy_url : Text
  pub insecure : Bool
  pub ignore_redirect : Bool
  pub timeout : ℤ
  pub dns_resolver : Text
  pub oauth2_config : Option OAuth2Config
  pub iap_config : Option IapConfig
  pub network : Text
  pub tls : Option TlsConfig
  pub tunnel : Text

-- 10 * time.Second.
abbrev pub default_timeout : ℤ
default_timeout = pos 10_000_000_000

abbrev pub get_default_config : Config
get_default_config = record {
  proxy_url = [];
  insecure = false;
  ignore_redirect = false;
  timeout = default_timeout;
  dns_resolver = [];
  oauth2_config = none;
  iap_config = none;
  network = codes "ip";
  tls = none;
  tunnel = [];
}

pub data ClientError : Type 0 where
  err_invalid_dns_resolver : ClientError
  err_not_a_number : Text → ClientError
  err_invalid_dns_resolver_port : ClientError
  err_invalid_client_oauth2_config : ClientError
  err_invalid_client_iap_config : ClientError
  err_invalid_client_tls_config : ClientError
  err_key_pair : Text → ClientError

-- The port, which the third group of the pattern gives.
check_port : DnsResolverConfig → Option ℤ → Outcome ClientError DnsResolverConfig
check_port r none = err (err_not_a_number r.port)
check_port r (some port) =
    if ltb_ℤ port (pos 1) || ltb_ℤ (pos 65535) port then err err_invalid_dns_resolver_port else ok r

unfoldable pub parse_dns_resolver : Text → Outcome ClientError DnsResolverConfig
unfolding check_port find_resolver atoi
parse_dns_resolver s = elim (find_resolver s) [
  | none ↦ err err_invalid_dns_resolver
  | some r ↦ check_port r (atoi r.port)
]

abbrev pub has_custom_dns_resolver : Config → Bool
has_custom_dns_resolver c = not (is_empty c.dns_resolver)

abbrev pub is_set {ℓ} : {A : Type ℓ} → List A → Bool
is_set [] = false
is_set (x ∷ xs) = true

-- The methods isValid.
unfoldable pub oauth2_is_valid : OAuth2Config → Bool
oauth2_is_valid c =
    is_set c.token_url && is_set c.client_id && is_set c.client_secret && is_set c.scopes

unfoldable pub iap_is_valid : IapConfig → Bool
iap_is_valid c = is_set c.audience

-- Loading the two files: the text of the error, if there is one.
abbrev pub KeyPairs : Type 0
KeyPairs = Text → Text → Option Text

abbrev loaded : Option Text → Outcome ClientError Unit
loaded none = ok tt
loaded (some e) = err (err_key_pair e)

unfoldable pub tls_is_valid : KeyPairs → TlsConfig → Outcome ClientError Unit
tls_is_valid load t =
    if is_set t.certificate_file && is_set t.private_key_file
    then loaded (load t.certificate_file t.private_key_file)
    else err err_invalid_client_tls_config

unfoldable pub has_tls_config : Option TlsConfig → Bool
has_tls_config none = false
has_tls_config (some t) = is_set t.certificate_file && is_set t.private_key_file

check_dns_resolver : Config → Outcome ClientError Unit
unfolding parse_dns_resolver
check_dns_resolver c =
    if has_custom_dns_resolver c
    then elim (parse_dns_resolver c.dns_resolver) [ ok r ↦ ok tt | err e ↦ err e ]
    else ok tt

check_oauth2 : Option OAuth2Config → Outcome ClientError Unit
unfolding oauth2_is_valid
check_oauth2 none = ok tt
check_oauth2 (some c) = fail_if (not (oauth2_is_valid c)) err_invalid_client_oauth2_config

check_iap : Option IapConfig → Outcome ClientError Unit
unfolding iap_is_valid
check_iap none = ok tt
check_iap (some c) = fail_if (not (iap_is_valid c)) err_invalid_client_iap_config

check_tls : KeyPairs → Option TlsConfig → Outcome ClientError Unit
unfolding has_tls_config tls_is_valid
check_tls load none = ok tt
check_tls load (some t) = if has_tls_config (some t) then tls_is_valid load t else ok tt

-- A timeout below a millisecond is replaced, also where an error is returned after that.
unfoldable pub set_timeout : Config → Config
set_timeout c =
    if ltb_ℤ c.timeout (pos 1_000_000) then record c { timeout = default_timeout } else c

unfoldable pub validate_and_set_defaults : KeyPairs → Config → Outcome ClientError Config
unfolding check_dns_resolver check_oauth2 check_iap check_tls set_timeout
validate_and_set_defaults load c =
    check_dns_resolver c
    >> check_oauth2 c.oauth2_config
    >> check_iap c.iap_config
    >> check_tls load c.tls
    >> ok (set_timeout c)
