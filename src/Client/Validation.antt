-- ===== src/Client/Validation.antt =====
-- What an accepted configuration of a client satisfies.
use ecs_gatus_app.Base.{
  ◌≡◌, ◌≢◌, subst, refl, ◌∙◌, ap, ◌⊎◌, inl, inr, Option, none, some, arith, Bool-cases,
  Option-cases,
}
use ecs_gatus_app.Base.Int.{ℤ, pos, ltb_ℤ}
use ecs_gatus_app.Base.Text.{Text, atoi}
use ecs_gatus_app.Base.Outcome.{Outcome, Outcome-cases, ok, err, ◌>>◌, ok-injective}
use ecs_gatus_app.Client.Resolver.{DnsResolverConfig, find_resolver}
use ecs_gatus_app.Client.{
  Config, ClientError, err_invalid_client_tls_config, parse_dns_resolver, check_port,
  has_custom_dns_resolver, KeyPairs, TlsConfig, OAuth2Config, IapConfig, set_timeout,
  check_dns_resolver, check_oauth2, check_iap, check_tls, tls_is_valid, has_tls_config,
  validate_and_set_defaults,
}

-- Both parts of a sequence succeed.
then-ok :
    {A : Type 0} (o : Outcome ClientError Unit) (k : Outcome ClientError A) (a : A)
    → (o >> k) ≡ ok a
    → (o ≡ ok tt) × (k ≡ ok a)
then-ok (ok tt) k a h = (refl, h)
then-ok (err e) k a h = cc

set_timeout-set_timeout : (c : Config) → set_timeout (set_timeout c) ≡ set_timeout c
unfolding set_timeout
set_timeout-set_timeout c = elim (Bool-cases (ltb_ℤ c.timeout (pos 1_000_000))) [
  | inl low ↦ rw (low, set_timeout) refl
  | inr high ↦ rw (high, set_timeout) (rw (high) refl)
]

-- The checks without the timeout.
abbrev checks : KeyPairs → Config → Outcome ClientError Unit
checks load c =
    check_dns_resolver c
    >> check_oauth2 c.oauth2_config
    >> check_iap c.iap_config
    >> check_tls load c.tls

checks-set_timeout : (load : KeyPairs) (c : Config) → checks load (set_timeout c) ≡ checks load c
unfolding set_timeout check_dns_resolver
checks-set_timeout load c = elim (Bool-cases (ltb_ℤ c.timeout (pos 1_000_000))) [
  | inl low ↦ rw (low) refl
  | inr high ↦ rw (high) refl
]

-- Validating an accepted configuration again accepts it and changes nothing.
pub validate_and_set_defaults_twice :
    (load : KeyPairs) (c d : Config)
    → validate_and_set_defaults load c ≡ ok d
    → validate_and_set_defaults load d ≡ ok d
unfolding validate_and_set_defaults
validate_and_set_defaults_twice load c d h =
    let (checked, same) = then-ok (checks load c) (ok (set_timeout c)) d h in
    let again : validate_and_set_defaults load (set_timeout c) ≡ ok (set_timeout c) =
      rw (checks-set_timeout load c, checked, set_timeout-set_timeout c) refl in
    subst (λ x. validate_and_set_defaults load x ≡ ok x)
      (ok-injective (set_timeout c) d (ok (set_timeout c)) refl same) again

then-err :
    {A : Type 0} (o : Outcome ClientError Unit) (k : Outcome ClientError A) (e : ClientError)
    → (o >> k) ≡ err e
    → (o ≡ err e) ⊎ (k ≡ err e)
then-err (ok tt) k e h = inr h
then-err (err f) k e h = inl cc

check_port_lem :
    (r : DnsResolverConfig) (o : Option ℤ) → check_port r o ≢ err err_invalid_client_tls_config
unfolding check_port
check_port_lem r none h = cc
check_port_lem r (some port) h = ground arith

parse_dns_resolver_lem : (s : Text) → parse_dns_resolver s ≢ err err_invalid_client_tls_config
unfolding parse_dns_resolver
parse_dns_resolver_lem s h = elim (Option-cases (find_resolver s)) [
  | inl absent ↦ let refused = rw (absent, parse_dns_resolver) at h in absurd cc
  | inr (r, there) ↦ check_port_lem r (atoi r.port) (rw (there, parse_dns_resolver) at h)
]

check_dns_resolver_lem : (c : Config) → check_dns_resolver c ≢ err err_invalid_client_tls_config
unfolding check_dns_resolver
check_dns_resolver_lem c h = elim (Bool-cases (has_custom_dns_resolver c)) [
  | inr absent ↦ let accepted = rw (absent, check_dns_resolver) at h in absurd cc
  | inl custom ↦ elim (Outcome-cases (parse_dns_resolver c.dns_resolver)) [
    | inl (r, there) ↦ let accepted = rw (custom, there, check_dns_resolver) at h in absurd cc
    | inr (e, there) ↦
        let ended = rw (custom, there, check_dns_resolver) at h in
        let refused : e ≡ err_invalid_client_tls_config = cc in
        parse_dns_resolver_lem c.dns_resolver (there ∙ ap (λ x. err x) refused)
  ]
]

check_oauth2_lem : (o : Option OAuth2Config) → check_oauth2 o ≢ err err_invalid_client_tls_config
unfolding check_oauth2
check_oauth2_lem none h = cc
check_oauth2_lem (some c) h = ground arith

check_iap_lem : (o : Option IapConfig) → check_iap o ≢ err err_invalid_client_tls_config
unfolding check_iap
check_iap_lem none h = cc
check_iap_lem (some c) h = ground arith

check_tls_lem :
    (load : KeyPairs) (o : Option TlsConfig) → check_tls load o ≢ err err_invalid_client_tls_config
unfolding check_tls has_tls_config tls_is_valid
check_tls_lem load none h = cc
check_tls_lem load (some c) h = ground arith

-- ValidateAndSetDefaults never returns the error for a TLS configuration without both files.
pub validate_and_set_defaults_lem :
    (load : KeyPairs) (c : Config)
    → validate_and_set_defaults load c ≢ err err_invalid_client_tls_config
unfolding validate_and_set_defaults
validate_and_set_defaults_lem load c h = elim (then-err (checks load c) (ok (set_timeout c)) _ h) [
  | inr later ↦ absurd cc
  | inl in_checks ↦ elim (then-err _ (check_tls load c.tls) _ in_checks) [
    | inr in_tls ↦ absurd (check_tls_lem load c.tls in_tls)
    | inl before_tls ↦ elim (then-err _ (check_iap c.iap_config) _ before_tls) [
      | inr in_iap ↦ absurd (check_iap_lem c.iap_config in_iap)
      | inl before_iap ↦
          elim (then-err (check_dns_resolver c) (check_oauth2 c.oauth2_config) _ before_iap) [
            | inr in_oauth2 ↦ absurd (check_oauth2_lem c.oauth2_config in_oauth2)
            | inl in_resolver ↦ absurd (check_dns_resolver_lem c in_resolver)
          ]
    ]
  ]
]
