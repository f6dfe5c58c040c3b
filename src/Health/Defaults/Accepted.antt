-- ===== src/Health/Defaults/Accepted.antt =====
-- What an endpoint that ValidateAndSetDefaults accepts satisfies.
use ecs_gatus_app.Base.{
  ◌≡◌, refl, sym, ap, subst, ◌∙◌, ◌≢◌, true, false, ◌&&◌, Option, none, some, List, [], ◌∷◌, All,
  Bool-cases, Option-cases, inl, inr,
}
use ecs_gatus_app.Base.Int.{ℤ, pos, ltb_ℤ}
use ecs_gatus_app.Base.Text.{Text, is_empty}
use ecs_gatus_app.Base.Outcome.{Outcome, ok, err, bind-ok, ok-injective}
use ecs_gatus_app.Client
use ecs_gatus_app.Condition.{operator_of, has_domain_expiration_placeholder}
use ecs_gatus_app.Condition.Appended.{refused_lem, found_lem, validate_iff}
use ecs_gatus_app.Endpoint.{Endpoint}
use ecs_gatus_app.Endpoint.Parts.{DnsConfig, SshConfig, UiConfig, validate_dns}
use ecs_gatus_app.Golib.{Golib}
use ecs_gatus_app.Health.Kind.{type_of}
use ecs_gatus_app.Health.Defaults.{
  Refusal, Outside, with_dns, with_windows, is_unknown, validate_windows, check_request,
  check_url_endpoint, check_conditions, check_kind, validate_and_set_defaults,
}
use ecs_gatus_app.Health.Defaults.Windows.{Kept, refused_if-ok, validate_and_set_defaults-Prepared}

check_conditions-operators :
    (lib : Golib) (x : Text) (interval : ℤ) (cs : List Text)
    → lib.unmarshal [] ≡ err x
    → check_conditions lib interval cs ≡ none
    → All (λ c. operator_of c ≢ none) cs
unfolding check_conditions
check_conditions-operators lib x interval [] h k = tt
check_conditions-operators lib x interval (c ∷ cs) h k =
    elim (Bool-cases
      (ltb_ℤ interval (pos 300_000_000_000) && has_domain_expiration_placeholder c)) [
        | inl short ↦ let ended = rw (short, check_conditions) at k in absurd cc
        | inr fine ↦ elim (Option-cases (operator_of c)) [
          | inl absent ↦
              let ended =
                rw (check_conditions, fine, validate_iff lib c x h, refused_lem c absent) at k in
              absurd cc
          | inr (op, there) ↦ (
            λ absent. absurd cc,
            check_conditions-operators lib x interval cs h
                (rw (check_conditions, fine, validate_iff lib c x h, found_lem c op there) at k),
          )
        ]
      ]

abbrev Checks : Type 0
Checks = Text × Text × List Text × Text × Option UiConfig × Option Client.Config × Text

-- The fields that check_kind leaves alone.
abbrev fields : Endpoint → Checks
fields e = (e.name, e.url, e.conditions, e.method, e.ui_config, e.client_config, e.group)

with_dns-fields :
    (e g : Endpoint) (o : Outcome _ DnsConfig) → with_dns e o ≡ ok g → fields g ≡ fields e
with_dns-fields e g (ok d) h = ap fields (ok-injective g _ _ h refl)
with_dns-fields e g (err x) h = absurd cc

with_windows-fields :
    (e g : Endpoint) (o : Outcome Refusal _) → with_windows e o ≡ ok g → fields g ≡ fields e
with_windows-fields e g (ok ws) h = ap fields (ok-injective g _ _ h refl)
with_windows-fields e g (err x) h = absurd cc

check_url_endpoint-fields :
    (out : Outside) (e g : Endpoint) → check_url_endpoint out e ≡ ok g → fields g ≡ fields e
unfolding check_url_endpoint check_request
check_url_endpoint-fields out e g h = elim (Bool-cases (is_unknown (type_of e))) [
  | inl unknown ↦ let ended = rw (unknown, check_url_endpoint) at h in absurd cc
  | inr known ↦
      let (f, windows, last) = bind-ok _ _ g (rw (known, check_url_endpoint) at h) in
      ap fields (sym (refused_if-ok _ _ f g last).1)
      ∙ with_windows-fields e f (validate_windows out.load_location e.maintenance_windows) windows
]

check_kind-fields :
    (out : Outside) (e g : Endpoint) (dns : Option DnsConfig) (ssh : Option SshConfig)
    → check_kind out e dns ssh ≡ ok g
    → fields g ≡ fields e
unfolding check_kind
check_kind-fields out e g (some d) ssh h = with_dns-fields e g (validate_dns out.is_query_type d) h
check_kind-fields out e g none (some s) h = ap fields (sym (refused_if-ok _ _ e g h).1)
check_kind-fields out e g none none h = check_url_endpoint-fields out e g h

-- What the health check of an endpoint relies on.
pub record IsAccepted (e : Endpoint) : Type 0 where
  pub has_url : is_empty e.url ≡ false
  pub has_method : is_empty e.method ≡ false
  pub has_conditions : Client.is_set e.conditions ≡ true
  pub has_operators : All (λ c. operator_of c ≢ none) e.conditions
  pub has_ui : e.ui_config ≢ none
  pub has_client : e.client_config ≢ none

-- Where an empty text is no JSON, an accepted endpoint has a URL, a method, at least one condition,
-- an operator in each of its conditions, and configurations of its UI and its client.
pub validate_and_set_defaults-IsAccepted :
    (out : Outside) (x : Text) (e g : Endpoint)
    → out.lib.unmarshal [] ≡ err x
    → validate_and_set_defaults out e ≡ ok g
    → IsAccepted g
validate_and_set_defaults-IsAccepted out x e g h k =
    let (f, prepared, last) = validate_and_set_defaults-Prepared out e g k in
    let same = check_kind-fields out f g f.dns_config f.ssh_config last in
    let same_url : g.url ≡ e.url =
      ap (λ (t : Checks). t.1) same ∙ ap (λ (t : Kept). t.1) prepared.same in
    let same_conditions : g.conditions ≡ e.conditions =
      ap (λ (t : Checks). t.2) same ∙ ap (λ (t : Kept). t.2) prepared.same in
    let same_method : g.method ≡ f.method = ap (λ (t : Checks). t.3) same in
    let same_ui : g.ui_config ≡ f.ui_config = ap (λ (t : Checks). t.4) same in
    let same_client : g.client_config ≡ f.client_config = ap (λ (t : Checks). t.5) same in
    record {
      has_url = subst (λ u. is_empty u ≡ false) (sym same_url) prepared.has_url;
      has_method = subst (λ m. is_empty m ≡ false) (sym same_method) prepared.methodical;
      has_conditions =
          subst (λ cs. Client.is_set cs ≡ true) (sym same_conditions) prepared.some_conditions;
      has_operators =
          subst (λ cs. All (λ c. operator_of c ≢ none) cs) (sym same_conditions)
            (check_conditions-operators out.lib x f.interval e.conditions h
              prepared.good_conditions);
      has_ui = subst (λ c. c ≢ none) (sym same_ui) prepared.ui_there;
      has_client = subst (λ c. c ≢ none) (sym same_client) prepared.client_there;
    }

-- Validating an endpoint leaves its name and its group as they are.
pub validate_and_set_defaults_keeps_name :
    (out : Outside) (e g : Endpoint)
    → validate_and_set_defaults out e ≡ ok g
    → (g.name ≡ e.name) × (g.group ≡ e.group)
validate_and_set_defaults_keeps_name out e g h =
    let (f, prepared, last) = validate_and_set_defaults-Prepared out e g h in
    let same = check_kind-fields out f g f.dns_config f.ssh_config last in
    (
      ap (λ (t : Checks). t.0) same ∙ ap (λ (t : Kept). t.0) prepared.same,
      ap (λ (t : Checks). t.6) same ∙ ap (λ (t : Kept). t.6) prepared.same,
    )
