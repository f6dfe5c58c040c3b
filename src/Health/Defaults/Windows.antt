-- ===== src/Health/Defaults/Windows.antt =====
-- What the steps of ValidateAndSetDefaults keep of an endpoint, and the maintenance windows.
use ecs_gatus_app.Base.{
  ◌≡◌, refl, sym, ap, subst, ◌∙◌, ◌⊎◌, inl, inr, ◌≢◌, true, false, Option, none, some, List,
  Bool-cases, Option-cases,
}
use ecs_gatus_app.Base.Text.{Text, is_empty}
use ecs_gatus_app.Base.Outcome.{Outcome, ok, err, value_of_ok, bind-ok, ok-injective}
use ecs_gatus_app.Client
use ecs_gatus_app.Maintenance
use ecs_gatus_app.Endpoint.{Endpoint}
use ecs_gatus_app.Endpoint.Parts.{DnsConfig, SshConfig, UiConfig, validate_ui, validate_dns}
use ecs_gatus_app.Golib.{Golib}
use ecs_gatus_app.Health.Defaults.{
  Refusal, Outside, refused_if, with_client, with_ui, with_dns, check_name_group_and_alerts,
  check_url, set_client_config, set_ui_config, set_request_defaults, check_conditions,
  check_all_conditions, check_kind, validate_and_set_defaults,
}

abbrev pub Kept : Type 0
Kept =
    Text × Text × List Text × List Maintenance.Config × Option DnsConfig × Option SshConfig × Text

-- The fields that the steps before check_kind leave alone.
abbrev pub kept : Endpoint → Kept
kept e = (e.name, e.url, e.conditions, e.maintenance_windows, e.dns_config, e.ssh_config, e.group)

abbrev pub Keeps : Endpoint → Endpoint → Type 0
Keeps e f = kept f ≡ kept e

pub refused_if-ok :
    {A : Type 0} (refusal : A → Refusal) (x : Option A) (e f : Endpoint)
    → refused_if refusal x e ≡ ok f
    → (x ≡ none) × (e ≡ f)
refused_if-ok refusal none e f h = (refl, ok-injective e f (ok e) refl h)
refused_if-ok refusal (some x) e f h = absurd cc

check_name-Keeps : (e f : Endpoint) → check_name_group_and_alerts e ≡ ok f → Keeps e f
unfolding check_name_group_and_alerts
check_name-Keeps e f h = let (fine, same) = refused_if-ok _ _ _ f h in subst (Keeps e) same refl

check_url-Keeps : (e f : Endpoint) → check_url e ≡ ok f → (is_empty e.url ≡ false) × Keeps e f
unfolding check_url
check_url-Keeps e f h = elim (Bool-cases (is_empty e.url)) [
  | inl missing ↦ let ended = rw (missing, check_url) at h in absurd cc
  | inr there ↦
      (there, subst (Keeps e) (ok-injective e f (check_url e) (rw (check_url, there) refl) h) refl)
]

with_client-Keeps :
    (e f : Endpoint) (o : Outcome Client.ClientError Client.Config)
    → with_client e o ≡ ok f
    → Keeps e f × (f.client_config ≢ none)
with_client-Keeps e f (ok c) h =
    subst (λ x. Keeps e x × (x.client_config ≢ none)) (ok-injective _ f _ refl h)
      (refl, λ absent. absurd cc)
with_client-Keeps e f (err x) h = absurd cc

set_client_config-Keeps :
    (load : Client.KeyPairs) (e f : Endpoint)
    → set_client_config load e ≡ ok f
    → Keeps e f × (f.client_config ≢ none)
unfolding set_client_config
set_client_config-Keeps load e f h = elim (Option-cases e.client_config) [
  | inl absent ↦
      subst (λ x. Keeps e x × (x.client_config ≢ none))
        (ok-injective _ f _ refl (rw (absent, set_client_config) at h)) (refl, λ missing. absurd cc)
  | inr (c, there) ↦
      with_client-Keeps e f (Client.validate_and_set_defaults load c)
        (rw (there, set_client_config) at h)
]

with_ui-Keeps :
    (e f : Endpoint) (o : Outcome _ UiConfig)
    → with_ui e o ≡ ok f
    → Keeps e f × (f.ui_config ≢ none) × (f.client_config ≡ e.client_config)
with_ui-Keeps e f (ok c) h =
    subst (λ x. Keeps e x × (x.ui_config ≢ none) × (x.client_config ≡ e.client_config))
      (ok-injective _ f _ refl h) (refl, λ absent. absurd cc, refl)
with_ui-Keeps e f (err x) h = absurd cc

set_ui_config-Keeps :
    (e f : Endpoint)
    → set_ui_config e ≡ ok f
    → Keeps e f × (f.ui_config ≢ none) × (f.client_config ≡ e.client_config)
unfolding set_ui_config
set_ui_config-Keeps e f h = elim (Option-cases e.ui_config) [
  | inl absent ↦
      subst (λ x. Keeps e x × (x.ui_config ≢ none) × (x.client_config ≡ e.client_config))
        (ok-injective _ f _ refl (rw (absent, set_ui_config) at h))
        (refl, λ missing. absurd cc, refl)
  | inr (c, there) ↦ with_ui-Keeps e f (validate_ui c) (rw (there, set_ui_config) at h)
]

set_request_defaults-Keeps : (e : Endpoint) → Keeps e (set_request_defaults e)
unfolding set_request_defaults
set_request_defaults-Keeps e = refl

-- The conditions that are accepted are some, and the loop found nothing wrong with them.
check_all_conditions-ok :
    (lib : Golib) (e f : Endpoint)
    → check_all_conditions lib e ≡ ok f
    → (Client.is_set e.conditions ≡ true)
      × (check_conditions lib e.interval e.conditions ≡ none)
      × (e ≡ f)
unfolding check_all_conditions
check_all_conditions-ok lib e f h = elim (Bool-cases (Client.is_set e.conditions)) [
  | inr missing ↦ let ended = rw (missing, check_all_conditions) at h in absurd cc
  | inl there ↦
      let (none_wrong, same) = refused_if-ok _ _ e f (rw (there, check_all_conditions) at h) in
      (there, none_wrong, same)
]

-- What is known of an accepted endpoint before its last step.
pub record Prepared (out : Outside) (e f : Endpoint) : Type 0 where
  pub same : Keeps e f
  pub has_url : is_empty e.url ≡ false
  pub some_conditions : Client.is_set e.conditions ≡ true
  pub good_conditions : check_conditions out.lib f.interval e.conditions ≡ none
  pub ui_there : f.ui_config ≢ none
  pub client_there : f.client_config ≢ none
  pub methodical : is_empty f.method ≡ false

request_method : (e : Endpoint) → is_empty (set_request_defaults e).method ≡ false
unfolding set_request_defaults
request_method e = elim (Bool-cases (is_empty e.method)) [
  | inl missing ↦ rw missing refl
  | inr there ↦ rw there there
]

-- The endpoint before the last step of an accepted validation.
pub validate_and_set_defaults-Prepared :
    (out : Outside) (e g : Endpoint)
    → validate_and_set_defaults out e ≡ ok g
    → (f : Endpoint) × Prepared out e f × (check_kind out f f.dns_config f.ssh_config ≡ ok g)
unfolding validate_and_set_defaults set_request_defaults
validate_and_set_defaults-Prepared out e g h =
    let (e5, h5, last) = bind-ok _ _ g h in
    let (e4, h4, judged) = bind-ok _ _ e5 h5 in
    let (e3, h3, shown) = bind-ok _ _ e4 h4 in
    let (e2, h2, client) = bind-ok _ _ e3 h3 in
    let (e1, h1, url) = bind-ok _ _ e2 h2 in
    let named = check_name-Keeps e e1 h1 in
    let (has_url, addressed) = check_url-Keeps e1 e2 url in
    let (connected, client_there) = set_client_config-Keeps out.load_key_pair e2 e3 client in
    let (dressed, ui_there, same_client) = set_ui_config-Keeps e3 e4 shown in
    let (some_conditions, good, same) =
      check_all_conditions-ok out.lib (set_request_defaults e4) e5 judged in
    let early : Keeps e e4 = dressed ∙ (connected ∙ (addressed ∙ named)) in
    let conditions : e4.conditions ≡ e.conditions = ap (λ (k : Kept). k.2) early in
    (
      set_request_defaults e4,
      record {
        same = early;
        has_url = subst (λ u. is_empty u ≡ false) (ap (λ (k : Kept). k.1) named) has_url;
        some_conditions = subst (λ cs. Client.is_set cs ≡ true) conditions some_conditions;
        good_conditions =
            subst (λ cs. check_conditions out.lib (set_request_defaults e4).interval cs ≡ none)
              conditions good;
        ui_there = ui_there;
        client_there = subst (λ c. c ≢ none) (sym same_client) client_there;
        methodical = request_method e4;
      },
      subst (λ x. check_kind out x x.dns_config x.ssh_config ≡ ok g) (sym same) last,
    )

check_dns_windows :
    (e g : Endpoint) (o : Outcome _ DnsConfig)
    → with_dns e o ≡ ok g
    → g.maintenance_windows ≡ e.maintenance_windows
check_dns_windows e g (ok d) h = ap (λ o. (value_of_ok e o).maintenance_windows) (sym h)
check_dns_windows e g (err x) h = absurd cc

check_kind_windows :
    (out : Outside) (e g : Endpoint) (dns : Option DnsConfig) (ssh : Option SshConfig)
    → (dns ≢ none) ⊎ (ssh ≢ none)
    → check_kind out e dns ssh ≡ ok g
    → g.maintenance_windows ≡ e.maintenance_windows
unfolding check_kind
check_kind_windows out e g (some d) ssh h k =
    check_dns_windows e g (validate_dns out.is_query_type d) k
check_kind_windows out e g none (some s) h k =
    ap (λ (x : Endpoint). x.maintenance_windows) (sym (refused_if-ok _ _ e g k).1)
check_kind_windows out e g none none (inl dns) k = absurd (dns refl)
check_kind_windows out e g none none (inr ssh) k = absurd (ssh refl)

-- Of an endpoint with a DNS or an SSH configuration that is accepted, the maintenance windows are
-- neither validated nor given their defaults: they are what was configured.
pub validate_and_set_defaults_keeps_windows :
    (out : Outside) (e g : Endpoint)
    → (e.dns_config ≢ none) ⊎ (e.ssh_config ≢ none)
    → validate_and_set_defaults out e ≡ ok g
    → g.maintenance_windows ≡ e.maintenance_windows
validate_and_set_defaults_keeps_windows out e g kind h =
    let (f, prepared, last) = validate_and_set_defaults-Prepared out e g h in
    let same_dns : f.dns_config ≡ e.dns_config = ap (λ (k : Kept). k.4) prepared.same in
    let same_ssh : f.ssh_config ≡ e.ssh_config = ap (λ (k : Kept). k.5) prepared.same in
    let windows : f.maintenance_windows ≡ e.maintenance_windows =
      ap (λ (k : Kept). k.3) prepared.same in
    check_kind_windows out f g f.dns_config f.ssh_config (rw (same_dns, same_ssh) kind) last
    ∙ windows
