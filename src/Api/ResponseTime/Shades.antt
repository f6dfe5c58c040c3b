-- ===== src/Api/ResponseTime/Shades.antt =====
-- The colour by the number of thresholds that a response time is above.
use mathlib.Core.Option.{some-injective}
use ecs_gatus_app.Base.{
  ℕ, suc, ◌≡◌, refl, ap, subst, ◌∙◌, sym, inl, inr, true, ◌&&◌, Option, some, List, [], ◌∷◌, length,
  ◌==◌, arith, if◌then◌else◌, All, Bool-cases, Option-cases,
}
use ecs_gatus_app.Base.Int.{ℤ, pos, ltb_ℤ, leb_ℤ}
use ecs_gatus_app.Base.Text.{Text, text_eq, to_lower}
use ecs_gatus_app.Base.Outcome.{Outcome, ok, err}
use ecs_gatus_app.Endpoint.{Endpoint, key}
use ecs_gatus_app.Endpoint.Parts.{
  UiConfig, PartError, get_default_config, is_ascending, validate_ui,
}
use ecs_gatus_app.Api.ResponseTime.{
  join_badge, badge_colors, badge_color_hex_very_bad, get_endpoint_by_key, thresholds_of,
  thresholds_for, color_of, get_badge_color_from_response_time,
}

-- How many of the thresholds the response time is above.
abbrev pub number_above : ℤ → List ℤ → ℕ
number_above r [] = 0
number_above r (t ∷ ts) = if ltb_ℤ t r then suc (number_above r ts) else number_above r ts

abbrev pub shade : ℕ → List Text → Text
shade n [] = badge_color_hex_very_bad
shade ℕ.zero (c ∷ cs) = c
shade (suc n) (c ∷ cs) = shade n cs

-- Thresholds behind one that is not exceeded are not exceeded either.
number_above_none :
    (r t : ℤ) (ts : List ℤ)
    → is_ascending (t ∷ ts) ≡ true
    → leb_ℤ r t ≡ true
    → number_above r (t ∷ ts) ≡ 0
unfolding is_ascending
number_above_none r t [] h le = ground arith
number_above_none r t (u ∷ ts) h le =
    let rest : is_ascending (u ∷ ts) ≡ true → leb_ℤ r u ≡ true → number_above r (u ∷ ts) ≡ 0 =
      number_above_none r u ts in
    ground arith

tail_ascending : (t : ℤ) (ts : List ℤ) → is_ascending (t ∷ ts) ≡ true → is_ascending ts ≡ true
unfolding is_ascending
tail_ascending t [] h = refl
tail_ascending t (u ∷ ts) h = ground arith

color_of_lem :
    (r : ℤ) (ts : List ℤ) (cs : List Text)
    → length ts ≡ length cs
    → is_ascending ts ≡ true
    → color_of r ts cs ≡ some (shade (number_above r ts) cs)
unfolding color_of
color_of_lem r [] [] e h = refl
color_of_lem r [] (c ∷ cs) e h = absurd (omega arith)
color_of_lem r (t ∷ ts) [] e h = absurd (omega arith)
color_of_lem r (t ∷ ts) (c ∷ cs) e h = elim (Bool-cases (leb_ℤ r t)) [
  | inl below ↦ rw (below, number_above_none r t ts h below)
  | inr above ↦
      let over : ltb_ℤ t r ≡ true = ground arith in
      rw (above, over) (color_of_lem r ts cs (omega arith) (tail_ascending t ts h))
]

-- Thresholds as the validation lets them through.
abbrev pub IsUsable : Option UiConfig → Type 0
IsUsable o =
    (ts : List ℤ) × (thresholds_of o ≡ some ts) × (length ts ≡ 5) × (is_ascending ts ≡ true)

-- The endpoint has a configuration of the UI that the validation has returned.
abbrev pub HasUi : Endpoint → Type 0
HasUi ep = (c0 c : UiConfig) × (validate_ui c0 ≡ ok c) × (ep.ui_config ≡ some c)

default-IsUsable : IsUsable (some get_default_config)
unfolding thresholds_of is_ascending
default-IsUsable = (pos 50 ∷ pos 200 ∷ pos 300 ∷ pos 500 ∷ pos 750 ∷ [], refl, refl, refl)

abbrev WhenOk : Outcome PartError UiConfig → Type 0
WhenOk (ok c) = IsUsable (some c)
WhenOk (err e) = Unit

-- Five thresholds that ascend are let through unchanged.
given-WhenOk : (c : UiConfig) (ts : List ℤ) → c.badge ≡ some (some ts) → WhenOk (validate_ui c)
unfolding validate_ui thresholds_of
given-WhenOk c ts e = elim (Bool-cases (length ts == 5 && is_ascending ts)) [
  | inl good ↦
      let five : length ts ≡ 5 = ground arith in
      let ascending : is_ascending ts ≡ true = ground arith in
      rw (validate_ui, e, good) (ts, ap join_badge e, five, ascending)
  | inr bad ↦ rw (validate_ui, e, bad) tt
]

validate_ui-WhenOk : (c : UiConfig) → WhenOk (validate_ui c)
unfolding validate_ui thresholds_of is_ascending
validate_ui-WhenOk c = elim (Option-cases c.badge) [
  | inl e ↦ rw (validate_ui, e) default-IsUsable
  | inr (o, e) ↦ elim (Option-cases o) [
    | inl f ↦ let nil = e ∙ ap some f in rw (validate_ui, nil) tt
    | inr (ts, f) ↦ given-WhenOk c ts (e ∙ ap some f)
  ]
]

HasUi-IsUsable : (ep : Endpoint) → HasUi ep → IsUsable ep.ui_config
HasUi-IsUsable ep (c0, c, h, there) =
    subst IsUsable (sym there) (subst WhenOk h (validate_ui-WhenOk c0))

found-IsUsable :
    (k : Text) (eps : List Endpoint) (ep : Endpoint)
    → All HasUi eps
    → get_endpoint_by_key k eps ≡ some ep
    → IsUsable ep.ui_config
unfolding get_endpoint_by_key
found-IsUsable k [] ep hs h = ground arith
found-IsUsable k (e ∷ eps) ep (u, us) h = elim (Bool-cases (text_eq (key e) (to_lower k))) [
  | inl same ↦
      let at_head : some e ≡ some ep = rw same at h in
      subst (λ (x : Endpoint). IsUsable x.ui_config) (some-injective e ep at_head)
        (HasUi-IsUsable e u)
  | inr apart ↦
      let later : get_endpoint_by_key k eps ≡ some ep = rw apart at h in
      found-IsUsable k eps ep us later
]

thresholds_for-IsUsable :
    (k : Text) (eps : List Endpoint)
    → All HasUi eps
    → (ts : List ℤ) × (thresholds_for k eps ≡ some ts) × (length ts ≡ 5) × (is_ascending ts ≡ true)
unfolding thresholds_for
thresholds_for-IsUsable k eps hs = elim (Option-cases (get_endpoint_by_key k eps)) [
  | inl none_found ↦ rw (thresholds_for, none_found) default-IsUsable
  | inr (ep, found) ↦ rw (thresholds_for, found) (found-IsUsable k eps ep hs found)
]

-- When every endpoint of the configuration has a configuration of the UI that its validation
-- returned, the choice of the colour of a response time badge does not panic, for any key and any
-- response time: there are five thresholds for the key, and the colour is the one in the place that
-- is the number of these thresholds that the response time is above, "#c7130a" being the last.
pub get_badge_color_from_response_time-shade :
    (r : ℤ) (k : Text) (eps : List Endpoint)
    → All HasUi eps
    → (ts : List ℤ) × (thresholds_for k eps ≡ some ts)
      × (length ts ≡ 5)
      × (get_badge_color_from_response_time r k eps ≡ some (shade (number_above r ts) badge_colors))
unfolding get_badge_color_from_response_time
get_badge_color_from_response_time-shade r k eps hs =
    let (ts, found, five, ascending) = thresholds_for-IsUsable k eps hs in
    (
      ts,
      found,
      five,
      rw (get_badge_color_from_response_time, found)
          (color_of_lem r ts badge_colors five ascending),
    )
