-- ===== src/Watchdog/Alerting/Notified.antt =====
-- What a run of failed checks sends.
use mathlib.Core.Path.{ap₂}
use ecs_gatus_app.Base.{
  ℕ, suc, ◌+◌, ◌≡◌, ◌∙◌, refl, ap, sym, subst, true, false, not, ◌&&◌, none, some, List, [], ◌∷◌,
  ◌++◌, All, length, length-append, if◌then◌else◌, arith,
}
use ecs_gatus_app.Base.Int.{pos}
use ecs_gatus_app.Base.Time.{Time}
use ecs_gatus_app.Alert.{Alert}
use ecs_gatus_app.Endpoint.{Endpoint, Result}
use ecs_gatus_app.Watchdog.Alerting.{
  AlertingConfig, Round, Effect, sent, get_alerting_provider_by_alert_type, notify, trigger_alert,
  trigger_alerts, handle_alerts_to_trigger, handle_alerting,
}
use ecs_gatus_app.Watchdog.Alerting.Triggering.{calls_in, calls_in-append, handle_alerting-failure}
use ecs_gatus_app.Watchdog.Alerting.Counters.{handle_all}

abbrev pub triggered_count : List Alert → ℕ
triggered_count [] = 0
triggered_count (a ∷ others) = (if a.triggered then 1 else 0) + triggered_count others

abbrev pub NoReminder : Alert → Type 0
NoReminder a = a.minimum_reminder_interval ≡ pos 0

-- A provider is called, and it answers without an error.
pub record Answers (rd : Round) : Type 0 where
  pub real : rd.mock ≡ false
  pub no_error : rd.send_error ≡ false

-- A run of failed checks whose providers answer.
abbrev pub AreFailures : List ((ℕ → Round) × Result) → Type 0
AreFailures [] = Unit
AreFailures ((rounds, r) ∷ later) =
    (r.success ≡ false) × ((i : ℕ) → Answers (rounds i)) × AreFailures later

-- What should be sent for an alert that a failed check has taken from a to b: one message to its
-- provider, if the check has triggered it.
abbrev pub announcement : AlertingConfig → Result → Alert → Alert → List Effect
announcement config r a b =
    if not a.triggered && b.triggered
    then elim (get_alerting_provider_by_alert_type config a.type) [
      | none ↦ []
      | some p ↦ sent p a r false ∷ []
    ]
    else []

abbrev pub announcements : AlertingConfig → Result → List Alert → List Alert → List Effect
announcements config r [] after = []
announcements config r (a ∷ before) [] = []
announcements config r (a ∷ before) (b ∷ after) =
    announcement config r a b ++ announcements config r before after

-- Through a history: what should be sent at each of its checks.
pub all_announcements : AlertingConfig → List ((ℕ → Round) × Result) → Endpoint → List Effect
all_announcements config [] ep = []
all_announcements config ((rounds, r) ∷ later) ep =
    let next = (handle_alerting (some config) rounds r ep).0 in
    announcements config r ep.alerts next.alerts ++ all_announcements config later next

-- The same alerts, of which those that were triggered still are.
abbrev pub StayTriggered : List Alert → List Alert → Type 0
StayTriggered [] [] = Unit
StayTriggered [] (b ∷ after) = ⊥
StayTriggered (a ∷ before) [] = ⊥
StayTriggered (a ∷ before) (b ∷ after) =
    (a.triggered ≡ true → b.triggered ≡ true) × StayTriggered before after

StayTriggered-refl : (xs : List Alert) → StayTriggered xs xs
StayTriggered-refl [] = tt
StayTriggered-refl (a ∷ xs) = (λ h. h, StayTriggered-refl xs)

StayTriggered-trans :
    (xs ys zs : List Alert) → StayTriggered xs ys → StayTriggered ys zs → StayTriggered xs zs
StayTriggered-trans [] [] zs h k = k
StayTriggered-trans [] (y ∷ ys) zs h k = absurd h
StayTriggered-trans (x ∷ xs) [] zs h k = absurd h
StayTriggered-trans (x ∷ xs) (y ∷ ys) [] h k = absurd k
StayTriggered-trans (x ∷ xs) (y ∷ ys) (z ∷ zs) (h, hs) (k, ks) =
    (λ e. k (h e), StayTriggered-trans xs ys zs hs ks)

-- What one failed check does with the alerts: what it sends, and the flags it leaves.
record Told (config : AlertingConfig) (r : Result) (before after : List Alert)
    (effects : List Effect) : Type 0 where
  sends : calls_in effects ≡ announcements config r before after
  counts : triggered_count before + length (calls_in effects) ≡ triggered_count after
  stay : StayTriggered before after
  none_reminded : All NoReminder after

told-trigger_alert :
    (config : AlertingConfig) (rd : Round) (r : Result) (failures : ℕ) (last : Time) (a : Alert)
    → Answers rd
    → NoReminder a
    → let t = trigger_alert config rd r failures last a in
      (calls_in t.effects ≡ announcement config r a t.alert)
      × ((if a.triggered then 1 else 0) + length (calls_in t.effects)
          ≡ (if t.alert.triggered then 1 else 0))
      × (a.triggered ≡ true → t.alert.triggered ≡ true)
      × NoReminder t.alert
unfolding trigger_alert notify
told-trigger_alert config rd r failures last a w h = (
  ground (arith, w.real, w.no_error, h),
  ground (arith, w.real, w.no_error, h),
  ground (arith, w.real, w.no_error, h),
  ground (arith, w.real, w.no_error, h),
)

Told-trigger_alerts :
    (config : AlertingConfig) (rounds : ℕ → Round) (i : ℕ) (r : Result) (failures : ℕ) (last : Time)
    (others : List Alert)
    → ((j : ℕ) → Answers (rounds j))
    → All NoReminder others
    → let t = trigger_alerts config rounds i r failures last others in
      Told config r others t.alerts t.effects
unfolding trigger_alerts
Told-trigger_alerts config rounds i r failures last [] w h = record {
  sends = refl;
  counts = omega arith;
  stay = tt;
  none_reminded = tt;
}
Told-trigger_alerts config rounds i r failures last (a ∷ others) w (h, hs) =
    let (sends, counts, stays, unreminded) =
      told-trigger_alert config (rounds i) r failures last a (w i) h in
    let ih = Told-trigger_alerts config rounds (suc i) r failures last others w hs in
    let es = (trigger_alert config (rounds i) r failures last a).effects in
    let fs = (trigger_alerts config rounds (suc i) r failures last others).effects in
    record {
      sends = calls_in-append es fs ∙ ap₂ ◌++◌ sends ih.sends;
      counts = omega (
        arith,
        counts,
        ih.counts,
        ap length (calls_in-append es fs),
        length-append (calls_in es) (calls_in fs),
      );
      stay = (stays, ih.stay);
      none_reminded = (unreminded, ih.none_reminded);
    }

Told-failure :
    (config : AlertingConfig) (rounds : ℕ → Round) (r : Result) (ep : Endpoint)
    → r.success ≡ false
    → ((j : ℕ) → Answers (rounds j))
    → All NoReminder ep.alerts
    → let x = handle_alerting (some config) rounds r ep in Told config r ep.alerts x.0.alerts x.1
unfolding handle_alerts_to_trigger
Told-failure config rounds r ep f w h =
    subst (λ (x : Endpoint × List Effect). Told config r ep.alerts x.0.alerts x.1)
      (sym (handle_alerting-failure config rounds r ep f))
      (Told-trigger_alerts config rounds 0 r (suc ep.number_of_failures_in_a_row)
        ep.last_reminder_sent ep.alerts w h)

-- Through any number of failed checks whose providers are really called and answer without an
-- error, of an endpoint whose alerts have no reminder interval: at each check one message, not as
-- resolved and with the result of that check, is sent for each alert that the check has triggered,
-- to the provider of its type, in the order of the alerts, and nothing else is sent at all; an alert
-- that is triggered stays triggered; so the messages are as many as the alerts triggered afterwards
-- that were not before.
pub calls_in-handle_all_of_failures :
    (config : AlertingConfig) (history : List ((ℕ → Round) × Result)) (ep : Endpoint)
    → AreFailures history
    → All NoReminder ep.alerts
    → (calls_in (handle_all config history ep).1 ≡ all_announcements config history ep)
      × StayTriggered ep.alerts (handle_all config history ep).0.alerts
      × (triggered_count ep.alerts + length (calls_in (handle_all config history ep).1)
          ≡ triggered_count (handle_all config history ep).0.alerts)
unfolding handle_all all_announcements
calls_in-handle_all_of_failures config [] ep w h = (refl, StayTriggered-refl ep.alerts, omega arith)
calls_in-handle_all_of_failures config ((rounds, r) ∷ later) ep (f, w, ws) h =
    let next = handle_alerting (some config) rounds r ep in
    let here = Told-failure config rounds r ep f w h in
    let (sends, stay, counts) =
      calls_in-handle_all_of_failures config later next.0 ws here.none_reminded in
    let rest = handle_all config later next.0 in
    (
      calls_in-append next.1 rest.1 ∙ ap₂ ◌++◌ here.sends sends,
      StayTriggered-trans ep.alerts next.0.alerts rest.0.alerts here.stay stay,
      omega (
        arith,
        here.counts,
        counts,
        ap length (calls_in-append next.1 rest.1),
        length-append (calls_in next.1) (calls_in rest.1),
      ),
    )
