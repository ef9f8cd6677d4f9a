-- ===== src/Alerter/Effect.antt =====
-- The loops of `Reconcile` over the delivery groups, seen at one key.
use cpa_monitor.Base.{
  All, All-left, All-right, Bool, Bool-cases, List, Option-cases, Text, [], ap, arith, false, find,
  find-append, has, if◌then◌else◌, inl, inr, is_blank, is_empty, map, none, refl, some, text_eq,
  true, ℕ, ◌&&◌, ◌++◌, ◌||◌, ◌∙◌, ◌∷◌, ◌≡◌,
}
use mathlib.Core.List.{append-nil}
use cpa_monitor.State.{Record, record_key, get}
use cpa_monitor.Notification.{Kind, alert, recovery, same_kind, Event}
use cpa_monitor.Notification
use cpa_monitor.Notification.Router.{SendError}
use cpa_monitor.Notification.Validity.{event_key}
use cpa_monitor.Rule.{Condition, condition_key, scope_auth}
use cpa_monitor.Rule.Checked.{Fits}
use cpa_monitor.Alerter.Message.{alert_event, recovery_event}
use cpa_monitor.Alerter.{
  after_alert, after_recovery, recovery_batch, recovery_group, send_failed, attempt, attempted,
  alert_batch, alert_group, event_keys, Outside, Manager, Outside, Manager, Run, attempted,
  delivery_groups, send_failed, event_keys, alert_batch, recovery_batch, attempt, alert_group,
  alert_groups, recovery_group, recovery_groups,
}
use cpa_monitor.Alerter.Groups.{
  active_in, delivered, activate-active, activate-others, get-deactivate,
}

module _ {ℓ} {A : Type ℓ} where
  abbrev pub concat : List (List A) → List A
  concat [] = []
  concat (xs ∷ xss) = xs ++ concat xss

  concat-singles : (ys : List A) → concat (map (λ y. y ∷ []) ys) ≡ ys
  concat-singles [] = refl
  concat-singles (y ∷ ys) = ap (λ l. y ∷ l) (concat-singles ys)

  -- The groups have all that they were made from, in order.
  pub concat-delivery_groups : (scope : Text) (xs : List A) → concat (delivery_groups scope xs) ≡ xs
  unfolding delivery_groups
  concat-delivery_groups scope [] = refl
  concat-delivery_groups scope (x ∷ xs) = elim (Bool-cases (text_eq scope scope_auth)) [
    | inl t ↦ rw (t, delivery_groups) (concat-singles (x ∷ xs))
    | inr f ↦ rw (f, delivery_groups) (append-nil (x ∷ xs))
  ]

pub has-append {ℓ} :
    {A : Type ℓ} (key : A → Text) (j : Text) (xs ys : List A)
    → has key j (xs ++ ys) ≡ (has key j xs || has key j ys)
has-append key j xs ys = ground (arith, find-append key j xs ys)

snoc_not_empty {ℓ} : {A : Type ℓ} (xs : List A) (x : A) → is_empty (xs ++ x ∷ []) ≡ false
snoc_not_empty [] x = refl
snoc_not_empty (y ∷ ys) x = refl

has-alert_event :
    (hostname base_url j : Text) (t : ℕ) (cs : List Condition)
    → has event_key j (map (λ c. alert_event hostname base_url c t) cs) ≡ has condition_key j cs
unfolding find alert_event
has-alert_event h u j t [] = refl
has-alert_event h u j t (c ∷ cs) = ground (arith, has-alert_event h u j t cs)

has-recovery_event :
    (hostname base_url j : Text) (t : ℕ) (rs : List Record)
    → has event_key j (map (λ r. recovery_event hostname base_url r t) rs) ≡ has record_key j rs
unfolding find recovery_event
has-recovery_event h u j t [] = refl
has-recovery_event h u j t (r ∷ rs) = ground (arith, has-recovery_event h u j t rs)

-- What the alert groups with the conditions `cs` do at the key `j`.
pub record Gain (scope j : Text) (cs : List Condition) (r r' : Run) : Type 0 where
  pub gained : Bool
  pub active : active_in scope j r'.store ≡ (active_in scope j r.store || gained)
  pub alerts : delivered alert j r'.log ≡ (delivered alert j r.log || gained)
  pub recoveries : delivered recovery j r'.log ≡ delivered recovery j r.log
  pub untouched : gained ≡ false → get j r'.store ≡ get j r.store
  pub planned : gained ≡ true → has condition_key j cs ≡ true
  pub clean :
      is_empty r'.errors ≡ true → (is_empty r.errors ≡ true) × (gained ≡ has condition_key j cs)

-- What the recovery groups with the records `xs` do at the key `j`.
pub record Loss (announced : Bool) (j : Text) (xs : List Record) (r r' : Run) : Type 0 where
  pub lost : Bool
  pub store : get j r'.store ≡ (if lost then none else get j r.store)
  pub alerts : delivered alert j r'.log ≡ delivered alert j r.log
  pub recoveries : delivered recovery j r'.log ≡ (delivered recovery j r.log || (announced && lost))
  pub planned : lost ≡ true → has record_key j xs ≡ true
  pub silent : announced ≡ false → lost ≡ has record_key j xs
  pub clean : is_empty r'.errors ≡ true → (is_empty r.errors ≡ true) × (lost ≡ has record_key j xs)

Gain-trans :
    (scope j : Text) (cs ds : List Condition) (r s t : Run)
    → Gain scope j cs r s
    → Gain scope j ds s t
    → Gain scope j (cs ++ ds) r t
Gain-trans scope j cs ds r s t g h = record {
  gained = g.gained || h.gained;
  active = ground (arith, g.active, h.active);
  alerts = ground (arith, g.alerts, h.alerts);
  recoveries = h.recoveries ∙ g.recoveries;
  untouched = λ n. h.untouched (ground arith) ∙ g.untouched (ground arith);
  planned = λ p. ground (arith, has-append condition_key j cs ds, g.planned, h.planned);
  clean = λ e.
      let (e', w) = h.clean e in
      let (e'', w') = g.clean e' in (e'', ground (arith, has-append condition_key j cs ds));
}

Loss-trans :
    (announced : Bool) (j : Text) (xs ys : List Record) (r s t : Run)
    → Loss announced j xs r s
    → Loss announced j ys s t
    → Loss announced j (xs ++ ys) r t
Loss-trans announced j xs ys r s t g h = record {
  lost = g.lost || h.lost;
  store = ground (arith, g.store, h.store);
  alerts = h.alerts ∙ g.alerts;
  recoveries = ground (arith, g.recoveries, h.recoveries);
  planned = λ p. ground (arith, has-append record_key j xs ys, g.planned, h.planned);
  silent = λ n. ground (arith, has-append record_key j xs ys, g.silent n, h.silent n);
  clean = λ e.
      let (e', w) = h.clean e in
      let (e'', w') = g.clean e' in (e'', ground (arith, has-append record_key j xs ys));
}

attempt-sent :
    (o : Outside) (b : Notification.Batch) (r : Run)
    → o.send r.log b ≡ none
    → attempt o b r ≡ (none, record r { log = attempted b none ∷ r.log })
unfolding attempt
attempt-sent o b r e = ground arith

attempt-failed :
    (o : Outside) (b : Notification.Batch) (r : Run) (x : SendError)
    → o.send r.log b ≡ some x
    → attempt o b r ≡ (
      some x,
      record r {
        log = attempted b (some x) ∷ r.log;
        errors = r.errors ++ send_failed b.kind (event_keys b.events) x ∷ [];
      },
    )
unfolding attempt
attempt-failed o b r x e = ground arith

module _ (o : Outside) (m : Manager) (scope j : Text) (v : is_blank scope ≡ false) where
  alert_group-Gain :
      (g : List Condition) (r : Run)
      → All (Fits scope) g
      → Gain scope j g r (alert_group o m scope g r)
  unfolding alert_group
  alert_group-Gain g r a =
      let t = o.now r.log in
      let b = alert_batch m scope t g in
      elim (Option-cases (o.send r.log b)) [
        | inl e ↦
            let next : Run = record r { log = attempted b none ∷ r.log } in
            let (active, errors, log) = activate-active scope v j t g next a in
            rw (attempt-sent o b r e) (
              unfold after_alert in
              record {
                gained = has condition_key j g;
                active = active;
                alerts = rw log (
                    unfold delivered alert_batch same_kind in
                    ground (arith, has-alert_event m.hostname m.base_url j t g));
                recoveries = rw log (unfold delivered alert_batch same_kind in refl);
                untouched = activate-others scope v j t g next a;
                planned = λ p. p;
                clean = λ c. (rw errors at c, refl);
              })
        | inr (x, e) ↦ rw (attempt-failed o b r x e) (
            unfold after_alert in
            record {
              gained = false;
              active = ground arith;
              alerts = unfold delivered in ground arith;
              recoveries = unfold delivered in refl;
              untouched = λ n. refl;
              planned = λ p. cc;
              clean =
                  λ c. cc (c, snoc_not_empty r.errors (send_failed b.kind (event_keys b.events) x));
            })
      ]

  after_recovery-Loss :
      (announced : Bool) (t : ℕ) (g : List Record) (r : Run)
      → Loss announced j g r
          (after_recovery announced g r (attempt o (recovery_batch m scope t g) r))
  unfolding after_recovery
  after_recovery-Loss false t g r =
      let (store, errors, log) = get-deactivate j g r in
      record {
        lost = has record_key j g;
        store = store;
        alerts = rw log;
        recoveries = rw log (ground arith);
        planned = λ p. p;
        silent = λ n. refl;
        clean = λ c. (rw errors at c, refl);
      }
  after_recovery-Loss true t g r =
      let b = recovery_batch m scope t g in
      elim (Option-cases (o.send r.log b)) [
        | inl e ↦
            let next : Run = record r { log = attempted b none ∷ r.log } in
            let (store, errors, log) = get-deactivate j g next in
            rw (attempt-sent o b r e) (record {
              lost = has record_key j g;
              store = store;
              alerts = rw log (unfold delivered recovery_batch same_kind in refl);
              recoveries = rw log (
                  unfold delivered recovery_batch same_kind in
                  ground (arith, has-recovery_event m.hostname m.base_url j t g));
              planned = λ p. p;
              silent = λ n. cc;
              clean = λ c. (rw errors at c, refl);
            })
        | inr (x, e) ↦ rw (attempt-failed o b r x e) (record {
          lost = false;
          store = refl;
          alerts = unfold delivered in refl;
          recoveries = unfold delivered in ground arith;
          planned = λ p. cc;
          silent = λ n. cc;
          clean = λ c. cc (c, snoc_not_empty r.errors (send_failed b.kind (event_keys b.events) x));
        })
      ]

  recovery_group-Loss :
      (g : List Record) (r : Run) → Loss m.send_recovery j g r (recovery_group o m scope g r)
  unfolding recovery_group
  recovery_group-Loss g r = after_recovery-Loss m.send_recovery (o.now r.log) g r

  pub alert_groups-Gain :
      (gs : List (List Condition)) (r : Run)
      → All (Fits scope) (concat gs)
      → Gain scope j (concat gs) r (alert_groups o m scope gs r)
  unfolding alert_groups
  alert_groups-Gain [] r a = record {
    gained = false;
    active = ground arith;
    alerts = ground arith;
    recoveries = refl;
    untouched = λ n. refl;
    planned = λ p. cc;
    clean = λ c. (c, unfold find in refl);
  }
  alert_groups-Gain (g ∷ gs) r a =
      let r' = alert_group o m scope g r in
      Gain-trans scope j g (concat gs) r r' (alert_groups o m scope gs r')
        (alert_group-Gain g r (All-left (Fits scope) g (concat gs) a))
        (alert_groups-Gain gs r' (All-right (Fits scope) g (concat gs) a))

  pub recovery_groups-Loss :
      (gs : List (List Record)) (r : Run)
      → Loss m.send_recovery j (concat gs) r (recovery_groups o m scope gs r)
  unfolding recovery_groups
  recovery_groups-Loss [] r = record {
    lost = false;
    store = refl;
    alerts = refl;
    recoveries = ground arith;
    planned = λ p. cc;
    silent = λ n. unfold find in refl;
    clean = λ c. (c, unfold find in refl);
  }
  recovery_groups-Loss (g ∷ gs) r =
      let r' = recovery_group o m scope g r in
      Loss-trans m.send_recovery j g (concat gs) r r' (recovery_groups o m scope gs r')
        (recovery_group-Loss g r) (recovery_groups-Loss gs r')
