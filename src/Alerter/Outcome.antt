-- ===== src/Alerter/Outcome.antt =====
-- What a whole call of `Reconcile` does to the active alerts, key by key.
use cpa_monitor.Base.{
  Bool, Bool-cases, List, Option-cases, Text, [], ap, arith, false, has, if◌then◌else◌, inl, inr,
  is_empty, not, refl, sym, true, ◌&&◌, ◌++◌, ◌||◌, ◌∙◌, ◌∷◌, ◌≡◌,
}
use cpa_monitor.State.{record_key, get}
use cpa_monitor.State.Persist.{save}
use cpa_monitor.State.View.{IsValid}
use cpa_monitor.Notification.{Kind, alert, recovery}
use cpa_monitor.Rule.{condition_key}
use cpa_monitor.Rule
use cpa_monitor.Alerter.{
  save_failed, Outside, Manager, ReconcileError, Run, Log, delivery_groups, alert_groups,
  recovery_groups, new_conditions, recovered, deliver, finish, reconcile,
}
use cpa_monitor.Alerter.Groups.{active_in, delivered}
use cpa_monitor.Alerter.Effect.{
  Gain, Loss, concat-delivery_groups, alert_groups-Gain, recovery_groups-Loss,
}
use cpa_monitor.Alerter.Plan.{
  IsAccepted, validate-IsAccepted, new_conditions-Fits, has-new_conditions, has-recovered,
}

-- The key's record is taken out: its recovery was delivered, or need not be announced.
abbrev pub cleared : Manager → Rule.Batch → Text → Log → Bool
cleared m b j log =
    if m.send_recovery then delivered recovery j log else has record_key j (recovered b m.store)

snoc_is_empty :
    (es : List ReconcileError) (e : ReconcileError)
    → is_empty (es ++ e ∷ []) ≡ true
    → is_empty es ≡ true
snoc_is_empty [] e h = refl
snoc_is_empty (x ∷ es) e h = h

finish-frame :
    (o : Outside) (m : Manager) (r : Run) (k : Kind) (j : Text)
    → ((finish o m r).1.store ≡ r.store)
      × (delivered k j (finish o m r).2 ≡ delivered k j r.log)
      × (is_empty (finish o m r).0 ≡ true → is_empty r.errors ≡ true)
unfolding finish delivered
finish-frame o m r k j = elim (Bool-cases (m.dirty || r.mutated)) [
  | inr clean ↦ rw (clean, finish) (refl, refl, λ h. h)
  | inl dirty ↦
      rw (dirty, finish)
        (elim (Option-cases (save o.codec (o.write_fails r.log) r.store)) [
          | inl ok ↦ rw ok (refl, refl, λ h. h)
          | inr (e, failed) ↦ rw failed (refl, refl, snoc_is_empty r.errors (save_failed e))
        ])
]

pub reconcile_accepted :
    (o : Outside) (m : Manager) (b : Rule.Batch)
    → IsAccepted m b
    → reconcile o m false b ≡ finish o m (deliver o m b)
unfolding reconcile
reconcile_accepted o m b w = rw ((validate-IsAccepted m b).1 w, reconcile)

-- What is known of the key after the two loops.
record Delivery (m : Manager) (b : Rule.Batch) (j : Text) (r : Run) : Type 0 where
  active :
      active_in b.scope j r.store
      ≡ ((active_in b.scope j m.store || delivered alert j r.log) && not (cleared m b j r.log))
  untouched :
      delivered alert j r.log ≡ false → cleared m b j r.log ≡ false → get j r.store ≡ get j m.store
  alerts_planned :
      delivered alert j r.log ≡ true → has condition_key j (new_conditions b m.store) ≡ true
  cleared_planned : cleared m b j r.log ≡ true → has record_key j (recovered b m.store) ≡ true
  clean :
      is_empty r.errors ≡ true
      → (delivered alert j r.log ≡ has condition_key j (new_conditions b m.store))
        × (cleared m b j r.log ≡ has record_key j (recovered b m.store))

Gain-Loss-Delivery :
    (m : Manager) (b : Rule.Batch) (j : Text) (s r t : Run)
    → s.store ≡ m.store
    → s.log ≡ []
    → Gain b.scope j (new_conditions b m.store) s r
    → Loss m.send_recovery j (recovered b m.store) r t
    → Delivery m b j t
Gain-Loss-Delivery m b j s r t store log g l =
    let none_before : (k : Kind) → delivered k j s.log ≡ false =
      λ k. rw log (unfold delivered in refl) in
    let gained : delivered alert j t.log ≡ g.gained =
      ground (arith, none_before alert, g.alerts, l.alerts) in
    let lost : cleared m b j t.log ≡ l.lost =
      ground (arith, none_before recovery, g.recoveries, l.recoveries, l.silent) in
    let end_active : active_in b.scope j t.store ≡ (active_in b.scope j r.store && not l.lost) =
      ground (arith, l.store) in
    let mid_active : active_in b.scope j r.store ≡ (active_in b.scope j m.store || g.gained) =
      rw (← store) (g.active) in
    record {
      active = rw (gained, lost, end_active, mid_active);
      untouched = λ not_sent kept.
          let n : l.lost ≡ false = sym lost ∙ kept in
          let n' : g.gained ≡ false = sym gained ∙ not_sent in
          l.store ∙ (rw n (g.untouched n' ∙ ap (get j) store));
      alerts_planned = λ p. g.planned (sym gained ∙ p);
      cleared_planned = λ p. l.planned (sym lost ∙ p);
      clean = λ e. let (e', c) = l.clean e in let (e'', c') = g.clean e' in (gained ∙ c', lost ∙ c);
    }

deliver-Delivery :
    (o : Outside) (m : Manager) (b : Rule.Batch) (j : Text)
    → IsValid m.store
    → IsAccepted m b
    → Delivery m b j (deliver o m b)
unfolding deliver
deliver-Delivery o m b j v w =
    let start : Run = record { store = m.store; mutated = false; errors = []; log = [] } in
    let ng = delivery_groups b.scope (new_conditions b m.store) in
    let rg = delivery_groups b.scope (recovered b m.store) in
    let mid = alert_groups o m b.scope ng start in
    Gain-Loss-Delivery m b j start mid (recovery_groups o m b.scope rg mid) refl refl
      (rw (concat-delivery_groups b.scope (new_conditions b m.store)) at (
        alert_groups-Gain o m b.scope j w.scope ng start
          (rw concat-delivery_groups (new_conditions-Fits m b v w))))
      (rw (concat-delivery_groups b.scope (recovered b m.store)) at
        (recovery_groups-Loss o m b.scope j w.scope rg mid))

-- What `Reconcile` does at one key, for an accepted batch on a valid state, whatever the world
-- answers. (1) The key is active in the batch's scope afterwards exactly when it was before, or its
-- alert was delivered in this call, and it was not cleared. (2) Without a delivered alert and
-- uncleared, its record is the one from before. (3) An alert was delivered only for a key that the
-- batch has and that was not active. (4) A key was cleared only in a complete batch that lacks it,
-- and only if it was active.
pub reconcile-active :
    (o : Outside) (m : Manager) (b : Rule.Batch) (j : Text)
    → IsValid m.store
    → IsAccepted m b
    → let (errors, m', log) = reconcile o m false b in
      (active_in b.scope j m'.store
        ≡ ((active_in b.scope j m.store || delivered alert j log) && not (cleared m b j log)))
      × (delivered alert j log ≡ false → cleared m b j log ≡ false → get j m'.store ≡ get j m.store)
      × (delivered alert j log ≡ true
          → (has condition_key j b.conditions ≡ true) × (active_in b.scope j m.store ≡ false))
      × (cleared m b j log ≡ true
          → (b.complete ≡ true)
            × (active_in b.scope j m.store ≡ true)
            × (has condition_key j b.conditions ≡ false))
reconcile-active o m b j v w =
    let d = deliver-Delivery o m b j v w in
    let (store, alerts, clean) = finish-frame o m (deliver o m b) alert j in
    let (store', recoveries, clean') = finish-frame o m (deliver o m b) recovery j in
    rw (reconcile_accepted o m b w) (
      rw (store, alerts, recoveries)
        (
          d.active,
          d.untouched,
          λ p. ground (arith, d.alerts_planned p, has-new_conditions m b v w j),
          λ p. ground (arith, d.cleared_planned p, has-recovered m b v w j),
        ))

-- A complete, accepted batch that is reconciled without an error leaves active in its scope exactly
-- the keys of its conditions.
pub reconcile_converges :
    (o : Outside) (m : Manager) (b : Rule.Batch) (j : Text)
    → IsValid m.store
    → IsAccepted m b
    → b.complete ≡ true
    → is_empty (reconcile o m false b).0 ≡ true
    → active_in b.scope j (reconcile o m false b).1.store ≡ has condition_key j b.conditions
reconcile_converges o m b j v w complete ok =
    let d = deliver-Delivery o m b j v w in
    let (store, alerts, clean) = finish-frame o m (deliver o m b) alert j in
    let same = reconcile_accepted o m b w in
    let (sent, gone) = d.clean (clean (rw same at ok)) in
    rw same (
      rw store (
        ground
          (arith, d.active, sent, gone, has-new_conditions m b v w j, has-recovered m b v w j)))

-- An incomplete batch clears nothing: every record that is active in the scope stays as it is.
pub reconcile_incomplete :
    (o : Outside) (m : Manager) (b : Rule.Batch) (j : Text)
    → IsValid m.store
    → IsAccepted m b
    → b.complete ≡ false
    → active_in b.scope j m.store ≡ true
    → get j (reconcile o m false b).1.store ≡ get j m.store
reconcile_incomplete o m b j v w partial active =
    let (_, same, alerts, gone) = reconcile-active o m b j v w in
    same (ground (arith, alerts)) (ground (arith, gone))
