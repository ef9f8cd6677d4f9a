-- ===== src/Alerter/Sends.antt =====
-- The batches that `Reconcile` hands to the sender.
use cpa_monitor.Base.{
  All, All-both, All-keep, All-map, All-put_all, All-sort, Bool, Bool-cases, Distinct, List, Option,
  Option-cases, Text, [], ap, arith, false, find, inl, inr, is_blank, is_empty, keep, keep-passes,
  length, map, none, refl, some, sort, suc, text_eq, text_eq_iff, true, ℕ, ◌||◌, ◌∙◌, ◌∷◌, ◌≡◌,
}
use cpa_monitor.State.{Record, record_key, File, by_scope, is_zero}
use cpa_monitor.State.Persist.{save}
use cpa_monitor.State.View.{IsValid}
use cpa_monitor.Notification.{Event, known_kind}
use cpa_monitor.Notification
use cpa_monitor.Notification.Router.{SendError}
use cpa_monitor.Notification.Validity.{event_key, IsDeliverable}
use cpa_monitor.Notification.Validity
use cpa_monitor.Rule.{Condition, condition_key, scope_auth}
use cpa_monitor.Rule
use cpa_monitor.Rule.Checked.{Fits}
use cpa_monitor.Alerter.Message.{alert_event, recovery_event}
use cpa_monitor.Alerter.{
  Outside, Manager, Run, attempted, saved, Log, delivery_groups, alert_batch, recovery_batch,
  attempt, after_alert, after_recovery, alert_group, alert_groups, recovery_group, recovery_groups,
  new_conditions, recovered, active_by_key, deliver, finish, reconcile,
}
use cpa_monitor.Alerter.Groups.{activate-active, get-deactivate}
use cpa_monitor.Alerter.Outcome.{reconcile_accepted}
use cpa_monitor.Alerter.Plan.{
  IsAccepted, new_conditions-Fits, Distinct-new_conditions, Distinct-recovered,
}

-- Every batch that was handed to the sender.
abbrev pub Attempts : (Notification.Batch → Type 0) → Log → Type 0
Attempts P [] = Unit
Attempts P (attempted b answer ∷ l) = P b × Attempts P l
Attempts P (saved d stored ∷ l) = Attempts P l

-- An active record of the scope whose key is not blank.
pub record FitsRecord (scope : Text) (r : Record) : Type 0 where
  pub key : is_blank r.key ≡ false
  pub scoped : r.scope ≡ scope

attempt-log :
    (o : Outside) (b : Notification.Batch) (r : Run)
    → (attempt o b r).1.log ≡ attempted b (attempt o b r).0 ∷ r.log
unfolding attempt
attempt-log o b r = ground arith

after_alert-log :
    (scope : Text) (t : ℕ) (g : List Condition) (a : Option SendError × Run)
    → is_blank scope ≡ false
    → All (Fits scope) g
    → (after_alert t g a).log ≡ a.1.log
unfolding after_alert
after_alert-log scope t g (none, r) v f = (activate-active scope v [] t g r f).2
after_alert-log scope t g (some e, r) v f = refl

module _ (P : Notification.Batch → Type 0) (o : Outside) (m : Manager) (scope : Text) where
  alert_groups-Attempts :
      (gs : List (List Condition)) (r : Run)
      → is_blank scope ≡ false
      → All (λ g. All (Fits scope) g × ((l : Log) → P (alert_batch m scope (o.now l) g))) gs
      → Attempts P r.log
      → Attempts P (alert_groups o m scope gs r).log
  unfolding alert_groups alert_group
  alert_groups-Attempts [] r v a h = h
  alert_groups-Attempts (g ∷ gs) r v a h =
      let t = o.now r.log in
      let b = alert_batch m scope t g in
      alert_groups-Attempts gs (alert_group o m scope g r) v a.1 (
        rw (after_alert-log scope t g (attempt o b r) v (a.0.0))
          (rw (attempt-log o b r) (a.0.1 r.log, h)))

  after_recovery-Attempts :
      (announced : Bool) (g : List Record) (r : Run) (b : Notification.Batch)
      → P b
      → Attempts P r.log
      → Attempts P (after_recovery announced g r (attempt o b r)).log
  unfolding after_recovery
  after_recovery-Attempts false g r b p h = rw ((get-deactivate [] g r).2) h
  after_recovery-Attempts true g r b p h = elim (Option-cases (attempt o b r).0) [
    | inl sent ↦
        rw (sent, after_recovery)
          (rw ((get-deactivate [] g (attempt o b r).1).2) (rw (attempt-log o b r) (p, h)))
    | inr (x, failed) ↦ rw (failed, after_recovery) (rw (attempt-log o b r) (p, h))
  ]

  recovery_groups-Attempts :
      (gs : List (List Record)) (r : Run)
      → All (λ g. (l : Log) → P (recovery_batch m scope (o.now l) g)) gs
      → Attempts P r.log
      → Attempts P (recovery_groups o m scope gs r).log
  unfolding recovery_groups recovery_group
  recovery_groups-Attempts [] r a h = h
  recovery_groups-Attempts (g ∷ gs) r a h =
      recovery_groups-Attempts gs (recovery_group o m scope g r) a.1 (
        after_recovery-Attempts m.send_recovery g r (recovery_batch m scope (o.now r.log) g)
          (a.0 r.log) h)

-- A group is the whole list, or in the scope of the accounts one element of it.
module _ {ℓ κ} {A : Type ℓ} (key : A → Text) (Q : A → Type κ) where
  pub record IsGroup (single : Bool) (g : List A) : Type (ℓ ⊔ κ) where
    pub some_member : is_empty g ≡ false
    pub fit : All Q g
    pub distinct : Distinct key g
    pub alone : single ≡ true → length g ≡ 1

  singles-IsGroup : (xs : List A) → All Q xs → All (IsGroup true) (map (λ y. y ∷ []) xs)
  singles-IsGroup [] a = tt
  singles-IsGroup (x ∷ xs) a = (
    record {
      some_member = refl;
      fit = (a.0, tt);
      distinct = (unfold find in refl, tt);
      alone = λ s. refl;
    },
    singles-IsGroup xs a.1,
  )

  delivery_groups-IsGroup :
      (scope : Text) (xs : List A)
      → All Q xs
      → Distinct key xs
      → All (IsGroup (text_eq scope scope_auth)) (delivery_groups scope xs)
  unfolding delivery_groups
  delivery_groups-IsGroup scope [] a d = tt
  delivery_groups-IsGroup scope (x ∷ xs) a d = elim (Bool-cases (text_eq scope scope_auth)) [
    | inl t ↦ rw (t, delivery_groups) (singles-IsGroup (x ∷ xs) a)
    | inr f ↦
        rw (f, delivery_groups)
          (record { some_member = refl; fit = a; distinct = d; alone = λ s. cc }, tt)
  ]

-- Accepted by `ValidateBatch`, and a single event in the scope of the accounts.
pub record IsSound (b : Notification.Batch) : Type 0 where
  pub deliverable : IsDeliverable b
  pub alone : text_eq b.scope scope_auth ≡ true → length b.events ≡ 1

map_not_empty :
    {A B : Type 0} (f : A → B) (xs : List A) → is_empty xs ≡ false → is_empty (map f xs) ≡ false
map_not_empty f [] h = h
map_not_empty f (x ∷ xs) h = refl

length-map : {A B : Type 0} (f : A → B) (xs : List A) → length (map f xs) ≡ length xs
length-map f [] = refl
length-map f (x ∷ xs) = ap suc (length-map f xs)

module _ {A : Type 0} (key : A → Text) (f : A → Event) (same : (a : A) → (f a).key ≡ key a) where
  find-map : (j : Text) (xs : List A) → find key j xs ≡ none → find event_key j (map f xs) ≡ none
  unfolding find
  find-map j [] h = refl
  find-map j (x ∷ xs) h = ground (arith, same x, find-map j xs)

  Distinct-map : (xs : List A) → Distinct key xs → Distinct event_key (map f xs)
  Distinct-map [] d = tt
  Distinct-map (x ∷ xs) d = (rw (same x) (find-map (key x) xs d.0), Distinct-map xs d.1)

  All-map_events {κ} :
      (Q : A → Type κ) (b : Notification.Batch)
      → ((a : A) → Q a → Notification.Validity.Fits b (f a))
      → (xs : List A) → All Q xs
      → All (Notification.Validity.Fits b) (map f xs)
  All-map_events Q b fits [] a = tt
  All-map_events Q b fits (x ∷ xs) a = (fits x a.0, All-map_events Q b fits xs a.1)

module _ (m : Manager) (scope : Text) (t : ℕ) (v : is_blank scope ≡ false)
    (host : is_blank m.hostname ≡ false) (ticking : is_zero t ≡ false) where
  alert_batch-IsSound :
      (g : List Condition)
      → IsGroup condition_key (Fits scope) (text_eq scope scope_auth) g
      → IsSound (alert_batch m scope t g)
  unfolding alert_batch alert_event known_kind
  alert_batch-IsSound g i =
      let event : Condition → Event = λ c. alert_event m.hostname m.base_url c t in
      record {
        deliverable = record {
          kind = refl;
          scope = v;
          hostname = host;
          timestamp = ticking;
          some_event = map_not_empty event g i.some_member;
          fit =
              All-map_events condition_key event (λ c. refl) (Fits scope) (alert_batch m scope t g)
                (λ c f. record {
                  kind = refl;
                  scope = f.scoped;
                  hostname = refl;
                  timestamp = refl;
                  key = f.key;
                })
                g i.fit;
          distinct = Distinct-map condition_key event (λ c. refl) g i.distinct;
        };
        alone = λ s. length-map event g ∙ i.alone s;
      }

  recovery_batch-IsSound :
      (g : List Record)
      → IsGroup record_key (FitsRecord scope) (text_eq scope scope_auth) g
      → IsSound (recovery_batch m scope t g)
  unfolding recovery_batch recovery_event known_kind
  recovery_batch-IsSound g i =
      let event : Record → Event = λ c. recovery_event m.hostname m.base_url c t in
      record {
        deliverable = record {
          kind = refl;
          scope = v;
          hostname = host;
          timestamp = ticking;
          some_event = map_not_empty event g i.some_member;
          fit =
              All-map_events record_key event (λ c. refl) (FitsRecord scope)
                (recovery_batch m scope t g)
                (λ c f. record {
                  kind = refl;
                  scope = f.scoped;
                  hostname = refl;
                  timestamp = refl;
                  key = f.key;
                })
                g i.fit;
          distinct = Distinct-map record_key event (λ c. refl) g i.distinct;
        };
        alone = λ s. length-map event g ∙ i.alone s;
      }

abbrev pub HasVisibleKey : Record → Type 0
HasVisibleKey r = is_blank r.key ≡ false

recovered-FitsRecord :
    (b : Rule.Batch) (f : File)
    → All HasVisibleKey f.records
    → All (FitsRecord b.scope) (recovered b f)
unfolding recovered active_by_key by_scope
recovered-FitsRecord b f keys = elim (Bool-cases b.complete) [
  | inr n ↦ rw n tt
  | inl c ↦
      let in_scope : Record → Bool = λ r. text_eq r.scope b.scope in
      let kept = keep in_scope f.records in
      let fit : All (FitsRecord b.scope) kept =
        All-map (λ r. HasVisibleKey r × (in_scope r ≡ true)) (FitsRecord b.scope)
          (λ r h. record { key = h.0; scoped = (text_eq_iff r.scope b.scope).0 h.1 }) kept
          (All-both HasVisibleKey (λ r. in_scope r ≡ true) kept
            (All-keep HasVisibleKey in_scope f.records keys) (keep-passes in_scope f.records)) in
      rw c (
        All-sort record_key (FitsRecord b.scope) _ (
          All-keep (FitsRecord b.scope) _ _ (
            All-put_all record_key (FitsRecord b.scope) (sort record_key kept) []
              (All-sort record_key (FitsRecord b.scope) kept fit) tt)))
]

finish-Attempts :
    (P : Notification.Batch → Type 0) (o : Outside) (m : Manager) (r : Run)
    → Attempts P r.log
    → Attempts P (finish o m r).2
unfolding finish
finish-Attempts P o m r h = elim (Bool-cases (m.dirty || r.mutated)) [
  | inr clean ↦ rw (clean, finish) h
  | inl dirty ↦
      rw (dirty, finish)
        (elim (Option-cases (save o.codec (o.write_fails r.log) r.store)) [
          | inl ok ↦ rw ok h
          | inr (e, failed) ↦ rw failed h
        ])
]

-- Every batch that `Reconcile` hands to the sender, alert or recovery, passes `ValidateBatch`, so no
-- transport rejects it before it tries to send; and in the scope of the accounts it has one event.
-- The clock does not stand at Go's zero time, and no stored key is blank.
pub reconcile-IsSound :
    (o : Outside) (m : Manager) (b : Rule.Batch)
    → IsValid m.store
    → IsAccepted m b
    → All HasVisibleKey m.store.records
    → ((l : Log) → is_zero (o.now l) ≡ false)
    → Attempts IsSound (reconcile o m false b).2
reconcile-IsSound o m b v w keys ticking =
    let new_groups =
      delivery_groups-IsGroup condition_key (Fits b.scope) b.scope (new_conditions b m.store)
        (new_conditions-Fits m b v w) (Distinct-new_conditions m b v w) in
    let gone_groups =
      delivery_groups-IsGroup record_key (FitsRecord b.scope) b.scope (recovered b m.store)
        (recovered-FitsRecord b m.store keys) (Distinct-recovered m b v w) in
    rw (reconcile_accepted o m b w) (
      finish-Attempts IsSound o m (deliver o m b) (
        unfold deliver in
        recovery_groups-Attempts IsSound o m b.scope (delivery_groups b.scope (recovered b m.store))
          _
          (All-map _ _
            (λ g i l. recovery_batch-IsSound m b.scope (o.now l) w.scope w.hostname (ticking l) g i)
            (delivery_groups b.scope (recovered b m.store)) gone_groups)
          (alert_groups-Attempts IsSound o m b.scope
            (delivery_groups b.scope (new_conditions b m.store)) _ w.scope
            (All-map _ _
              (λ g i. (
                i.fit,
                λ l. alert_batch-IsSound m b.scope (o.now l) w.scope w.hostname (ticking l) g i,
              ))
              (delivery_groups b.scope (new_conditions b m.store)) new_groups)
            tt)))
