-- ===== src/Alerter.antt =====
-- The alert manager: internal/alerter/manager.go. A value of `Outside` is what the world answers
-- during one call of `Reconcile`: its answers may depend on all that the call has done before, which
-- the log holds, newest first. The manager's sender and store are never nil here.
pub mod Message
pub mod Plan
pub mod Groups
pub mod Effect
pub mod Outcome
pub mod Sends
pub mod Saved
use cpa_monitor.Base.{
  Bool, List, Option, Text, [], false, has, if◌then◌else◌, is_blank, keep, map, none, not, put_all,
  some, sort, suc, text_eq, text_mem, true, ℕ, ◌++◌, ◌||◌, ◌∷◌,
}
use cpa_monitor.State.{
  Time, Record, record_key, Document, StateError, File, by_scope, put_record, delete, document,
}
use cpa_monitor.State.Persist.{Codec, save, save_bytes}
use cpa_monitor.Notification.{Kind, alert, recovery, Event}
use cpa_monitor.Notification
use cpa_monitor.Notification.Router.{SendError}
use cpa_monitor.Rule.{Condition, condition_key, scope_auth}
use cpa_monitor.Rule
use Message.{alert_event, recovery_event, record_from_condition}

-- What the manager has done to the outside: a batch handed to the sender, and the sender's answer;
-- a document handed to the disk, and whether it was stored.
pub data Happening : Type 0 where
  attempted : Notification.Batch → Option SendError → Happening
  saved : Document → Bool → Happening

abbrev pub Log : Type 0
Log = List Happening

pub record Outside : Type 0 where
  pub send : Log → Notification.Batch → Option SendError
  pub now : Log → Time
  pub codec : Codec
  pub write_fails : Log → Text → Text → Bool

pub record Manager : Type 0 where
  pub hostname : Text
  pub base_url : Text
  pub send_recovery : Bool
  pub store : File
  pub dirty : Bool

pub data ReconcileError : Type 0 where
  cancelled hostname_required base_url_required scope_required : ReconcileError
  condition_key_required : ℕ → ReconcileError
  scope_mismatch : Text → ReconcileError
  duplicate_condition : Text → ReconcileError
  send_failed : Kind → List Text → SendError → ReconcileError
  activate_failed : Text → StateError → ReconcileError
  save_failed : StateError → ReconcileError

-- The loop of `validate`, from the `i`-th condition, with the keys seen.
unfoldable pub conditions_error : Text → ℕ → List Text → List Condition → Option ReconcileError
conditions_error scope i seen [] = none
conditions_error scope i seen (c ∷ cs) =
    let rest = conditions_error scope (suc i) (c.key ∷ seen) cs in
    if is_blank c.key
    then some (condition_key_required i)
    else if not (text_eq c.scope scope)
    then some (scope_mismatch c.key)
    else if text_mem c.key seen
    then some (duplicate_condition c.key)
    else rest

unfoldable pub validate : Manager → Rule.Batch → Option ReconcileError
validate m b =
    if is_blank m.hostname
    then some hostname_required
    else if is_blank m.base_url
    then some base_url_required
    else if is_blank b.scope
    then some scope_required
    else conditions_error b.scope 1 [] b.conditions

-- `conditionDeliveryGroups` and `recoveryDeliveryGroups`.
unfoldable pub delivery_groups {ℓ} : {A : Type ℓ} → Text → List A → List (List A)
delivery_groups scope [] = []
delivery_groups scope (x ∷ xs) =
    if text_eq scope scope_auth then map (λ y. y ∷ []) (x ∷ xs) else (x ∷ xs) ∷ []

-- The local variables of `Reconcile` that its loops change, with the store and the log.
pub record Run : Type 0 where
  pub store : File
  pub mutated : Bool
  pub errors : List ReconcileError
  pub log : Log

unfoldable pub event_keys : List Event → List Text
event_keys es = map (λ e. e.key) es

-- One round of the loop over a delivered group.
unfoldable pub activate_one : Time → Condition → Run → Run
activate_one timestamp c r =
    let (store, err) = put_record (record_from_condition c timestamp) r.store in
    elim err [
      | none ↦ record r { store = store; mutated = true }
      | some e ↦ record r { errors = r.errors ++ activate_failed c.key e ∷ [] }
    ]

unfoldable pub activate : Time → List Condition → Run → Run
activate timestamp [] r = r
activate timestamp (c ∷ cs) r = activate timestamp cs (activate_one timestamp c r)

unfoldable pub deactivate_one : Record → Run → Run
deactivate_one x r =
    let (store, found) = delete x.key r.store in
    if found then record r { store = store; mutated = true } else r

unfoldable pub deactivate : List Record → Run → Run
deactivate [] r = r
deactivate (x ∷ xs) r = deactivate xs (deactivate_one x r)

unfoldable pub alert_batch : Manager → Text → Time → List Condition → Notification.Batch
alert_batch m scope timestamp group = record {
  kind = alert;
  scope = scope;
  hostname = m.hostname;
  timestamp = timestamp;
  events = map (λ c. alert_event m.hostname m.base_url c timestamp) group;
}

unfoldable pub recovery_batch : Manager → Text → Time → List Record → Notification.Batch
recovery_batch m scope timestamp group = record {
  kind = recovery;
  scope = scope;
  hostname = m.hostname;
  timestamp = timestamp;
  events = map (λ r. recovery_event m.hostname m.base_url r timestamp) group;
}

-- Hands a batch to the sender, and notes the attempt and an error.
unfoldable pub attempt : Outside → Notification.Batch → Run → Option SendError × Run
attempt o b r =
    let answer = o.send r.log b in
    let log = attempted b answer ∷ r.log in
    (
      answer,
      elim answer [
        | none ↦ record r { log = log }
        | some e ↦ record r {
          log = log;
          errors = r.errors ++ send_failed b.kind (event_keys b.events) e ∷ [];
        }
      ],
    )

-- After an attempt to announce a group of conditions: they become active if it was delivered.
unfoldable pub after_alert : Time → List Condition → Option SendError × Run → Run
after_alert timestamp group (none, r) = activate timestamp group r
after_alert timestamp group (some e, r) = r

-- A group of recovered records is taken out once it was announced, or at once where recoveries are
-- not announced.
unfoldable pub after_recovery : Bool → List Record → Run → Option SendError × Run → Run
after_recovery false group r answer = deactivate group r
after_recovery true group r (none, r') = deactivate group r'
after_recovery true group r (some e, r') = r'

module _ (o : Outside) (m : Manager) (scope : Text) where
  unfoldable pub alert_group : List Condition → Run → Run
  alert_group group r =
      let timestamp = o.now r.log in
      after_alert timestamp group (attempt o (alert_batch m scope timestamp group) r)

  unfoldable pub alert_groups : List (List Condition) → Run → Run
  alert_groups [] r = r
  alert_groups (g ∷ gs) r = alert_groups gs (alert_group g r)

  unfoldable pub recovery_group : List Record → Run → Run
  recovery_group group r =
      after_recovery m.send_recovery group r
        (attempt o (recovery_batch m scope (o.now r.log) group) r)

  unfoldable pub recovery_groups : List (List Record) → Run → Run
  recovery_groups [] r = r
  recovery_groups (g ∷ gs) r = recovery_groups gs (recovery_group g r)

-- `conditions` and `activeByKey`.
unfoldable pub by_key : List Condition → List Condition
by_key cs = put_all condition_key cs []

unfoldable pub active_by_key : Text → File → List Record
active_by_key scope f = put_all record_key (by_scope scope f) []

unfoldable pub new_conditions : Rule.Batch → File → List Condition
new_conditions b f =
    sort condition_key
      (keep (λ c. not (has record_key c.key (active_by_key b.scope f))) (by_key b.conditions))

unfoldable pub recovered : Rule.Batch → File → List Record
recovered b f =
    if b.complete
    then sort record_key
        (keep (λ r. not (has condition_key r.key (by_key b.conditions))) (active_by_key b.scope f))
    else []

-- The two loops over the delivery groups.
unfoldable pub deliver : Outside → Manager → Rule.Batch → Run
deliver o m b =
    let start : Run = record { store = m.store; mutated = false; errors = []; log = [] } in
    recovery_groups o m b.scope (delivery_groups b.scope (recovered b m.store))
      (alert_groups o m b.scope (delivery_groups b.scope (new_conditions b m.store)) start)

-- The end of `Reconcile`: a store that has changed since the last save is saved.
unfoldable pub finish : Outside → Manager → Run → List ReconcileError × Manager × Log
finish o m r =
    let dirty = m.dirty || r.mutated in
    let result = save o.codec (o.write_fails r.log) r.store in
    if dirty
    then (elim result [
      | none ↦ (
        r.errors,
        record m { store = r.store; dirty = false },
        saved (document r.store) true ∷ r.log,
      )
      | some e ↦ (
        r.errors ++ save_failed e ∷ [],
        record m { store = r.store; dirty = true },
        saved (document r.store) false ∷ r.log,
      )
    ])
    else (r.errors, record m { store = r.store; dirty = false }, r.log)

-- `Reconcile`: the joined errors, the manager, and what was done. `stopped` is `ctx.Err() != nil`.
unfoldable pub reconcile :
    Outside → Manager → Bool → Rule.Batch → List ReconcileError × Manager × Log
reconcile o m stopped b = elim (validate m b) [
  | some e ↦ (e ∷ [], m, [])
  | none ↦ if stopped then (cancelled ∷ [], m, []) else finish o m (deliver o m b)
]
