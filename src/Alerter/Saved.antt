-- ===== src/Alerter/Saved.antt =====
-- The state file behind the alert manager, and the dirty flag.
use cpa_monitor.Base.{
  Bool, Bool-cases, List, Option, Option-cases, Text, [], ap, arith, false, inl, inr, is_empty,
  none, refl, some, sym, true, ℕ, ◌++◌, ◌||◌, ◌∙◌, ◌∷◌, ◌≡◌, ◌⊎◌,
}
use cpa_monitor.State.{Record, Document, File, document, put_record, delete}
use cpa_monitor.State.Persist.{save}
use cpa_monitor.Notification
use cpa_monitor.Rule.{Condition}
use cpa_monitor.Rule
use cpa_monitor.Notification.Router.{SendError}
use cpa_monitor.Alerter.Message.{record_from_condition}
use cpa_monitor.Alerter.{
  Outside, Manager, Run, attempted, saved, Log, activate_one, activate, deactivate_one, deactivate,
  attempt, after_alert, after_recovery, alert_group, alert_groups, recovery_group, recovery_groups,
  deliver, delivery_groups, finish, ReconcileError, save_failed, reconcile, validate, recovered,
  new_conditions, alert_batch, recovery_batch,
}

-- The document on disk after the log, from the one before it.
unfoldable pub on_disk : Option Document → Log → Option Document
on_disk d [] = d
on_disk d (attempted b answer ∷ l) = on_disk d l
on_disk d (saved doc true ∷ l) = some doc
on_disk d (saved doc false ∷ l) = on_disk d l

-- What a manager that is not dirty keeps is saved, where `loaded` is the state that it began with and
-- `disk` the last document that was saved since: that document is the one of its state, or nothing was
-- saved and it has the state that it began with.
pub record IsSynced (loaded : File) (m : Manager) (disk : Option Document) : Type 0 where
  pub at_rest :
      m.dirty ≡ false → (disk ≡ some (document m.store)) ⊎ ((disk ≡ none) × (m.store ≡ loaded))

-- A run that has not mutated anything has the store that it began with; it has saved nothing.
record IsSteady (f : File) (d : Option Document) (r : Run) : Type 0 where
  steady : r.mutated ≡ false → r.store ≡ f
  unsaved : on_disk d r.log ≡ d

module _ (f : File) (d : Option Document) where
  activate_one-IsSteady :
      (t : ℕ) (c : Condition) (r : Run) → IsSteady f d r → IsSteady f d (activate_one t c r)
  unfolding activate_one
  activate_one-IsSteady t c r s =
      elim (Option-cases (put_record (record_from_condition c t) r.store).1) [
        | inl ok ↦ rw (ok, activate_one) (record { steady = λ e. cc; unsaved = s.unsaved })
        | inr (e, bad) ↦ rw (bad, activate_one) (record { steady = s.steady; unsaved = s.unsaved })
      ]

  activate-IsSteady :
      (t : ℕ) (cs : List Condition) (r : Run) → IsSteady f d r → IsSteady f d (activate t cs r)
  unfolding activate
  activate-IsSteady t [] r s = s
  activate-IsSteady t (c ∷ cs) r s =
      activate-IsSteady t cs (activate_one t c r) (activate_one-IsSteady t c r s)

  deactivate_one-IsSteady :
      (x : Record) (r : Run) → IsSteady f d r → IsSteady f d (deactivate_one x r)
  unfolding deactivate_one
  deactivate_one-IsSteady x r s = elim (Bool-cases (delete x.key r.store).1) [
    | inl found ↦ rw (found, deactivate_one) (record { steady = λ e. cc; unsaved = s.unsaved })
    | inr gone ↦ rw (gone, deactivate_one) s
  ]

  deactivate-IsSteady :
      (xs : List Record) (r : Run) → IsSteady f d r → IsSteady f d (deactivate xs r)
  unfolding deactivate
  deactivate-IsSteady [] r s = s
  deactivate-IsSteady (x ∷ xs) r s =
      deactivate-IsSteady xs (deactivate_one x r) (deactivate_one-IsSteady x r s)

  attempt-IsSteady :
      (o : Outside) (b : Notification.Batch) (r : Run)
      → IsSteady f d r
      → IsSteady f d (attempt o b r).1
  unfolding attempt on_disk
  attempt-IsSteady o b r s = elim (Option-cases (o.send r.log b)) [
    | inl sent ↦ rw (sent, attempt) (record { steady = s.steady; unsaved = s.unsaved })
    | inr (e, failed) ↦ rw (failed, attempt) (record { steady = s.steady; unsaved = s.unsaved })
  ]

  after_alert-IsSteady :
      (t : ℕ) (g : List Condition) (a : Option SendError × Run)
      → IsSteady f d a.1
      → IsSteady f d (after_alert t g a)
  unfolding after_alert
  after_alert-IsSteady t g (none, r) s = activate-IsSteady t g r s
  after_alert-IsSteady t g (some e, r) s = s

  after_recovery-IsSteady :
      (announced : Bool) (g : List Record) (r : Run) (a : Option SendError × Run)
      → IsSteady f d r
      → IsSteady f d a.1
      → IsSteady f d (after_recovery announced g r a)
  unfolding after_recovery
  after_recovery-IsSteady false g r a s s' = deactivate-IsSteady g r s
  after_recovery-IsSteady true g r (none, r') s s' = deactivate-IsSteady g r' s'
  after_recovery-IsSteady true g r (some e, r') s s' = s'

  module _ (o : Outside) (m : Manager) (scope : Text) where
    alert_groups-IsSteady :
        (gs : List (List Condition)) (r : Run)
        → IsSteady f d r
        → IsSteady f d (alert_groups o m scope gs r)
    unfolding alert_groups alert_group
    alert_groups-IsSteady [] r s = s
    alert_groups-IsSteady (g ∷ gs) r s = alert_groups-IsSteady gs (alert_group o m scope g r) (
        after_alert-IsSteady (o.now r.log) g _
          (attempt-IsSteady o (alert_batch m scope (o.now r.log) g) r s))

    recovery_groups-IsSteady :
        (gs : List (List Record)) (r : Run)
        → IsSteady f d r
        → IsSteady f d (recovery_groups o m scope gs r)
    unfolding recovery_groups recovery_group
    recovery_groups-IsSteady [] r s = s
    recovery_groups-IsSteady (g ∷ gs) r s =
        recovery_groups-IsSteady gs (recovery_group o m scope g r) (
          after_recovery-IsSteady m.send_recovery g r _ s
            (attempt-IsSteady o (recovery_batch m scope (o.now r.log) g) r s))

deliver-IsSteady :
    (o : Outside) (m : Manager) (b : Rule.Batch) (d : Option Document)
    → IsSteady m.store d (deliver o m b)
unfolding deliver on_disk
deliver-IsSteady o m b d =
    recovery_groups-IsSteady m.store d o m b.scope (delivery_groups b.scope (recovered b m.store)) _
      (alert_groups-IsSteady m.store d o m b.scope
        (delivery_groups b.scope (new_conditions b m.store)) _
        (record { steady = λ e. refl; unsaved = refl }))

snoc_not_empty : (es : List ReconcileError) (e : ReconcileError) → is_empty (es ++ e ∷ []) ≡ false
snoc_not_empty [] e = refl
snoc_not_empty (x ∷ es) e = refl

finish-IsSynced :
    (loaded : File) (o : Outside) (m : Manager) (r : Run) (d : Option Document)
    → IsSynced loaded m d
    → IsSteady m.store d r
    → IsSynced loaded (finish o m r).1 (on_disk d (finish o m r).2)
      × (is_empty (finish o m r).0 ≡ true → (finish o m r).1.dirty ≡ false)
unfolding finish on_disk
finish-IsSynced loaded o m r d y s = elim (Bool-cases (m.dirty || r.mutated)) [
  | inr clean ↦
      let same : r.store ≡ m.store = s.steady (ground (arith, clean)) in
      rw (clean, finish)
        (
          record {
            at_rest = λ e. elim (y.at_rest (ground (arith, clean))) [
              | inl rested ↦ inl (s.unsaved ∙ rested ∙ ap (λ f. some (document f)) (sym same))
              | inr (unsaved, first) ↦ inr (s.unsaved ∙ unsaved, same ∙ first)
            ];
          },
          λ h. refl,
        )
  | inl dirty ↦
      rw (dirty, finish)
        (elim (Option-cases (save o.codec (o.write_fails r.log) r.store)) [
          | inl ok ↦ rw ok (record { at_rest = λ e. inl refl }, λ h. refl)
          | inr (e, failed) ↦
              rw failed
                (record { at_rest = λ h. cc }, λ h. cc (h, snoc_not_empty r.errors (save_failed e)))
        ])
]

-- A call keeps it; and after a call without an error the manager is not dirty.
reconcile_one-IsSynced :
    (loaded : File) (o : Outside) (m : Manager) (stopped : Bool) (b : Rule.Batch)
    (disk : Option Document)
    → IsSynced loaded m disk
    → let (errors, m', log) = reconcile o m stopped b in
      IsSynced loaded m' (on_disk disk log) × (is_empty errors ≡ true → m'.dirty ≡ false)
unfolding reconcile on_disk
reconcile_one-IsSynced loaded o m stopped b disk y = elim (Option-cases (validate m b)) [
  | inr (e, bad) ↦ rw (bad, reconcile) (y, λ h. cc)
  | inl fine ↦ elim (Bool-cases stopped) [
    | inl late ↦ rw (fine, late, reconcile) (y, λ h. cc)
    | inr go ↦
        rw (fine, go, reconcile)
          (finish-IsSynced loaded o m (deliver o m b) disk y (deliver-IsSteady o m b disk))
  ]
]

-- What is outside of a call, whether it comes after cancellation, and its batch.
abbrev pub Turn : Type 0
Turn = Outside × Bool × Rule.Batch

-- The calls of `Reconcile`, one after the other, and the last document that they saved.
unfoldable pub reconcile_all : Manager → Option Document → List Turn → Manager × Option Document
reconcile_all m disk [] = (m, disk)
reconcile_all m disk ((o, stopped, b) ∷ turns) =
    let (errors, m', log) = reconcile o m stopped b in reconcile_all m' (on_disk disk log) turns

reconcile_all-IsSynced :
    (loaded : File) (turns : List Turn) (m : Manager) (disk : Option Document)
    → IsSynced loaded m disk
    → let (m', disk') = reconcile_all m disk turns in IsSynced loaded m' disk'
unfolding reconcile_all
reconcile_all-IsSynced loaded [] m disk y = y
reconcile_all-IsSynced loaded ((o, stopped, b) ∷ turns) m disk y =
    reconcile_all-IsSynced loaded turns _ _ (reconcile_one-IsSynced loaded o m stopped b disk y).0

-- From a manager that is not dirty, as `NewManager` makes it, over any sequence of calls of `Reconcile`,
-- accepted or not, whatever fails, and one more call: where the manager is not dirty, the last document
-- that was saved is that of its state, or none was saved and its state is the one that it began with;
-- and if the last call gives no error, the manager is not dirty.
pub reconcile-IsSynced :
    (m : Manager) (turns : List Turn) (o : Outside) (stopped : Bool) (b : Rule.Batch)
    → m.dirty ≡ false
    → let (n, disk) = reconcile_all m none turns in
      let (errors, n', log) = reconcile o n stopped b in
      IsSynced m.store n' (on_disk disk log) × (is_empty errors ≡ true → n'.dirty ≡ false)
reconcile-IsSynced m turns o stopped b clean =
    let (n, disk) = reconcile_all m none turns in
    reconcile_one-IsSynced m.store o n stopped b disk
      (reconcile_all-IsSynced m.store turns m none (record { at_rest = λ e. inr (refl, refl) }))
