-- ===== src/Alerter/Groups.antt =====
-- What one delivery group of `Reconcile` does to the records, and to what counts as delivered.
use cpa_monitor.Base.{
  inr, inl, Bool-cases, All, Bool, List, Text, [], arith, false, find, has, if◌then◌else◌, is_blank,
  is_empty, is_some, keep_if, none, refl, some, text_eq, text_eq_iff, trim_left, trim_space, true,
  ℕ, ◌&&◌, ◌||◌, ◌∙◌, ◌∷◌, ◌≡◌,
}
use cpa_monitor.State.{Record, record_key, File, get, put_record, delete, validate_record}
use cpa_monitor.State.View.{get-put_record, put_record_error, get-delete, delete_found}
use cpa_monitor.Notification.{Kind, same_kind}
use cpa_monitor.Notification.Validity.{event_key}
use cpa_monitor.Rule.{Condition, condition_key}
use cpa_monitor.Rule.Checked.{Fits}
use cpa_monitor.Alerter.Message.{record_from_condition}
use cpa_monitor.Alerter.{
  Run, attempted, saved, Log, activate_one, activate, deactivate_one, deactivate,
}

-- The key has a record of the scope.
abbrev pub active_in : Text → Text → File → Bool
active_in scope j f = is_some (keep_if (λ r. text_eq r.scope scope) (get j f))

-- A batch of the kind with an event of the key was sent, and the sender reported no error.
unfoldable pub delivered : Kind → Text → Log → Bool
delivered k j [] = false
delivered k j (attempted b (some e) ∷ l) = delivered k j l
delivered k j (attempted b none ∷ l) =
    (same_kind b.kind k && has event_key j b.events) || delivered k j l
delivered k j (saved d stored ∷ l) = delivered k j l

visible_not_empty : (s : Text) → is_blank s ≡ false → is_empty s ≡ false
visible_not_empty [] h = unfold is_blank trim_space trim_left in h
visible_not_empty (c ∷ s) h = refl

pub record_from_condition-valid :
    (scope : Text) (c : Condition) (t : ℕ)
    → is_blank scope ≡ false
    → Fits scope c
    → validate_record (record_from_condition c t) ≡ none
unfolding validate_record record_from_condition
record_from_condition-valid scope c t v f =
    rw (visible_not_empty c.key f.key, visible_not_empty c.scope (rw (f.scoped) v))

module _ (scope : Text) (v : is_blank scope ≡ false) where
  activate_one-eq :
      (t : ℕ) (c : Condition) (r : Run)
      → Fits scope c
      → activate_one t c r
        ≡ record r { store = (put_record (record_from_condition c t) r.store).0; mutated = true }
  unfolding activate_one
  activate_one-eq t c r f =
      let fine : (put_record (record_from_condition c t) r.store).1 ≡ none =
        put_record_error (record_from_condition c t) r.store
        ∙ record_from_condition-valid scope c t v f in
      rw (fine, activate_one)

  active_in-put_record :
      (j : Text) (t : ℕ) (c : Condition) (f : File)
      → Fits scope c
      → active_in scope j (put_record (record_from_condition c t) f).0
        ≡ (active_in scope j f || text_eq c.key j)
  active_in-put_record j t c f fit =
      rw
        (get-put_record j (record_from_condition c t) f
          (record_from_condition-valid scope c t v fit))
        (unfold record_from_condition in ground (arith, text_eq_iff c.scope scope, fit.scoped))

  -- A delivered group is active, and adds no error.
  pub activate-active :
      (j : Text) (t : ℕ) (cs : List Condition) (r : Run)
      → All (Fits scope) cs
      → (active_in scope j (activate t cs r).store
          ≡ (active_in scope j r.store || has condition_key j cs))
        × ((activate t cs r).errors ≡ r.errors)
        × ((activate t cs r).log ≡ r.log)
  unfolding activate
  activate-active j t [] r a = (unfold find in ground arith, refl, refl)
  activate-active j t (c ∷ cs) r a =
      let next : Run = record r {
        store = (put_record (record_from_condition c t) r.store).0;
        mutated = true;
      } in
      let (ih, same, log) = activate-active j t cs next a.1 in
      rw (activate_one-eq t c r a.0, activate)
        (
          ih ∙ (rw (active_in-put_record j t c r.store a.0) (unfold find in ground arith)),
          same,
          log,
        )

  -- A record outside the group stays as it is.
  pub activate-others :
      (j : Text) (t : ℕ) (cs : List Condition) (r : Run)
      → All (Fits scope) cs
      → has condition_key j cs ≡ false
      → get j (activate t cs r).store ≡ get j r.store
  unfolding activate
  activate-others j t [] r a n = refl
  activate-others j t (c ∷ cs) r a n =
      let next : Run = record r {
        store = (put_record (record_from_condition c t) r.store).0;
        mutated = true;
      } in
      let differ : text_eq c.key j ≡ false = unfold find in ground arith in
      let others : has condition_key j cs ≡ false = unfold find in ground arith in
      rw (activate_one-eq t c r a.0, activate)
        (activate-others j t cs next a.1 others
          ∙ get-put_record j (record_from_condition c t) r.store
              (record_from_condition-valid scope c t v a.0)
          ∙ (unfold record_from_condition in rw differ))

get-deactivate_one :
    (j : Text) (x : Record) (r : Run)
    → get j (deactivate_one x r).store ≡ (if text_eq x.key j then none else get j r.store)
unfolding deactivate_one
get-deactivate_one j x r = elim (Bool-cases (text_eq x.key j)) [
  | inl t ↦
      let same : x.key ≡ j = (text_eq_iff x.key j).0 t in
      elim (Bool-cases (delete x.key r.store).1) [
        | inl found ↦ rw (found, t, deactivate_one) (get-delete j x.key r.store ∙ (rw t))
        | inr gone ↦
            rw (gone, t, deactivate_one) (rw (← same) (ground (arith, delete_found x.key r.store)))
      ]
  | inr f ↦ elim (Bool-cases (delete x.key r.store).1) [
    | inl found ↦ rw (found, f, deactivate_one) (get-delete j x.key r.store ∙ (rw f))
    | inr gone ↦ rw (gone, f, deactivate_one)
  ]
]

deactivate_one-frame :
    (x : Record) (r : Run)
    → ((deactivate_one x r).errors ≡ r.errors) × ((deactivate_one x r).log ≡ r.log)
unfolding deactivate_one
deactivate_one-frame x r = elim (Bool-cases (delete x.key r.store).1) [
  | inl t ↦ rw (t, deactivate_one) (refl, refl)
  | inr f ↦ rw (f, deactivate_one) (refl, refl)
]

-- Taking a group out empties its keys, and leaves every other key, the errors and the log.
pub get-deactivate :
    (j : Text) (xs : List Record) (r : Run)
    → (get j (deactivate xs r).store ≡ (if has record_key j xs then none else get j r.store))
      × ((deactivate xs r).errors ≡ r.errors)
      × ((deactivate xs r).log ≡ r.log)
unfolding deactivate
get-deactivate j [] r = (unfold find in refl, refl, refl)
get-deactivate j (x ∷ xs) r =
    let (ih, errors, log) = get-deactivate j xs (deactivate_one x r) in
    let (errors', log') = deactivate_one-frame x r in
    (ih ∙ (unfold find in ground (arith, get-deactivate_one j x r)), errors ∙ errors', log ∙ log')
