-- ===== src/Alerter/Plan.antt =====
-- What `Reconcile` sets out to do: the new conditions and the recovered records, by key.
use cpa_monitor.Base.{
  find-key, Option-cases, ◌&&◌, All, All-keep, All-put_all, All-sort, Bool-cases, Distinct,
  Distinct-keep, Distinct-put_all, Distinct-sort, Fresh, Fresh-cons, Fresh-nil, Fresh-uncons, List,
  Text, [], ap, arith, false, find, find-keep, find-put_all, find-sort, has, if◌then◌else◌, inl,
  inr, is_blank, keep_if, none, not, refl, suc, text_eq, text_eq_iff, text_mem, ℕ, ◌↔◌, ◌∙◌, ◌∷◌,
  ◌≡◌,
}
use cpa_monitor.State.{record_key, get, by_scope}
use cpa_monitor.State.View.{IsValid, find-by_scope, by_scope-Distinct}
use cpa_monitor.Rule.{Condition, condition_key}
use cpa_monitor.Rule
use cpa_monitor.Rule.Checked.{Fits}
use cpa_monitor.Alerter.Groups.{active_in}
use cpa_monitor.Alerter.{
  Manager, conditions_error, validate, by_key, active_by_key, new_conditions, recovered,
}

-- What `validate` checks.
pub record IsAccepted (m : Manager) (b : Rule.Batch) : Type 0 where
  pub hostname : is_blank m.hostname ≡ false
  pub base_url : is_blank m.base_url ≡ false
  pub scope : is_blank b.scope ≡ false
  pub fit : All (Fits b.scope) b.conditions
  pub distinct : Distinct condition_key b.conditions

conditions_error-none :
    (scope : Text) (i : ℕ) (seen : List Text) (cs : List Condition)
    → All (Fits scope) cs
    → Distinct condition_key cs
    → Fresh condition_key seen cs
    → conditions_error scope i seen cs ≡ none
unfolding conditions_error
conditions_error-none scope i seen [] a d f = refl
conditions_error-none scope i seen (c ∷ cs) a d f =
    rw (a.0.key, (text_eq_iff c.scope scope).1 a.0.scoped, f.0, conditions_error)
      (conditions_error-none scope (suc i) (c.key ∷ seen) cs a.1 d.1
        (Fresh-cons condition_key c.key seen cs d.0 f.1))

none-conditions_error :
    (scope : Text) (i : ℕ) (seen : List Text) (cs : List Condition)
    → conditions_error scope i seen cs ≡ none
    → All (Fits scope) cs × Distinct condition_key cs × Fresh condition_key seen cs
unfolding conditions_error
none-conditions_error scope i seen [] h = (tt, tt, tt)
none-conditions_error scope i seen (c ∷ cs) h =
    let new_key : text_mem c.key seen ≡ false = ground arith in
    let rest = none-conditions_error scope (suc i) (c.key ∷ seen) cs (ground arith) in
    let fresh = Fresh-uncons condition_key c.key seen cs rest.2 in
    (
      (record { key = ground arith; scoped = ground (arith, text_eq_iff c.scope scope) }, rest.0),
      (fresh.0, rest.1),
      (new_key, fresh.1),
    )

-- The batch is accepted exactly when the host, the base URL, the scope and every key are not blank,
-- every condition has the batch's scope, and no key stands twice.
pub validate-IsAccepted : (m : Manager) (b : Rule.Batch) → (validate m b ≡ none) ↔ IsAccepted m b
validate-IsAccepted m b = (accepted, valid)
  where
    accepted : validate m b ≡ none → IsAccepted m b
    accepted h =
        let es : conditions_error b.scope 1 [] b.conditions ≡ none =
          unfold validate in ground arith in
        let (a, d, f) = none-conditions_error b.scope 1 [] b.conditions es in
        record {
          hostname = unfold validate in ground arith;
          base_url = unfold validate in ground arith;
          scope = unfold validate in ground arith;
          fit = a;
          distinct = d;
        }

    valid : IsAccepted m b → validate m b ≡ none
    valid v =
        unfold validate in
        rw (v.hostname, v.base_url, v.scope)
          (conditions_error-none b.scope 1 [] b.conditions v.fit v.distinct
            (Fresh-nil condition_key b.conditions))

-- A well-formed batch, such as every rule produces, is accepted by a manager whose host and base URL
-- are not blank.
pub IsWellFormed-IsAccepted :
    (m : Manager) (b : Rule.Batch)
    → is_blank m.hostname ≡ false
    → is_blank m.base_url ≡ false
    → Rule.Checked.IsWellFormed b
    → IsAccepted m b
IsWellFormed-IsAccepted m b h u w = record {
  hostname = h;
  base_url = u;
  scope = w.scope;
  fit = w.fit;
  distinct = w.distinct;
}

module _ (m : Manager) (b : Rule.Batch) (v : IsValid m.store) (w : IsAccepted m b) where
  Distinct-by_key : Distinct condition_key (by_key b.conditions)
  unfolding by_key
  Distinct-by_key = Distinct-put_all condition_key b.conditions [] tt

  find-by_key :
      (j : Text) → find condition_key j (by_key b.conditions) ≡ find condition_key j b.conditions
  unfolding by_key
  find-by_key j =
      find-put_all condition_key j b.conditions [] w.distinct ∙ (unfold find in ground arith)

  Distinct-active : Distinct record_key (active_by_key b.scope m.store)
  unfolding active_by_key
  Distinct-active = Distinct-put_all record_key (by_scope b.scope m.store) [] tt

  find-active :
      (j : Text)
      → find record_key j (active_by_key b.scope m.store)
        ≡ keep_if (λ r. text_eq r.scope b.scope) (get j m.store)
  unfolding active_by_key
  find-active j =
      find-put_all record_key j (by_scope b.scope m.store) [] (by_scope-Distinct b.scope m.store v)
      ∙ only
      ∙ find-by_scope j b.scope m.store v
    where
      only :
          (if has record_key j (by_scope b.scope m.store)
            then find record_key j (by_scope b.scope m.store)
            else find record_key j [])
          ≡ find record_key j (by_scope b.scope m.store)
      only = unfold find in ground arith

  -- New conditions are those whose key is not active in the scope.
  pub find-new_conditions :
      (j : Text)
      → find condition_key j (new_conditions b m.store)
        ≡ keep_if
            (λ c. not (has record_key c.key (active_by_key b.scope m.store)))
            (find condition_key j b.conditions)
  unfolding new_conditions
  find-new_conditions j =
      find-sort condition_key j _
        (Distinct-keep condition_key _ (by_key b.conditions) Distinct-by_key)
      ∙ find-keep condition_key _ j (by_key b.conditions) Distinct-by_key
      ∙ ap (keep_if (λ c. not (has record_key c.key (active_by_key b.scope m.store))))
          (find-by_key j)

  pub Distinct-new_conditions : Distinct condition_key (new_conditions b m.store)
  unfolding new_conditions
  Distinct-new_conditions =
      Distinct-sort condition_key _
        (Distinct-keep condition_key _ (by_key b.conditions) Distinct-by_key)

  pub new_conditions-Fits : All (Fits b.scope) (new_conditions b m.store)
  unfolding new_conditions by_key
  new_conditions-Fits = All-sort condition_key (Fits b.scope) _ (
      All-keep (Fits b.scope) _ (by_key b.conditions)
        (All-put_all condition_key (Fits b.scope) b.conditions [] w.fit tt))

  -- Recovered records are the active ones of the scope whose key the batch lacks.
  pub find-recovered :
      (j : Text)
      → find record_key j (recovered b m.store) ≡ (
          if b.complete
          then keep_if
              (λ r. not (has condition_key r.key (by_key b.conditions)))
              (keep_if (λ r. text_eq r.scope b.scope) (get j m.store))
          else none)
  unfolding recovered
  find-recovered j = elim (Bool-cases b.complete) [
    | inl t ↦ rw t (
        find-sort record_key j _ (Distinct-keep record_key _ _ Distinct-active)
        ∙ find-keep record_key _ j (active_by_key b.scope m.store) Distinct-active
        ∙ ap (keep_if (λ r. not (has condition_key r.key (by_key b.conditions)))) (find-active j))
    | inr f ↦ rw f (unfold find in refl)
  ]

  pub Distinct-recovered : Distinct record_key (recovered b m.store)
  unfolding recovered
  Distinct-recovered = elim (Bool-cases b.complete) [
    | inl t ↦ rw t (Distinct-sort record_key _ (Distinct-keep record_key _ _ Distinct-active))
    | inr f ↦ rw f tt
  ]

  -- The new keys are those of the batch that are not active in its scope.
  pub has-new_conditions :
      (j : Text)
      → has condition_key j (new_conditions b m.store)
        ≡ (has condition_key j b.conditions && not (active_in b.scope j m.store))
  has-new_conditions j = elim (Option-cases (find condition_key j b.conditions)) [
    | inl none' ↦ rw (find-new_conditions j) (rw none')
    | inr (c, found) ↦
        let same : c.key ≡ j = find-key condition_key j b.conditions found in
        rw (find-new_conditions j) (rw found (rw same (ground (arith, find-active j))))
  ]

  -- The recovered keys are, in a complete batch, the active ones of the scope that it lacks.
  pub has-recovered :
      (j : Text)
      → has record_key j (recovered b m.store)
        ≡ (b.complete && (active_in b.scope j m.store && not (has condition_key j b.conditions)))
  has-recovered j = elim (Option-cases (get j m.store)) [
    | inl none' ↦ rw (find-recovered j) (rw none' (ground arith))
    | inr (r, found) ↦
        let same : r.key ≡ j = unfold get in find-key record_key j m.store.records found in
        rw (find-recovered j) (
          rw found (
            ground
              (arith, find-by_key j, ap (λ k. has condition_key k (by_key b.conditions)) same)))
  ]
