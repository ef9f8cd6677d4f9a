-- ===== src/Monitor/Trace.antt =====
-- What the log of a cycle shows, and what each step of the cycle adds to it.
use cpa_monitor.Base.{
  All, Bool, List, Option-cases, Text, [], ap, arith, false, inl, inr, is_empty, is_none, refl,
  text_eq, true, ◌&&◌, ◌++◌, ◌||◌, ◌∙◌, ◌∷◌, ◌≡◌,
}
use cpa_monitor.Rule.{
  scope_health, scope_memory, scope_disk, scope_network, scope_auth, Batch, EntryError,
}
use cpa_monitor.Rule.Checked.{IsWellFormed}
use cpa_monitor.Monitor.{
  Check, World, Run, RunError, Happening, asked, reconciled, reported, Log, ask, note, note_errors,
  reconcile_scope, batch_healthy,
}

-- The scopes of a whole cycle, the last one first.
abbrev pub all_scopes : List Text
all_scopes = scope_auth ∷ scope_network ∷ scope_disk ∷ scope_memory ∷ scope_health ∷ []

pub snoc_not_empty : (es : List RunError) (e : RunError) → is_empty (es ++ e ∷ []) ≡ false
snoc_not_empty [] e = refl
snoc_not_empty (x ∷ es) e = refl

module _ {F : Type 0} where
  -- The scopes of the batches that were reconciled, the last one first.
  unfoldable pub reconciled_scopes : Log F → List Text
  reconciled_scopes [] = []
  reconciled_scopes (asked c ∷ l) = reconciled_scopes l
  reconciled_scopes (reconciled b answer ∷ l) = b.scope ∷ reconciled_scopes l
  reconciled_scopes (reported s answer ∷ l) = reconciled_scopes l

  unfoldable pub has_report : Log F → Bool
  has_report [] = false
  has_report (asked c ∷ l) = has_report l
  has_report (reconciled b answer ∷ l) = has_report l
  has_report (reported s answer ∷ l) = true

  -- Nothing failed: no batch has an error, and the reconciler and the reporter gave none.
  unfoldable pub clean : Log F → Bool
  clean [] = true
  clean (asked c ∷ l) = clean l
  clean (reconciled b answer ∷ l) = is_empty b.errors && (is_none answer && clean l)
  clean (reported s answer ∷ l) = is_none answer && clean l

  -- The batches of the server's scopes are complete, without a condition or an error, and were
  -- reconciled without an error.
  unfoldable pub calm : Log F → Bool
  calm [] = true
  calm (asked c ∷ l) = calm l
  calm (reconciled b answer ∷ l) =
      (text_eq b.scope scope_auth || (batch_healthy b && is_none answer)) && calm l
  calm (reported s answer ∷ l) = calm l

  unfoldable pub Sound : Happening F → Type 0
  Sound (asked c) = Unit
  Sound (reconciled b answer) = IsWellFormed b
  Sound (reported s answer) = Unit

  -- A cycle that has reconciled the scopes `done`, with `calm` of its log, before a batch whose
  -- errors were noted, unless there are none.
  pub record Progress (done : List Text) (c none_noted : Bool) (r : Run F) : Type 0 where
    pub scopes : reconciled_scopes r.log ≡ done
    pub sound : All Sound r.log
    pub failures : is_empty r.errors ≡ (clean r.log && none_noted)
    pub calmness : calm r.log ≡ c
    pub silent : has_report r.log ≡ false

  pub note_not_empty : (e : RunError) (r : Run F) → is_empty (note e r).errors ≡ false
  unfolding note
  note_not_empty e r = snoc_not_empty r.errors e

  pub note_log : (e : RunError) (r : Run F) → (note e r).log ≡ r.log
  unfolding note
  note_log e r = refl

  pub ask-Progress :
      (k : Check) (d : List Text) (c n : Bool) (r : Run F)
      → Progress d c n r
      → Progress d c n (ask k r)
  unfolding ask reconciled_scopes Sound clean calm has_report
  ask-Progress k d c n r p = record {
    scopes = p.scopes;
    sound = (tt, p.sound);
    failures = p.failures;
    calmness = p.calmness;
    silent = p.silent;
  }

  pub note_errors-Progress :
      (k : Check) (es : List EntryError) (d : List Text) (c : Bool) (r : Run F)
      → Progress d c true r
      → Progress d c (is_empty es) (note_errors k es r)
  unfolding note_errors note
  note_errors-Progress k [] d c r p = p
  note_errors-Progress k (e ∷ es) d c r p = record {
    scopes = p.scopes;
    sound = p.sound;
    failures = snoc_not_empty r.errors _ ∙ ground arith;
    calmness = p.calmness;
    silent = p.silent;
  }

  pub reconcile_scope-Progress :
      (w : World F) (b : Batch) (d : List Text) (c : Bool) (r : Run F)
      → IsWellFormed b
      → Progress d c (is_empty b.errors) r
      → Progress
          (b.scope ∷ d)
          ((text_eq b.scope scope_auth || (batch_healthy b && is_none (w.reconcile r.log b))) && c)
          true
          (reconcile_scope w b r)
  unfolding reconcile_scope reconciled_scopes Sound clean calm has_report note
  reconcile_scope-Progress w b d c r v p = elim (Option-cases (w.reconcile r.log b)) [
    | inl ok ↦
        rw (ok, reconcile_scope)
          (record {
            scopes = ap (λ xs. b.scope ∷ xs) p.scopes;
            sound = (v, p.sound);
            failures = p.failures ∙ ground arith;
            calmness = ground (arith, ok, p.calmness);
            silent = p.silent;
          })
    | inr (e, bad) ↦
        rw (bad, reconcile_scope)
          (record {
            scopes = ap (λ xs. b.scope ∷ xs) p.scopes;
            sound = (v, p.sound);
            failures = snoc_not_empty r.errors _ ∙ ground arith;
            calmness = ground (arith, bad, p.calmness);
            silent = p.silent;
          })
  ]

  -- What a step does to `clean`.
  pub clean-ask : (k : Check) (r : Run F) → clean (ask k r).log ≡ clean r.log
  unfolding ask clean
  clean-ask k r = refl

  pub clean-note_errors :
      (k : Check) (es : List EntryError) (r : Run F) → clean (note_errors k es r).log ≡ clean r.log
  unfolding note_errors note
  clean-note_errors k [] r = refl
  clean-note_errors k (e ∷ es) r = refl

  pub clean-reconcile_scope :
      (w : World F) (b : Batch) (r : Run F)
      → clean (reconcile_scope w b r).log
        ≡ (is_empty b.errors && (is_none (w.reconcile r.log b) && clean r.log))
  unfolding reconcile_scope clean note
  clean-reconcile_scope w b r = elim (Option-cases (w.reconcile r.log b)) [
    | inl ok ↦ ground (arith, ok)
    | inr (e, bad) ↦ ground (arith, bad)
  ]
