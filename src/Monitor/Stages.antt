-- ===== src/Monitor/Stages.antt =====
-- One check of the cycle of internal/monitor/runner.go, together with the rest of the cycle.
use cpa_monitor.Base.{
  All, Bool, Bool-cases, List, Text, ap, arith, false, inl, inr, is_empty, is_none, subst, text_eq,
  true, ◌&&◌, ◌++◌, ◌||◌, ◌∙◌, ◌∷◌, ◌≡◌, ◌⊎◌,
}
use cpa_monitor.Rule.{Floats, EntryError, scope_auth, Batch}
use cpa_monitor.Monitor.{
  Runner, Check, World, Run, context_error, Log, ask, note_errors, reconcile_scope, unless_stopped,
  settle, batch_healthy,
}
use cpa_monitor.Monitor.Facts.{IsFor}
use cpa_monitor.Monitor.Trace.{
  clean-ask, clean-note_errors, clean-reconcile_scope, all_scopes, reconciled_scopes, has_report,
  clean, calm, Sound, Progress, note_not_empty, note_log, ask-Progress, note_errors-Progress,
  reconcile_scope-Progress,
}

healthy_clean :
    (b : Batch) (a k h k' x : Bool)
    → x ≡ false
    → k' ≡ (is_empty b.errors && (a && k))
    → ((x || (batch_healthy b && a)) && (k && h)) ≡ (k' && (batch_healthy b && h))
unfolding batch_healthy
healthy_clean b a k h k' x e f = ground (arith, e, f)

module _ {F : Type 0} (fl : Floats F) (cfg : Runner F) (w : World F) where
  -- The context ended: the scopes so far are the first ones, and nothing was reported.
  pub record IsInterrupted (r : Run F) : Type 0 where
    pub stopped : (l : Log F) × (w.stopped l ≡ true)
    pub failed : is_empty r.errors ≡ false
    pub silent : has_report r.log ≡ false
    pub prefix : (later : List Text) × (later ++ reconciled_scopes r.log ≡ all_scopes)

  -- The cycle came to its end.
  pub record IsFinished (r : Run F) : Type 0 where
    pub scopes : reconciled_scopes r.log ≡ all_scopes
    pub failures : is_empty r.errors ≡ clean r.log
    pub report : has_report r.log ≡ (cfg.has_reporter && calm r.log)

  abbrev pub Judged : Run F → Type 0
  Judged r = All Sound r.log × (IsInterrupted r ⊎ IsFinished r)

  pub guard-Verdict :
      (next : Run F → Run F) (d later : List Text) (c n : Bool) (r : Run F)
      → later ++ d ≡ all_scopes
      → Progress d c n r
      → Judged (next r)
      → Judged (unless_stopped w next r)
  unfolding unless_stopped
  guard-Verdict next d later c n r e p v = elim (Bool-cases (w.stopped r.log)) [
    | inr go ↦ rw (go, unless_stopped) v
    | inl stop ↦
        rw (stop, unless_stopped)
          (rw (note_log context_error r) (
            p.sound,
            inl (record {
              stopped = (r.log, stop);
              failed = note_not_empty context_error r;
              silent = p.silent;
              prefix = (later, rw (p.scopes) e);
            }),
          ))
  ]

  pub stage-Verdict :
      (k : Check) (s : Text) (b : Batch) (es : List EntryError) (next : Run F → Run F)
      (d later later' : List Text) (c : Bool) (r : Run F)
      → IsFor s b es
      → later ++ d ≡ all_scopes
      → later' ++ s ∷ d ≡ all_scopes
      → Progress d c true r
      → ((r' : Run F) (a : Bool)
          → (clean r'.log ≡ (is_empty b.errors && (a && clean r.log)))
          → Progress (s ∷ d) ((text_eq s scope_auth || (batch_healthy b && a)) && c) true r'
          → Judged (next r'))
      → Judged (unless_stopped w (λ t. settle w b next (note_errors k es t)) (ask k r))
  unfolding settle
  stage-Verdict k s b es next d later later' c r f e e' p v =
      let t0 = ask k r in
      let t1 = note_errors k es t0 in
      let r' = reconcile_scope w b t1 in
      let a = is_none (w.reconcile t1.log b) in
      let p0 : Progress d c true t0 = ask-Progress k d c true r p in
      let p1 : Progress d c (is_empty b.errors) t1 =
        subst (λ n. Progress d c n t1) (f.errors) (note_errors-Progress k es d c t0 p0) in
      let p2 : Progress (s ∷ d) ((text_eq s scope_auth || (batch_healthy b && a)) && c) true r' =
        subst
          (λ x. Progress (x ∷ d) ((text_eq x scope_auth || (batch_healthy b && a)) && c) true r')
          (f.scope) (reconcile_scope-Progress w b d c t1 f.well p1) in
      let k2 : clean r'.log ≡ (is_empty b.errors && (a && clean r.log)) =
        clean-reconcile_scope w b t1
        ∙ ap (λ x. is_empty b.errors && (a && x)) (clean-note_errors k es t0 ∙ clean-ask k r) in
      guard-Verdict (λ t. settle w b next (note_errors k es t)) d later c true t0 e p0
        (guard-Verdict next (s ∷ d) later' _ true r' e' p2 (v r' a k2 p2))

  -- A check of the server. `h` tells whether the batches so far are healthy.
  pub server-Verdict :
      (k : Check) (s : Text) (b : Batch) (es : List EntryError) (next : Run F → Run F)
      (d later later' : List Text) (h : Bool) (r : Run F)
      → IsFor s b es
      → text_eq s scope_auth ≡ false
      → later ++ d ≡ all_scopes
      → later' ++ s ∷ d ≡ all_scopes
      → Progress d (clean r.log && h) true r
      → ((r' : Run F)
          → Progress (s ∷ d) (clean r'.log && (batch_healthy b && h)) true r'
          → Judged (next r'))
      → Judged (unless_stopped w (λ t. settle w b next (note_errors k es t)) (ask k r))
  server-Verdict k s b es next d later later' h r f x e e' p v =
      stage-Verdict k s b es next d later later' (clean r.log && h) r f e e' p (λ r' a k2 p2. v r' (
        subst (λ c. Progress (s ∷ d) c true r')
          (healthy_clean b a (clean r.log) h (clean r'.log) _ x k2) p2))
