-- ===== src/Monitor/Verdict.antt =====
-- What a whole cycle does: the batches it reconciles, the error it returns, and the health report.
use cpa_monitor.Base.{
  All, Bool, List, Option-cases, Text, [], arith, false, if◌then◌else◌, inl, inr, is_empty, refl,
  str, text_eq, text_eq_refl, true, ◌&&◌, ◌∙◌, ◌∷◌, ◌≡◌, ◌⊎◌,
}
use cpa_monitor.Collector.{MemoryUsage, DiskBatch, TcpUsage}
use cpa_monitor.Cliproxy.{AuthFile}
use cpa_monitor.Rule.{
  Floats, scope_health, scope_memory, scope_disk, scope_network, scope_auth, Batch, health,
}
use cpa_monitor.Rule.Disks.{disks}
use cpa_monitor.Monitor.{
  HealthSnapshot, Runner, World, Run, note, note_errors, batch_healthy, batches_healthy,
  memory_batch, tcp_batch, auth_batch, collected_disks, disk_errors, memory_percent_of,
  tcp_usage_of, snapshot, send_report, check_health, check_memory, check_disk, check_tcp,
  check_auth,
}
use cpa_monitor.Monitor.Facts.{health-IsFor, memory-IsFor, disk-IsFor, tcp-IsFor, auth-IsFor}
use cpa_monitor.Monitor.Stages.{
  IsInterrupted, IsFinished, Judged, guard-Verdict, stage-Verdict, server-Verdict,
}
use cpa_monitor.Monitor.Cycle.{
  given_error, succeeded, health_check, memory_check, disk_check, tcp_check, auth_check,
  report_check, cycle, run_once,
}
use cpa_monitor.Monitor.Trace.{
  snoc_not_empty, all_scopes, reconciled_scopes, has_report, clean, calm, Sound, Progress,
}

auth_scope_hidden : text_eq scope_auth scope_auth ≡ true
auth_scope_hidden = text_eq_refl scope_auth

server_scopes :
    (text_eq scope_health scope_auth ≡ false)
    × (text_eq scope_memory scope_auth ≡ false)
    × (text_eq scope_disk scope_auth ≡ false)
    × (text_eq scope_network scope_auth ≡ false)
unfolding text_eq str
server_scopes = (refl, refl, refl, refl)

module _ {F : Type 0} (fl : Floats F) (cfg : Runner F) (w : World F) where
  abbrev Verdict : Run F → Type 0
  Verdict r = Judged fl cfg w r

  send_report-Verdict :
      (x : HealthSnapshot F) (r : Run F) (c : Bool)
      → (c && cfg.has_reporter) ≡ true
      → Progress all_scopes c true r
      → Verdict (send_report fl cfg w x r)
  unfolding send_report reconciled_scopes Sound clean calm has_report note
  send_report-Verdict x r c e p = elim (Option-cases (w.report r.log x)) [
    | inl ok ↦
        rw (ok, send_report)
          (
            (tt, p.sound),
            inr (record {
              scopes = p.scopes;
              failures = ground (arith, ok, p.failures);
              report = ground (arith, e, p.calmness);
            }),
          )
    | inr (err, bad) ↦
        rw (bad, send_report)
          (
            (tt, p.sound),
            inr (record {
              scopes = p.scopes;
              failures = snoc_not_empty r.errors _ ∙ ground (arith, bad);
              report = ground (arith, e, p.calmness);
            }),
          )
  ]

  if-Verdict :
      (t : Bool) (a b : Run F)
      → (t ≡ true → Verdict a)
      → (t ≡ false → Verdict b)
      → Verdict (if t then a else b)
  if-Verdict true a b f g = f refl
  if-Verdict false a b f g = g refl

  report-Verdict :
      (hb : Batch) (m : Text ⊎ MemoryUsage F) (d : DiskBatch F) (t : Text ⊎ TcpUsage) (ok : Bool)
      (files : Text ⊎ List AuthFile) (r : Run F) (c : Bool)
      → c ≡ (
          ok
          && batches_healthy (
              hb
              ∷ memory_batch fl cfg w m
              ∷ disks fl d cfg.disk_percent
              ∷ tcp_batch fl cfg w t
              ∷ []))
      → Progress all_scopes c true r
      → Verdict (report_check fl cfg w hb m d t ok files r)
  unfolding report_check
  report-Verdict hb m d t ok files r c e p =
      let bs =
        hb ∷ memory_batch fl cfg w m ∷ disks fl d cfg.disk_percent ∷ tcp_batch fl cfg w t ∷ [] in
      let x =
        snapshot fl cfg w (memory_percent_of fl cfg w m) d (tcp_usage_of fl cfg w t) files
          (succeeded files) in
      if-Verdict (ok && (batches_healthy bs && cfg.has_reporter)) (send_report fl cfg w x r) r
        (λ yes. send_report-Verdict x r c (ground (arith, e, yes)) p)
        (λ no. (
          p.sound,
          inr (record {
            scopes = p.scopes;
            failures = ground (arith, p.failures);
            report = p.silent ∙ ground (arith, e, no, p.calmness);
          }),
        ))

  -- The rest of the cycle after the checks of the server.
  auth-Verdict :
      (hb : Batch) (m : Text ⊎ MemoryUsage F) (d : DiskBatch F) (t : Text ⊎ TcpUsage) (r : Run F)
      → Progress
          (scope_network ∷ scope_disk ∷ scope_memory ∷ scope_health ∷ [])
          (clean r.log
            && (batch_healthy (tcp_batch fl cfg w t)
                && (batch_healthy (disks fl d cfg.disk_percent)
                    && (batch_healthy (memory_batch fl cfg w m) && (batch_healthy hb && true)))))
          true
          r
      → Verdict (auth_check fl cfg w (report_check fl cfg w hb m d t (is_empty r.errors)) r)
  unfolding auth_check batches_healthy
  auth-Verdict hb m d t r p =
      let files = w.auth_files r.log in
      let b = auth_batch fl cfg w files in
      stage-Verdict fl cfg w check_auth scope_auth b b.errors
        (report_check fl cfg w hb m d t (is_empty r.errors) files) _ (scope_auth ∷ []) [] _ r
        (auth-IsFor fl cfg w files) refl refl p
        (λ r' a k p'.
          report-Verdict hb m d t (is_empty r.errors) files r' _
            (ground (arith, auth_scope_hidden, p.failures)) p')

  cycle-Verdict :
      (r : Run F) → Progress [] (clean r.log && true) true r → Verdict (cycle fl cfg w r)
  unfolding cycle health_check memory_check disk_check tcp_check auth_check note_errors
  cycle-Verdict r p =
      let hb = health (w.health r.log) in
      server-Verdict fl cfg w check_health scope_health hb [] _ [] all_scopes
        (scope_auth ∷ scope_network ∷ scope_disk ∷ scope_memory ∷ []) true r
        (health-IsFor (w.health r.log)) server_scopes.0 refl refl p
        (λ r1 p1.
          let m = w.memory r1.log in
          server-Verdict fl cfg w check_memory scope_memory (memory_batch fl cfg w m)
            (given_error m) _ (scope_health ∷ [])
            (scope_auth ∷ scope_network ∷ scope_disk ∷ scope_memory ∷ [])
            (scope_auth ∷ scope_network ∷ scope_disk ∷ []) _ r1 (memory-IsFor fl cfg w m)
            server_scopes.1 refl refl p1
            (λ r2 p2.
              let x = w.disks r2.log in
              let d = collected_disks fl cfg w x in
              server-Verdict fl cfg w check_disk scope_disk (disks fl d cfg.disk_percent)
                (disk_errors fl cfg w x) _ (scope_memory ∷ scope_health ∷ [])
                (scope_auth ∷ scope_network ∷ scope_disk ∷ []) (scope_auth ∷ scope_network ∷ []) _
                r2 (disk-IsFor fl cfg w x) server_scopes.2 refl refl p2
                (λ r3 p3.
                  let t = w.tcp r3.log cfg.service_port in
                  server-Verdict fl cfg w check_tcp scope_network (tcp_batch fl cfg w t)
                    (given_error t) _ (scope_disk ∷ scope_memory ∷ scope_health ∷ [])
                    (scope_auth ∷ scope_network ∷ []) (scope_auth ∷ []) _ r3 (tcp-IsFor fl cfg w t)
                    server_scopes.3 refl refl p3 (λ r4 p4. auth-Verdict hb m d t r4 p4))))

-- A whole cycle, whatever the collaborators and the context answer. Every batch that it hands to the
-- reconciler is well-formed. If it does not come to its end, then the context had ended, it returns
-- an error, it has reported nothing, and the scopes reconciled so far are the first ones of health,
-- memory, disk, network and auth. Otherwise it has reconciled these five scopes in this order; it
-- returns no error exactly when no batch had an error and no call of the reconciler or of the
-- reporter failed; and it has handed a snapshot to the reporter exactly when there is one and the
-- batches of the four server scopes were complete, empty, and reconciled without an error.
pub run_once_lem :
    {F : Type 0} (fl : Floats F) (cfg : Runner F) (w : World F)
    → let (errors, log) = run_once fl cfg w in
      let r : Run F = record { errors = errors; log = log } in
      All Sound log × (IsInterrupted fl cfg w r ⊎ IsFinished fl cfg w r)
unfolding run_once reconciled_scopes clean calm has_report
run_once_lem {F = F} fl cfg w =
    let start : Run F = record { errors = []; log = [] } in
    let p : Progress [] (clean start.log && true) true start = record {
      scopes = refl;
      sound = tt;
      failures = refl;
      calmness = refl;
      silent = refl;
    } in
    guard-Verdict fl cfg w (cycle fl cfg w) [] all_scopes _ true start refl p
      (cycle-Verdict fl cfg w start p)
