-- ===== src/Monitor/Cycle.antt =====
-- `RunOnce` of internal/monitor/runner.go, one definition for each of its five checks; `next` is the
-- rest of the cycle.
use cpa_monitor.Base.{
  Bool, List, Text, [], false, if◌then◌else◌, inl, inr, is_empty, true, ◌&&◌, ◌∷◌, ◌⊎◌,
}
use cpa_monitor.Collector.{MemoryUsage, DiskBatch, TcpUsage}
use cpa_monitor.Cliproxy.{AuthFile}
use cpa_monitor.Rule.{Floats, EntryError, check_error, Batch, health}
use cpa_monitor.Rule.Disks.{disks}
use cpa_monitor.Monitor.{
  Runner, World, Run, Happening, check_health, check_memory, check_disk, check_tcp, check_auth, ask,
  unless_stopped, settle, note_errors, memory_batch, memory_percent_of, collected_disks,
  disk_errors, tcp_batch, tcp_usage_of, auth_batch, snapshot, send_report, batches_healthy,
  RunError,
}

-- The error that a collector gave, as one to record.
unfoldable pub given_error {ℓ} : {A : Type ℓ} → Text ⊎ A → List EntryError
given_error (inl err) = check_error err ∷ []
given_error (inr value) = []

unfoldable pub succeeded {ℓ} : {A : Type ℓ} → Text ⊎ A → Bool
succeeded (inl err) = false
succeeded (inr value) = true

module _ {F : Type 0} (fl : Floats F) (cfg : Runner F) (w : World F) where
  unfoldable pub health_check : (Batch → Run F → Run F) → Run F → Run F
  health_check next r =
      let b = health (w.health r.log) in unless_stopped w (settle w b (next b)) (ask check_health r)

  unfoldable pub memory_check : (Text ⊎ MemoryUsage F → Run F → Run F) → Run F → Run F
  memory_check next r =
      let facts = w.memory r.log in
      unless_stopped w
        (λ s.
          settle w (memory_batch fl cfg w facts) (next facts)
            (note_errors check_memory (given_error facts) s))
        (ask check_memory r)

  unfoldable pub disk_check : (DiskBatch F → Run F → Run F) → Run F → Run F
  disk_check next r =
      let facts = w.disks r.log in
      let d = collected_disks fl cfg w facts in
      unless_stopped w
        (λ s.
          settle w (disks fl d cfg.disk_percent) (next d)
            (note_errors check_disk (disk_errors fl cfg w facts) s))
        (ask check_disk r)

  unfoldable pub tcp_check : (Text ⊎ TcpUsage → Run F → Run F) → Run F → Run F
  tcp_check next r =
      let facts = w.tcp r.log cfg.service_port in
      unless_stopped w
        (λ s.
          settle w (tcp_batch fl cfg w facts) (next facts)
            (note_errors check_tcp (given_error facts) s))
        (ask check_tcp r)

  unfoldable pub auth_check : (Text ⊎ List AuthFile → Run F → Run F) → Run F → Run F
  auth_check next r =
      let facts = w.auth_files r.log in
      let b = auth_batch fl cfg w facts in
      unless_stopped w (λ s. settle w b (next facts) (note_errors check_auth b.errors s))
        (ask check_auth r)

  -- The end of the cycle: `ok` is `serverRunErrorCount == 0`.
  unfoldable pub report_check :
      Batch
      → Text ⊎ MemoryUsage F
      → DiskBatch F
      → Text ⊎ TcpUsage
      → Bool
      → Text ⊎ List AuthFile
      → Run F
      → Run F
  report_check hb m d t ok files r =
      let server =
        hb ∷ memory_batch fl cfg w m ∷ disks fl d cfg.disk_percent ∷ tcp_batch fl cfg w t ∷ [] in
      if ok && (batches_healthy server && cfg.has_reporter)
      then send_report fl cfg w
          (snapshot fl cfg w (memory_percent_of fl cfg w m) d (tcp_usage_of fl cfg w t) files
            (succeeded files))
          r
      else r

  unfoldable pub cycle : Run F → Run F
  cycle = health_check (λ hb. memory_check (λ m.
      disk_check
        (λ d. tcp_check (λ t s. auth_check (report_check hb m d t (is_empty s.errors)) s))))

  -- `RunOnce`: the joined errors, and what was done.
  unfoldable pub run_once : List RunError × List (Happening F)
  run_once =
      let start : Run F = record { errors = []; log = [] } in
      let end = unless_stopped w cycle start in (end.errors, end.log)
