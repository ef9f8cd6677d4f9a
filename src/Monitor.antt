-- ===== src/Monitor.antt =====
-- One monitor cycle: internal/monitor/runner.go. A value of `World` is what the API client, the host
-- collector, the reconciler, the health reporter and the context answer during a cycle: their answers
-- may depend on all that the cycle has done before, which the log holds, newest first. Percentages
-- are of a type `F`. The dependencies are never nil here, except the health reporter.

pub mod Cycle
pub mod Loop
pub mod Trace
mod Facts
pub mod Stages
pub mod Verdict
use cpa_monitor.Base.{
  pos, Bool, List, Option, Text, [], add_int64, decimal, false, has, if◌then◌else◌, inl, inr,
  is_empty, leb, length, none, not, pos_part, some, str, suc, trim_space, true, ℕ, ℤ, ◌&&◌, ◌++◌,
  ◌==◌, ◌||◌, ◌∷◌, ◌⊎◌,
}
use cpa_monitor.Collector.{MemoryUsage, DiskUsage, DiskBatch, DiskError, TcpUsage}
use cpa_monitor.Cliproxy.{RecentRequest, AuthFile, Decoders, chatgpt_account_id}
use cpa_monitor.Rule.{
  Floats, EntryError, check_error, scope_health, scope_memory, scope_disk, scope_network,
  scope_auth, Batch, health, memory, tcp,
}
use cpa_monitor.Rule.Disks.{disks}
use cpa_monitor.Rule.Auth.{auth}

pub record AccountUsage : Type 0 where
  pub auth_index : Text
  pub account_id : Text
  pub label : Text
  pub provider : Text
  pub success : ℤ
  pub failed : ℤ
  pub recent_success : ℤ
  pub recent_failed : ℤ

pub record HealthSnapshot (F : Type 0) : Type 0 where
  pub memory_used_percent : F
  pub memory_threshold : F
  pub highest_disk_used_percent : F
  pub disk_mount_count : ℕ
  pub disk_threshold : F
  pub total_tcp_connections : ℕ
  pub total_tcp_threshold : ℕ
  pub service_port : ℕ
  pub service_port_connections : ℕ
  pub service_port_threshold : ℕ
  pub account_usage_available : Bool
  pub account_count : ℕ
  pub enabled_account_count : ℕ
  pub account_usages : List AccountUsage

-- The settings of `Options`; the ints are as they come.
pub record Options (F : Type 0) : Type 0 where
  pub has_reporter : Bool
  pub service_port : ℤ
  pub memory_percent : F
  pub disk_percent : F
  pub total_tcp_connections : ℤ
  pub service_port_connections : ℤ

pub record Runner (F : Type 0) : Type 0 where
  pub has_reporter : Bool
  pub service_port : ℕ
  pub memory_percent : F
  pub disk_percent : F
  pub total_tcp_connections : ℕ
  pub service_port_connections : ℕ

pub data RunnerError : Type 0 where
  bad_service_port bad_memory_percent bad_disk_percent bad_total_threshold bad_service_threshold :
      RunnerError

-- `validateRunnerPercent`: the value is refused.
unfoldable pub bad_percent : {F : Type 0} → Floats F → F → Bool
bad_percent fl x = fl.is_nan x || (fl.is_inf x || (fl.le x fl.zero_percent || fl.gt x fl.hundred))

-- `NewRunner`, from the test of the port on.
unfoldable pub new_runner : {F : Type 0} → Floats F → Options F → RunnerError ⊎ Runner F
new_runner fl o =
    if not (leb 1 (pos_part o.service_port) && leb (pos_part o.service_port) 65535)
    then inl bad_service_port
    else if bad_percent fl o.memory_percent
    then inl bad_memory_percent
    else if bad_percent fl o.disk_percent
    then inl bad_disk_percent
    else if pos_part o.total_tcp_connections == 0
    then inl bad_total_threshold
    else if pos_part o.service_port_connections == 0
    then inl bad_service_threshold
    else inr (record {
      has_reporter = o.has_reporter;
      service_port = pos_part o.service_port;
      memory_percent = o.memory_percent;
      disk_percent = o.disk_percent;
      total_tcp_connections = pos_part o.total_tcp_connections;
      service_port_connections = pos_part o.service_port_connections;
    })

unfoldable pub sum_success : List RecentRequest → ℤ → ℤ
sum_success [] n = n
sum_success (r ∷ rs) n = sum_success rs (add_int64 n r.success)

unfoldable pub sum_failed : List RecentRequest → ℤ → ℤ
sum_failed [] n = n
sum_failed (r ∷ rs) n = sum_failed rs (add_int64 n r.failed)

-- `accountProvider`.
unfoldable pub account_provider : AuthFile → Text
account_provider file =
    let provider = trim_space file.provider in
    if not (is_empty provider) then provider else trim_space file.kind

-- The loop of `accountLabel`, and what follows it.
unfoldable pub first_label : List Text → ℕ → Text
first_label [] position = str "#" ++ decimal position
first_label (v ∷ vs) position =
    let rest = first_label vs position in
    if not (is_empty (trim_space v)) then trim_space v else rest

unfoldable pub account_label : AuthFile → ℕ → Text
account_label file position =
    first_label (file.email ∷ file.account ∷ file.name ∷ file.auth_index ∷ []) position

unfoldable pub account_usage : Decoders → AuthFile → ℕ → AccountUsage
account_usage d file position = record {
  auth_index = file.auth_index;
  account_id = chatgpt_account_id d file;
  label = account_label file position;
  provider = account_provider file;
  success = file.success;
  failed = file.failed;
  recent_success = sum_success file.recent_requests (pos 0);
  recent_failed = sum_failed file.recent_requests (pos 0);
}

-- `enabledAccountUsages`, from the file at a position from 1.
unfoldable pub enabled_account_usages : Decoders → ℕ → List AuthFile → List AccountUsage
enabled_account_usages d i [] = []
enabled_account_usages d i (f ∷ fs) =
    let rest = enabled_account_usages d (suc i) fs in
    if f.disabled then rest else account_usage d f i ∷ rest

-- `batchesHealthy`.
unfoldable pub batch_healthy : Batch → Bool
batch_healthy b = b.complete && (is_empty b.conditions && is_empty b.errors)

unfoldable pub batches_healthy : List Batch → Bool
batches_healthy [] = true
batches_healthy (b ∷ bs) = batch_healthy b && batches_healthy bs

-- `incompleteBatch`, which the cycle calls with an error.
unfoldable pub incomplete_batch : Text → Text → Batch
incomplete_batch scope err = record {
  scope = scope;
  complete = false;
  conditions = [];
  errors = check_error err ∷ [];
}

-- The check that a step of the cycle is about.
pub data Check : Type 0 where
  check_health check_memory check_disk check_tcp check_auth : Check

pub data RunError : Type 0 where
  context_error : RunError
  check_failed : Check → List EntryError → RunError
  reconcile_failed : Text → Text → RunError
  report_failed : Text → RunError

-- What the cycle has done: asked for the facts of a check, handed a batch to the reconciler, or a
-- snapshot to the health reporter; with the answer of the last two.
pub data Happening (F : Type 0) : Type 0 where
  asked : Check → Happening F
  reconciled : Batch → Option Text → Happening F
  reported : HealthSnapshot F → Option Text → Happening F

abbrev pub Log : Type 0 → Type 0
Log F = List (Happening F)

pub record World (F : Type 0) : Type 0 where
  pub stopped : Log F → Bool
  pub health : Log F → Option Text
  pub memory : Log F → Text ⊎ MemoryUsage F
  pub disks : Log F → DiskBatch F × Option Text
  pub tcp : Log F → ℕ → Text ⊎ TcpUsage
  pub auth_files : Log F → Text ⊎ List AuthFile
  pub reconcile : Log F → Batch → Option Text
  pub report : Log F → HealthSnapshot F → Option Text
  pub decoders : Decoders

-- `runErrors`, and the log.
pub record Run (F : Type 0) : Type 0 where
  pub errors : List RunError
  pub log : Log F

unfoldable pub ask : {F : Type 0} → Check → Run F → Run F
ask c r = record r { log = asked c ∷ r.log }

unfoldable pub note : {F : Type 0} → RunError → Run F → Run F
note e r = record r { errors = r.errors ++ e ∷ [] }

-- `if ctx.Err() != nil { return joinContextError(...) }`, and the rest of the cycle.
unfoldable pub unless_stopped : {F : Type 0} → World F → (Run F → Run F) → Run F → Run F
unless_stopped w next r = if w.stopped r.log then note context_error r else next r

-- The method `reconcile`.
unfoldable pub reconcile_scope : {F : Type 0} → World F → Batch → Run F → Run F
reconcile_scope w b r =
    let answer = w.reconcile r.log b in
    let done : Run _ = record r { log = reconciled b answer ∷ r.log } in
    elim answer [ none ↦ done | some e ↦ note (reconcile_failed b.scope e) done ]

-- The batch is reconciled, and the cycle goes on unless it is stopped.
unfoldable pub settle : {F : Type 0} → World F → Batch → (Run F → Run F) → Run F → Run F
settle w b next r = unless_stopped w next (reconcile_scope w b r)

-- The error of a check is recorded; an empty list is no error.
unfoldable pub note_errors : {F : Type 0} → Check → List EntryError → Run F → Run F
note_errors c [] r = r
note_errors c (e ∷ es) r = note (check_failed c (e ∷ es)) r

module _ {F : Type 0} (fl : Floats F) (cfg : Runner F) (w : World F) where
  unfoldable pub memory_batch : Text ⊎ MemoryUsage F → Batch
  memory_batch (inl err) = incomplete_batch scope_memory err
  memory_batch (inr usage) = memory fl usage cfg.memory_percent

  unfoldable pub memory_percent_of : Text ⊎ MemoryUsage F → F
  memory_percent_of (inl err) = fl.zero_percent
  memory_percent_of (inr usage) = usage.used_percent

  -- A collector error always makes the scope incomplete.
  unfoldable pub collected_disks : DiskBatch F × Option Text → DiskBatch F
  collected_disks (d, none) = d
  collected_disks (d, some err) = record d {
    complete = false;
    errors =
        if is_empty d.errors then (record { mount_point = []; cause = err }) ∷ [] else d.errors;
  }

  unfoldable pub disk_errors : DiskBatch F × Option Text → List EntryError
  disk_errors (d, none) = (disks fl d cfg.disk_percent).errors
  disk_errors (d, some err) = check_error err ∷ []

  unfoldable pub tcp_batch : Text ⊎ TcpUsage → Batch
  tcp_batch (inl err) = incomplete_batch scope_network err
  tcp_batch (inr usage) =
      tcp usage cfg.service_port cfg.total_tcp_connections cfg.service_port_connections

  -- The collector's counts; they are read only where it gave no error.
  unfoldable pub tcp_usage_of : Text ⊎ TcpUsage → TcpUsage
  tcp_usage_of (inl err) = record { total_connections = 0; service_port_connections = 0 }
  tcp_usage_of (inr usage) = usage

  unfoldable pub auth_batch : Text ⊎ List AuthFile → Batch
  auth_batch (inl err) = incomplete_batch scope_auth err
  auth_batch (inr files) = auth files

  -- The loop that finds the highest percentage.
  unfoldable pub highest_disk : List (DiskUsage F) → F → F
  highest_disk [] h = h
  highest_disk (d ∷ ds) h = highest_disk ds (if fl.gt d.used_percent h then d.used_percent else h)

  unfoldable pub accounts_of : Text ⊎ List AuthFile → List AccountUsage
  accounts_of (inl err) = []
  accounts_of (inr files) = enabled_account_usages w.decoders 1 files

  unfoldable pub account_count_of : Text ⊎ List AuthFile → ℕ
  account_count_of (inl err) = 0
  account_count_of (inr files) = length files

  unfoldable pub snapshot :
      F → DiskBatch F → TcpUsage → Text ⊎ List AuthFile → Bool → HealthSnapshot F
  snapshot percent d t files available = record {
    memory_used_percent = percent;
    memory_threshold = cfg.memory_percent;
    highest_disk_used_percent = highest_disk d.disks fl.zero_percent;
    disk_mount_count = length d.disks;
    disk_threshold = cfg.disk_percent;
    total_tcp_connections = t.total_connections;
    total_tcp_threshold = cfg.total_tcp_connections;
    service_port = cfg.service_port;
    service_port_connections = t.service_port_connections;
    service_port_threshold = cfg.service_port_connections;
    account_usage_available = available;
    account_count = account_count_of files;
    enabled_account_count = length (accounts_of files);
    account_usages = accounts_of files;
  }

  -- `ReportHealthy`, and its error.
  unfoldable pub send_report : HealthSnapshot F → Run F → Run F
  send_report s r =
      let answer = w.report r.log s in
      let done : Run F = record r { log = reported s answer ∷ r.log } in
      elim answer [ none ↦ done | some e ↦ note (report_failed e) done ]
