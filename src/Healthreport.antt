-- ===== src/Healthreport.antt =====
-- The schedule of healthy-status messages: internal/healthreport/manager.go. A value of `Outside` is
-- what the sender, the fetchers, the clock and the disk answer during one call of `ReportHealthy`.
-- The sender and the store are never nil here.

pub mod Schedule
pub mod Content
pub mod Coherent
use cpa_monitor.Base.{
  Bool, List, Option, Text, [], equal_fold, false, if◌then◌else◌, inl, inr, is_empty, length, ltb,
  none, not, pos, pos_part, some, str, suc, trim_space, true, ℕ, ℤ, ◌&&◌, ◌++◌, ◌+◌, ◌==◌, ◌||◌,
  ◌∷◌, ◌⊎◌,
}
use cpa_monitor.State.{
  Time, is_zero, HealthReportState, StateError, Document, File, set_health_report, document,
}
use cpa_monitor.State.Persist.{Codec, save}
use cpa_monitor.Monitor.{HealthSnapshot}
use cpa_monitor.Monitor
use cpa_monitor.Rule.{Floats}
use cpa_monitor.Notification.Health.{
  QuotaWindow, AccountUsage, HealthReport, validate_account_usage, validate_version_info,
}

-- `cliproxy.QuotaWindow` without its length, which is not used here, and `cliproxy.CodexQuota`.
pub record CodexQuota (F : Type 0) : Type 0 where
  pub plan_type : Text
  pub windows : List (QuotaWindow F)

pub record VersionStatus : Type 0 where
  pub current_version : Text
  pub latest_version : Text
  pub comparison_available : Bool
  pub update_available : Bool

-- A fetcher that is not configured is none; the quota of the `i`-th account may differ between calls.
pub record Outside (F : Type 0) : Type 0 where
  pub now : Time
  pub codex_quota : Option (ℕ → Text → Text → Text ⊎ CodexQuota F)
  pub version_status : Option (Text ⊎ VersionStatus)
  pub send_health : HealthReport F → Option Text
  pub codec : Codec
  pub write_fails : Text → Text → Bool

pub record Options : Type 0 where
  pub enabled : Bool
  pub interval : ℤ
  pub retry_interval : ℤ
  pub hostname : Text
  pub base_url : Text

pub record Manager : Type 0 where
  pub enabled : Bool
  pub interval : ℕ
  pub retry_interval : ℕ
  pub hostname : Text
  pub base_url : Text

pub data OptionError : Type 0 where
  interval_required retry_interval_required hostname_required base_url_required : OptionError

pub data ReportError : Type 0 where
  send_failed : Text → ReportError
  update_failed save_failed : StateError → ReportError

abbrev pub releases_url : Text
releases_url = str "https://github.com/router-for-me/CLIProxyAPI/releases"

-- `New`.
unfoldable pub new_manager : Options → OptionError ⊎ Manager
new_manager o =
    if pos_part o.interval == 0
    then inl interval_required
    else if pos_part o.retry_interval == 0
    then inl retry_interval_required
    else if is_empty o.hostname
    then inl hostname_required
    else if is_empty o.base_url
    then inl base_url_required
    else inr (record {
      enabled = o.enabled;
      interval = pos_part o.interval;
      retry_interval = pos_part o.retry_interval;
      hostname = o.hostname;
      base_url = o.base_url;
    })

-- What a call of `ReportHealthy` leaves: the report that it sent with the sender's answer, if any;
-- the errors it joins; the store; and the document that it stored, if any.
pub record Outcome (F : Type 0) : Type 0 where
  pub message : Option (HealthReport F × Option Text)
  pub errors : List ReportError
  pub store : File
  pub stored : Option Document

unfoldable pub due : HealthReportState → Time → ℕ → ℕ → Bool
due current now interval retry =
    if is_zero current.last_sent_at
    then is_zero current.last_attempt_at || not (ltb now (current.last_attempt_at + retry))
    else if ltb now (current.last_sent_at + interval)
    then false
    else if ltb current.last_sent_at current.last_attempt_at
        && ltb now (current.last_attempt_at + retry)
    then false
    else true

module _ {F : Type 0} (fl : Floats F) (o : Outside F) where
  -- The account with the quota that was fetched.
  unfoldable pub quota_candidate : AccountUsage F → CodexQuota F → AccountUsage F
  quota_candidate target quota = record target {
    plan_type = quota.plan_type;
    quota_available = true;
    quota_windows = quota.windows;
  }

  unfoldable pub checked_quota : AccountUsage F → Text ⊎ CodexQuota F → AccountUsage F
  checked_quota target (inl err) = target
  checked_quota target (inr quota) =
      let candidate = quota_candidate target quota in
      elim (validate_account_usage fl candidate) [ none ↦ candidate | some e ↦ target ]

  -- `addQuota`, for the `i`-th account.
  unfoldable pub add_quota : ℕ → Monitor.AccountUsage → AccountUsage F → AccountUsage F
  add_quota i source target =
      let supported = record target { quota_supported = true } in
      if not (equal_fold (trim_space source.provider) (str "codex"))
      then target
      else (elim o.codex_quota [
        | none ↦ supported
        | some fetch ↦ checked_quota supported (fetch i source.auth_index source.account_id)
      ])

  unfoldable pub reported_usage : Monitor.AccountUsage → AccountUsage F
  reported_usage usage = record {
    label = usage.label;
    provider = usage.provider;
    plan_type = [];
    quota_supported = false;
    quota_available = false;
    quota_windows = [];
    success = usage.success;
    failed = usage.failed;
    recent_success = usage.recent_success;
    recent_failed = usage.recent_failed;
  }

  unfoldable pub reported_usages : ℕ → List Monitor.AccountUsage → List (AccountUsage F)
  reported_usages i [] = []
  reported_usages i (u ∷ us) = add_quota i u (reported_usage u) ∷ reported_usages (suc i) us

  unfoldable pub version_candidate : HealthReport F → VersionStatus → HealthReport F
  version_candidate report status = record report {
    version_check_available = true;
    current_version = status.current_version;
    latest_version = status.latest_version;
    version_comparable = status.comparison_available;
    update_available = status.update_available;
  }

  -- `addVersion`.
  unfoldable pub add_version : HealthReport F → HealthReport F
  add_version report = elim o.version_status [
    | none ↦ report
    | some (inl err) ↦ report
    | some (inr status) ↦ elim (validate_version_info (version_candidate report status)) [
      | none ↦ version_candidate report status
      | some e ↦ report
    ]
  ]

  -- The report before the version is added.
  unfoldable pub base_report : Manager → HealthSnapshot F → HealthReport F
  base_report m s = record {
    hostname = m.hostname;
    timestamp = o.now;
    next_scheduled_at = o.now + m.interval;
    base_url = m.base_url;
    memory_used_percent = s.memory_used_percent;
    memory_threshold = s.memory_threshold;
    highest_disk_used_percent = s.highest_disk_used_percent;
    disk_mount_count = pos s.disk_mount_count;
    disk_threshold = s.disk_threshold;
    total_tcp_connections = pos s.total_tcp_connections;
    total_tcp_threshold = pos s.total_tcp_threshold;
    service_port = pos s.service_port;
    service_port_connections = pos s.service_port_connections;
    service_port_threshold = pos s.service_port_threshold;
    account_usage_available = s.account_usage_available;
    account_count = pos s.account_count;
    enabled_account_count = pos s.enabled_account_count;
    account_usages = reported_usages 0 s.account_usages;
    version_check_available = false;
    current_version = [];
    latest_version = [];
    version_comparable = false;
    update_available = false;
    release_url = releases_url;
  }

  unfoldable pub health_report : Manager → HealthSnapshot F → HealthReport F
  health_report m s = add_version (base_report m s)

  -- The schedule after an attempt with the sender's answer.
  unfoldable pub attempted : HealthReportState → Option Text → HealthReportState
  attempted current none = record { last_attempt_at = o.now; last_sent_at = o.now }
  attempted current (some e) = record current { last_attempt_at = o.now }

  unfoldable pub send_errors : Option Text → List ReportError
  send_errors none = []
  send_errors (some e) = send_failed e ∷ []

  -- After the message was handed to the sender: the errors, the store, and the document that was
  -- stored, if any.
  unfoldable pub keep_schedule :
      Option Text → File × Option StateError → List ReportError × File × Option Document
  keep_schedule answer (f, some e) = (send_errors answer ++ update_failed e ∷ [], f, none)
  keep_schedule answer (f, none) = elim (save o.codec o.write_fails f) [
    | none ↦ (send_errors answer, f, some (document f))
    | some e ↦ (send_errors answer ++ save_failed e ∷ [], f, none)
  ]

  -- `ReportHealthy`.
  unfoldable pub report_healthy : Manager → File → HealthSnapshot F → Outcome F
  report_healthy m f s =
      let report = health_report m s in
      let answer = o.send_health report in
      let (errors, store, stored) =
        keep_schedule answer (set_health_report (attempted f.health answer) f) in
      let idle : Outcome F = record { message = none; errors = []; store = f; stored = none } in
      if not m.enabled
      then idle
      else if not (due f.health o.now m.interval m.retry_interval)
      then idle
      else (record {
        message = some (report, answer);
        errors = errors;
        store = store;
        stored = stored;
      })
