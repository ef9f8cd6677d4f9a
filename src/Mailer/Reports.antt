-- ===== src/Mailer/Reports.antt =====
-- `validateHealthReport` of internal/mailer/message.go, and the reports of internal/monitor/runner.go
-- and internal/healthreport/manager.go.
use cpa_monitor.Base.{
  All, Bool, List, int_ltb, int_eq, is_negative, pos, Option, Text, [], arith, false, if◌then◌else◌,
  inr, is_blank, is_empty, is_some, length, none, not, refl, some, ◌&&◌, ◌||◌, ◌∷◌, ◌≡◌, ◌≤◌, ◌⊎◌,
}
use cpa_monitor.State.{is_zero}
use cpa_monitor.Rule.{Floats}
use cpa_monitor.Collector.{DiskBatch, TcpUsage}
use cpa_monitor.Cliproxy.{AuthFile}
use cpa_monitor.Monitor
use cpa_monitor.Monitor.{
  Runner, World, bad_percent, new_runner, accounts_of, highest_disk, snapshot,
}
use cpa_monitor.Monitor.Cycle.{succeeded}
use cpa_monitor.Notification.Health.{
  AccountUsage, HealthReport, bad_used, validate_account_usage, validate_version_info,
}
use cpa_monitor.Healthreport.{Outside, Manager, version_candidate, base_report, health_report}
use cpa_monitor.Healthreport.Content.{IsCounted, health_report-valid}
use cpa_monitor.Healthreport.Coherent.{IsCoherent, add_version-keeps, health_report-IsCoherent}
use cpa_monitor.Mailer.Language.{contains_header_control}

pub data HealthMailError : Type 0 where
  bad_hostname missing_fields bad_percentages bad_counters bad_enabled_count unexpected_counters
        bad_usage bad_version :
      HealthMailError

module _ {F : Type 0} (fl : Floats F) where
  unfoldable pub has_bad_usage : List (AccountUsage F) → Bool
  has_bad_usage [] = false
  has_bad_usage (u ∷ us) = is_some (validate_account_usage fl u) || has_bad_usage us

  -- The loop over the percentages.
  unfoldable pub has_bad_percent : List F → Bool
  has_bad_percent [] = false
  has_bad_percent (x ∷ xs) = bad_used fl (some x) || has_bad_percent xs

  unfoldable pub bad_counters_in : HealthReport F → Bool
  bad_counters_in r =
      fl.le r.memory_threshold fl.zero_percent
      || (fl.le r.disk_threshold fl.zero_percent
          || (is_negative r.disk_mount_count
              || (is_negative r.total_tcp_connections
                  || (int_ltb r.total_tcp_threshold (pos 1)
                      || (int_ltb r.service_port (pos 1)
                          || (int_ltb (pos 65535) r.service_port
                              || (is_negative r.service_port_connections
                                  || (int_ltb r.service_port_threshold (pos 1)
                                      || (is_negative r.account_count
                                          || (is_negative r.enabled_account_count
                                              || int_ltb r.account_count
                                                  r.enabled_account_count))))))))))

  -- `validateHealthReport`.
  unfoldable pub report_error : HealthReport F → Option HealthMailError
  report_error r =
      if is_blank r.hostname || contains_header_control r.hostname
      then some bad_hostname
      else if is_zero r.timestamp || (is_zero r.next_scheduled_at || is_blank r.base_url)
      then some missing_fields
      else if has_bad_percent (
          r.memory_used_percent ∷ r.memory_threshold ∷ r.highest_disk_used_percent
          ∷ r.disk_threshold ∷ [])
      then some bad_percentages
      else if bad_counters_in r
      then some bad_counters
      else if r.account_usage_available
          && not (int_eq r.enabled_account_count (pos (length r.account_usages)))
      then some bad_enabled_count
      else if not r.account_usage_available
          && (not (int_eq r.account_count (pos 0))
              || (not (int_eq r.enabled_account_count (pos 0)) || not (is_empty r.account_usages)))
      then some unexpected_counters
      else if has_bad_usage r.account_usages
      then some bad_usage
      else if is_some (validate_version_info r)
      then some bad_version
      else none

  has_bad_usage-none :
      (us : List (AccountUsage F))
      → All (λ u. validate_account_usage fl u ≡ none) us
      → has_bad_usage us ≡ false
  unfolding has_bad_usage
  has_bad_usage-none [] a = refl
  has_bad_usage-none (u ∷ us) a = rw a.0 (has_bad_usage-none us a.1)

  -- The measurements and thresholds that the report takes over from the runner.
  abbrev IsMeasured : HealthReport F → Type 0
  IsMeasured r =
      (contains_header_control r.hostname ≡ false)
      × (bad_used fl (some r.memory_used_percent) ≡ false)
      × (bad_used fl (some r.highest_disk_used_percent) ≡ false)
      × (bad_percent fl r.memory_threshold ≡ false)
      × (bad_percent fl r.disk_threshold ≡ false)
      × (is_negative r.disk_mount_count ≡ false)
      × (is_negative r.total_tcp_connections ≡ false)
      × (int_ltb r.total_tcp_threshold (pos 1) ≡ false)
      × (int_ltb r.service_port (pos 1) ≡ false)
      × (int_ltb (pos 65535) r.service_port ≡ false)
      × (is_negative r.service_port_connections ≡ false)
      × (int_ltb r.service_port_threshold (pos 1) ≡ false)

  bad_percent-bad_used :
      (x : F)
      → ((a b : F) → fl.le a b ≡ false → fl.lt a b ≡ false)
      → bad_percent fl x ≡ false
      → (bad_used fl (some x) ≡ false) × (fl.le x fl.zero_percent ≡ false)
  unfolding bad_percent bad_used
  bad_percent-bad_used x lt_le h = ground (arith, lt_le x fl.zero_percent)

  measured_report :
      (r : HealthReport F)
      → ((a b : F) → fl.le a b ≡ false → fl.lt a b ≡ false)
      → IsCoherent r
      → IsMeasured r
      → All (λ u. validate_account_usage fl u ≡ none) r.account_usages
      → validate_version_info r ≡ none
      → report_error r ≡ none
  unfolding report_error has_bad_percent bad_counters_in
  measured_report r lt_le i e fine version = ground (
    arith,
    bad_percent-bad_used r.memory_threshold lt_le e.3,
    bad_percent-bad_used r.disk_threshold lt_le e.4,
    has_bad_usage-none r.account_usages fine,
  )

  new_runner-accepted :
      (opts : Monitor.Options F) (cfg : Runner F)
      → new_runner fl opts ≡ inr cfg
      → (bad_percent fl cfg.memory_percent ≡ false)
        × (bad_percent fl cfg.disk_percent ≡ false)
        × (1 ≤ cfg.total_tcp_connections)
        × (1 ≤ cfg.service_port)
        × (cfg.service_port ≤ 65535)
        × (1 ≤ cfg.service_port_connections)
  unfolding new_runner
  new_runner-accepted opts cfg h = ground arith

  module _ (w : World F) (o : Outside F) (m : Manager) where
    -- The report of a cycle's snapshot, whatever the accounts, the quotas and the version that were
    -- fetched, passes the validation of the mailer, for a runner that `NewRunner` has made: if the host
    -- and the base URL are not blank, the host has no control characters, the clock is set, the used
    -- percentages are from 0 to 100, the snapshot's accounts have labels and counters that are not
    -- negative, and the order on percentages takes a smaller one as at most as large.
    pub report_error-none :
        (opts : Monitor.Options F) (cfg : Runner F) (x : F) (d : DiskBatch F) (t : TcpUsage)
        (files : Text ⊎ List AuthFile)
        → ((a b : F) → fl.le a b ≡ false → fl.lt a b ≡ false)
        → new_runner fl opts ≡ inr cfg
        → is_blank m.hostname ≡ false
        → contains_header_control m.hostname ≡ false
        → is_blank m.base_url ≡ false
        → is_zero o.now ≡ false
        → bad_used fl (some x) ≡ false
        → bad_used fl (some (highest_disk fl cfg w d.disks fl.zero_percent)) ≡ false
        → All IsCounted (accounts_of fl cfg w files)
        → report_error (health_report fl o m (snapshot fl cfg w x d t files (succeeded files)))
          ≡ none
    report_error-none opts cfg x d t files lt_le h host control base time memory disk counted =
        let s = snapshot fl cfg w x d t files (succeeded files) in
        let (version, fine) = health_report-valid fl o m s (unfold snapshot in counted) in
        let i = health_report-IsCoherent fl o cfg w m x d t files host base time in
        let (mp, dp, total, low, high, service) = new_runner-accepted opts cfg h in
        let measured : IsMeasured (base_report fl o m s) =
          unfold base_report in
          unfold snapshot in
          unfold int_ltb in
          (
            control,
            memory,
            disk,
            mp,
            dp,
            refl,
            refl,
            ground (arith, total),
            ground (arith, low),
            ground (arith, high),
            refl,
            ground (arith, service),
          ) in
        let e : IsMeasured (health_report fl o m s) =
          unfold health_report in
          unfold version_candidate in
          add_version-keeps fl o IsMeasured (λ r status p. p) (base_report fl o m s) measured in
        measured_report (health_report fl o m s) lt_le i e fine version
