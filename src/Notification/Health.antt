-- ===== src/Notification/Health.antt =====
-- The healthy-status message of internal/notification/types.go, and its validation. Percentages are
-- of a type `F`; counters are int64 values and durations are in nanoseconds.
use cpa_monitor.Base.{
  Bool, List, Option, Text, [], false, if◌then◌else◌, is_blank, is_empty, is_negative, none, not,
  some, ℤ, ◌&&◌, ◌||◌, ◌∷◌,
}
use cpa_monitor.State.{Time}
use cpa_monitor.Rule.{Floats}

pub record QuotaWindow (F : Type 0) : Type 0 where
  pub kind : Text
  pub used_percent : Option F
  pub reset_at : Time
  pub reset_after : ℤ

pub record AccountUsage (F : Type 0) : Type 0 where
  pub label : Text
  pub provider : Text
  pub plan_type : Text
  pub quota_supported : Bool
  pub quota_available : Bool
  pub quota_windows : List (QuotaWindow F)
  pub success : ℤ
  pub failed : ℤ
  pub recent_success : ℤ
  pub recent_failed : ℤ

pub record HealthReport (F : Type 0) : Type 0 where
  pub hostname : Text
  pub timestamp : Time
  pub next_scheduled_at : Time
  pub base_url : Text
  pub memory_used_percent : F
  pub memory_threshold : F
  pub highest_disk_used_percent : F
  pub disk_mount_count : ℤ
  pub disk_threshold : F
  pub total_tcp_connections : ℤ
  pub total_tcp_threshold : ℤ
  pub service_port : ℤ
  pub service_port_connections : ℤ
  pub service_port_threshold : ℤ
  pub account_usage_available : Bool
  pub account_count : ℤ
  pub enabled_account_count : ℤ
  pub account_usages : List (AccountUsage F)
  pub version_check_available : Bool
  pub current_version : Text
  pub latest_version : Text
  pub version_comparable : Bool
  pub update_available : Bool
  pub release_url : Text

pub data HealthError : Type 0 where
  invalid_account unsupported_quota missing_windows unexpected_windows invalid_window
        bad_used_percent :
      HealthError
  release_url_required unexpected_version version_required not_comparable : HealthError

-- The used percentage of a window is refused.
unfoldable pub bad_used : {F : Type 0} → Floats F → Option F → Bool
bad_used fl none = false
bad_used fl (some x) =
    fl.is_nan x || (fl.is_inf x || (fl.lt x fl.zero_percent || fl.gt x fl.hundred))

-- The loop over the windows.
unfoldable pub windows_error : {F : Type 0} → Floats F → List (QuotaWindow F) → Option HealthError
windows_error fl [] = none
windows_error fl (w ∷ ws) =
    let rest = windows_error fl ws in
    if is_blank w.kind || is_negative w.reset_after
    then some invalid_window
    else if bad_used fl w.used_percent
    then some bad_used_percent
    else rest

unfoldable pub validate_account_usage :
    {F : Type 0} → Floats F → AccountUsage F → Option HealthError
validate_account_usage fl u =
    if is_blank u.label
      || (is_negative u.success
          || (is_negative u.failed
              || (is_negative u.recent_success || is_negative u.recent_failed)))
    then some invalid_account
    else if not u.quota_supported
        && (u.quota_available || (not (is_blank u.plan_type) || not (is_empty u.quota_windows)))
    then some unsupported_quota
    else if u.quota_available && (not u.quota_supported || is_empty u.quota_windows)
    then some missing_windows
    else if not u.quota_available && not (is_empty u.quota_windows)
    then some unexpected_windows
    else windows_error fl u.quota_windows

unfoldable pub validate_version_info : {F : Type 0} → HealthReport F → Option HealthError
validate_version_info r =
    if is_blank r.release_url
    then some release_url_required
    else if not r.version_check_available
    then (if r.version_comparable
          || (r.update_available
              || (not (is_blank r.current_version) || not (is_blank r.latest_version)))
        then some unexpected_version
        else none)
    else if is_blank r.current_version || is_blank r.latest_version
    then some version_required
    else if r.update_available && not r.version_comparable
    then some not_comparable
    else none
