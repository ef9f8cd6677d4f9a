-- ===== src/Dingtalk/Health.antt =====
-- `healthPayload` of internal/dingtalk/message.go: the healthy-status message, and its validation.
-- `writeVersionStatus` writes both languages; only the English message calls it.
use cpa_monitor.Base.{
  Bool, List, Option, Text, [], decimal, int_text, int_ltb, int_eq, is_negative, pos, false,
  if◌then◌else◌, inl, inr, is_blank, is_empty, is_some, length, ltb, none, not, some, str, ◌&&◌,
  ◌++◌, ◌==◌, ◌||◌, ◌∷◌, ◌⊎◌,
}
use cpa_monitor.State.{Time, is_zero}
use cpa_monitor.Rule.{Floats}
use cpa_monitor.Notification.Health.{
  AccountUsage, HealthReport, validate_account_usage, validate_version_info,
}
use cpa_monitor.Notification.Formats.{Formats, percent}
use cpa_monitor.Dingtalk.{AtContent, known_language}
use cpa_monitor.Dingtalk.Markdown.{escape_markdown, markdown_field, mentions, markdown_link}
use cpa_monitor.Dingtalk.Labels.{chinese, display_version}
use cpa_monitor.Dingtalk.Events.{gap}
use cpa_monitor.Dingtalk.Alert.{Payload, payload}
use cpa_monitor.Dingtalk.Usage.{
  CompactAccount, compact_accounts, compact_attention_count, compact_account_text,
}
use cpa_monitor.Dingtalk.Quota.{account_usages_text}

pub data ReportRefusal : Type 0 where
  host_or_times_missing base_url_missing bad_account_counts bad_enabled_count unexpected_counters
        bad_account_usage bad_version language_unknown :
      ReportRefusal

-- `formatNextBeijingTime`: only the clock, for a time of the same day.
unfoldable pub format_next : {F : Type 0} → Formats F → Time → Time → Text
format_next fm checked next =
    let (cy, cm, cd) = fm.beijing_date checked in
    let (ny, nm, nd) = fm.beijing_date next in
    if cy == ny && (cm == nm && cd == nd) then fm.beijing_clock next else fm.beijing_minutes next

module _ {F : Type 0} (fl : Floats F) where
  -- An account of the list is refused.
  unfoldable pub usages_refused : List (AccountUsage F) → Bool
  usages_refused [] = false
  usages_refused (u ∷ us) = is_some (validate_account_usage fl u) || usages_refused us

  -- `validateHealthReport`.
  unfoldable pub report_refusal : HealthReport F → Option ReportRefusal
  report_refusal r =
      if is_blank r.hostname || (is_zero r.timestamp || is_zero r.next_scheduled_at)
      then some host_or_times_missing
      else if is_blank r.base_url
      then some base_url_missing
      else if is_negative r.account_count
          || (is_negative r.enabled_account_count
              || int_ltb r.account_count r.enabled_account_count)
      then some bad_account_counts
      else if r.account_usage_available
          && not (int_eq r.enabled_account_count (pos (length r.account_usages)))
      then some bad_enabled_count
      else if not r.account_usage_available
          && (not (int_eq r.account_count (pos 0))
              || (not (int_eq r.enabled_account_count (pos 0)) || not (is_empty r.account_usages)))
      then some unexpected_counters
      else if usages_refused r.account_usages
      then some bad_account_usage
      else if is_some (validate_version_info r)
      then some bad_version
      else none

-- A number beside its threshold.
unfoldable pub against : Text → Text → Text
against value threshold = value ++ str " (threshold " ++ threshold ++ str ")"

unfoldable pub health_title : Text → Text
health_title language =
    if chinese language then str "CPA Monitor · 运行正常" else str "CPA Monitor · Server Status"

module _ {F : Type 0} where
  unfoldable pub chinese_update : HealthReport F → Text
  chinese_update r =
      if not r.version_comparable
      then str "无法比较版本，请打开发布页面确认"
      else if r.update_available
      then str "发现新版本，请安排升级"
      else str "已是最新版本"

  unfoldable pub english_update : HealthReport F → Text
  english_update r =
      if not r.version_comparable
      then str "versions could not be compared; check the releases page"
      else if r.update_available
      then str "a newer version is available"
      else str "up to date"

  -- `writeVersionStatus`.
  unfoldable pub version_status : HealthReport F → Text → Text
  version_status r language =
      if chinese language
      then 10 ∷ str "### CLIProxyAPI 版本"
        ++ gap
        ++ (if r.version_check_available
            then markdown_field (str "当前版本") r.current_version
              ++ markdown_field (str "最新版本") r.latest_version
              ++ markdown_field (str "更新状态") (chinese_update r)
            else markdown_field (str "当前版本") (str "暂不可用")
              ++ markdown_field (str "最新版本") (str "暂不可用")
              ++ markdown_field (str "更新状态") (str "版本检查失败，不影响服务器状态报告"))
        ++ markdown_field (str "发布地址") r.release_url
      else 10 ∷ str "### CLIProxyAPI version"
        ++ gap
        ++ (if r.version_check_available
            then markdown_field (str "Current version") r.current_version
              ++ markdown_field (str "Latest version") r.latest_version
              ++ markdown_field (str "Update status") (english_update r)
            else markdown_field (str "Current version") (str "unavailable")
              ++ markdown_field (str "Latest version") (str "unavailable")
              ++ markdown_field (str "Update status")
                  (str "version check failed; server status reporting is unaffected"))
        ++ markdown_field (str "Releases") r.release_url

  -- `writeCompactChineseVersion`.
  unfoldable pub compact_version : HealthReport F → Text
  compact_version r =
      let current = escape_markdown (display_version r.current_version) in
      let latest = escape_markdown (display_version r.latest_version) in
      10 ∷ str "### CLIProxyAPI"
      ++ gap
      ++ (if not r.version_check_available
          then str "版本检查暂不可用，不影响服务器状态报告"
          else if not r.version_comparable
          then str "当前 **" ++ current ++ str "** · 最新 **" ++ latest ++ str "** · 请打开发布页面确认"
          else if r.update_available
          then str "发现新版本：**" ++ current ++ str " → " ++ latest ++ str "** · 请安排升级"
          else str "当前 **" ++ current ++ str "** · 已是最新版本")
      ++ 10 ∷ []

module _ {F : Type 0} (fl : Floats F) (fm : Formats F) where
  -- The line on the accounts under the title.
  unfoldable pub usage_summary : HealthReport F → List (CompactAccount F) → Text
  usage_summary r accounts =
      if not r.account_usage_available
      then str "> 账号用量暂不可用，不影响服务器状态报告"
      else if is_empty accounts
      then str "> 当前没有已启用账号"
      else if ltb 0 (compact_attention_count fl fm accounts)
      then str "> 用量提醒：" ++ decimal (compact_attention_count fl fm accounts) ++ str " 个账号周用量达到 75%"
      else str "> 账号周用量均低于 75%"

  -- The measurements of the server.
  unfoldable pub server_overview : HealthReport F → Text
  server_overview r =
      str "### 服务器概览"
      ++ gap
      ++ str "**"
      ++ escape_markdown r.hostname
      ++ str "**"
      ++ gap
      ++ str "**内存** "
      ++ percent fm r.memory_used_percent
      ++ str " / "
      ++ percent fm r.memory_threshold
      ++ 0x3000 ∷ 0x3000 ∷ str "**磁盘** "
      ++ percent fm r.highest_disk_used_percent
      ++ str " / "
      ++ percent fm r.disk_threshold
      ++ gap
      ++ str "**TCP** "
      ++ int_text r.total_tcp_connections
      ++ str " / "
      ++ int_text r.total_tcp_threshold
      ++ 0x3000 ∷ 0x3000 ∷ str "**端口 "
      ++ int_text r.service_port
      ++ str "** "
      ++ int_text r.service_port_connections
      ++ str " / "
      ++ int_text r.service_port_threshold
      ++ 10 ∷ []

  -- `writeCompactChineseHealth`.
  unfoldable pub compact_health : HealthReport F → Text → Text
  compact_health r title =
      let accounts = compact_accounts fl fm r.account_usages in
      str "## "
      ++ title
      ++ gap
      ++ str "> 服务器 4/4 正常 · 账号 "
      ++ int_text r.enabled_account_count
      ++ str "/"
      ++ int_text r.account_count
      ++ str " 启用"
      ++ 10 ∷ usage_summary r accounts
      ++ gap
      ++ server_overview r
      ++ (if r.account_usage_available then compact_account_text fl fm accounts r.timestamp else [])
      ++ compact_version r
      ++ 10 ∷ markdown_link (str "管理面板") r.base_url
      ++ 0x3000 ∷ 0x3000 ∷ markdown_link (str "版本发布") r.release_url
      ++ gap
      ++ str "检查于 "
      ++ fm.beijing_minutes r.timestamp
      ++ str " · 下次 "
      ++ format_next fm r.timestamp r.next_scheduled_at
      ++ str "（北京时间）"
      ++ 10 ∷ []

  -- The English message of `healthPayload`.
  unfoldable pub english_health : HealthReport F → Text → Text → Text
  english_health r title language =
      str "## "
      ++ title
      ++ gap
      ++ str "> All four server checks passed; account status and alerts are handled independently."
      ++ gap
      ++ markdown_field (str "Host") r.hostname
      ++ markdown_field (str "Checked at") (fm.utc_seconds r.timestamp)
      ++ markdown_field (str "Memory") (
          against (percent fm r.memory_used_percent ++ str " used") (percent fm r.memory_threshold))
      ++ markdown_field (str "Disk") (
          against
            (percent fm r.highest_disk_used_percent
              ++ str " highest across "
              ++ int_text r.disk_mount_count
              ++ str " mount(s)")
            (percent fm r.disk_threshold))
      ++ markdown_field (str "TCP") (
          against (int_text r.total_tcp_connections ++ str " total connections")
            (int_text r.total_tcp_threshold))
      ++ markdown_field (str "Service port " ++ int_text r.service_port) (
          against (int_text r.service_port_connections ++ str " connections")
            (int_text r.service_port_threshold))
      ++ (if r.account_usage_available
          then markdown_field (str "Accounts") (
              int_text r.enabled_account_count
              ++ str " enabled / "
              ++ int_text r.account_count
              ++ str " checked")
            ++ account_usages_text fm r.account_usages language r.timestamp
          else markdown_field (str "Account usage") (
              str
                "temporarily unavailable (account check failed; server status reporting is unaffected)"))
      ++ markdown_field (str "CLIProxyAPI base URL") r.base_url
      ++ markdown_field (str "Next scheduled report") (fm.utc_seconds r.next_scheduled_at)
      ++ version_status r language

  unfoldable pub health_text : HealthReport F → Text → AtContent → Text
  health_text r language at =
      mentions at
      ++ (if chinese language
          then compact_health r (health_title language)
          else english_health r (health_title language) language)

  -- `healthPayload`.
  unfoldable pub health_payload : HealthReport F → Text → AtContent → ReportRefusal ⊎ Payload
  health_payload r language at = elim (report_refusal fl r) [
    | some e ↦ inl e
    | none ↦
        if not (known_language language)
        then inl language_unknown
        else inr (payload (health_title language) (health_text r language at) language at)
  ]
