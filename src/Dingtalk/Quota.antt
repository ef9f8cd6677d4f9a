-- ===== src/Dingtalk/Quota.antt =====
-- The accounts of the English healthy-status message in internal/dingtalk/message.go.
-- `accountUsageText` and `quotaWindowText` write both languages; only the English message calls them.
use cpa_monitor.Base.{
  pos, List, Option, Text, [], add_int64, if◌then◌else◌, is_blank, is_empty, join, none, not, some,
  str, trim_space, ◌++◌, ◌∷◌,
}
use cpa_monitor.State.{Time, is_zero}
use cpa_monitor.Notification.Health.{QuotaWindow, AccountUsage}
use cpa_monitor.Notification.Formats.{Formats, format_int, percent}
use cpa_monitor.Dingtalk.Markdown.{markdown_field}
use cpa_monitor.Dingtalk.Labels.{chinese, quota_window_label}
use cpa_monitor.Dingtalk.Usage.{quota_reset_at}

module _ {F : Type 0} (fm : Formats F) where
  unfoldable pub used_text : Option F → Text → Text
  used_text none language = if chinese language then str "用量未知" else str "usage unavailable"
  used_text (some used) language =
      let remaining = fm.minus (fm.of_int (pos 100)) used in
      if chinese language
      then str "已用 " ++ percent fm used ++ str "，剩余 " ++ percent fm remaining
      else percent fm used ++ str " used, " ++ percent fm remaining ++ str " remaining"

  -- `quotaWindowText`.
  unfoldable pub quota_window_text : QuotaWindow F → Text → Time → Text
  quota_window_text w language checked_at =
      let reset_at = quota_reset_at w checked_at in
      quota_window_label w.kind language
      ++ (if chinese language then str "：" else str ": ")
      ++ used_text w.used_percent language
      ++ (if is_zero reset_at
          then []
          else (if chinese language then str "，重置 " else str ", resets ")
            ++ fm.utc_minutes reset_at)

  unfoldable pub plan_lines : Text → Text → List Text
  plan_lines plan language =
      if is_blank plan
      then []
      else ((if chinese language then str "套餐：" else str "Plan: ") ++ trim_space plan) ∷ []

  unfoldable pub window_lines : List (QuotaWindow F) → Text → Time → List Text
  window_lines [] language checked_at = []
  window_lines (w ∷ ws) language checked_at =
      quota_window_text w language checked_at ∷ window_lines ws language checked_at

  unfoldable pub quota_lines : AccountUsage F → Text → Time → List Text
  quota_lines u language checked_at =
      if not u.quota_supported
      then []
      else if u.quota_available
      then plan_lines u.plan_type language ++ window_lines u.quota_windows language checked_at
      else (if chinese language
          then str "套餐额度：获取失败（不影响服务器状态报告）"
          else str "Plan quota: unavailable (server status reporting is unaffected)")
        ∷ []

  unfoldable pub request_line : AccountUsage F → Text → Text
  request_line u language =
      let total = format_int (add_int64 u.success u.failed) in
      let recent = format_int (add_int64 u.recent_success u.recent_failed) in
      if chinese language
      then str "请求统计：进程累计 "
        ++ total
        ++ str " 次（成功 "
        ++ format_int u.success
        ++ str " / 失败 "
        ++ format_int u.failed
        ++ str "）；近期 "
        ++ recent
        ++ str " 次（成功 "
        ++ format_int u.recent_success
        ++ str " / 失败 "
        ++ format_int u.recent_failed
        ++ str "）"
      else str "Request stats: process total "
        ++ total
        ++ str " (success "
        ++ format_int u.success
        ++ str " / failed "
        ++ format_int u.failed
        ++ str "); recent "
        ++ recent
        ++ str " (success "
        ++ format_int u.recent_success
        ++ str " / failed "
        ++ format_int u.recent_failed
        ++ str ")"

  -- `accountUsageText`.
  unfoldable pub account_usage_text : AccountUsage F → Text → Time → Text
  account_usage_text u language checked_at =
      join (10 ∷ []) (quota_lines u language checked_at ++ request_line u language ∷ [])

  unfoldable pub account_label : AccountUsage F → Text
  account_label u =
      u.label ++ (if is_blank u.provider then [] else str " (" ++ trim_space u.provider ++ str ")")

  unfoldable pub account_fields : List (AccountUsage F) → Text → Time → Text
  account_fields [] language checked_at = []
  account_fields (u ∷ us) language checked_at =
      markdown_field (account_label u) (account_usage_text u language checked_at)
      ++ account_fields us language checked_at

  -- `writeAccountUsages`.
  unfoldable pub account_usages_text : List (AccountUsage F) → Text → Time → Text
  account_usages_text usages language checked_at =
      if is_empty usages
      then []
      else 10 ∷ (if chinese language then str "### 已启用账号用量" else str "### Enabled account usage")
        ++ 10 ∷ 10 ∷ account_fields usages language checked_at
