-- ===== src/Dingtalk/Usage.antt =====
-- The accounts of a healthy-status message in internal/dingtalk/message.go: their order, and what is
-- written of each, in both languages. Go's stable sort is an insertion sort by the same comparison.
use cpa_monitor.Base.{
  ℤ, pos, Bool, List, Option, Text, [], add_int64, false, if◌then◌else◌, is_empty, join, ltb, none,
  not, pos_part, some, str, suc, text_eq, true, zero, ℕ, ◌++◌, ◌+◌, ◌∷◌,
}
use cpa_monitor.State.{Time, is_zero}
use cpa_monitor.Rule.{Floats}
use cpa_monitor.Notification.Health.{QuotaWindow, AccountUsage}
use cpa_monitor.Notification.Formats.{Formats, format_int}
use cpa_monitor.Dingtalk.Markdown.{escape_markdown}
use cpa_monitor.Dingtalk.Labels.{quota_window_label, format_compact_percent, quota_progress_bar}
use cpa_monitor.Dingtalk.Events.{gap}

-- The priority of a window's kind in `preferredQuotaWindow`.
unfoldable pub window_priority : Text → ℕ
window_priority kind =
    if text_eq kind (str "weekly")
    then 0
    else if text_eq kind (str "monthly")
    then 1
    else if text_eq kind (str "secondary")
    then 2
    else if text_eq kind (str "five_hour")
    then 3
    else if text_eq kind (str "primary")
    then 4
    else 5

-- `quotaResetAt`: the zero time where nothing is known.
unfoldable pub quota_reset_at : {F : Type 0} → QuotaWindow F → Time → Time
quota_reset_at window checked_at =
    if not (is_zero window.reset_at)
    then window.reset_at
    else if ltb 0 (pos_part window.reset_after)
    then checked_at + pos_part window.reset_after
    else 0

-- `compactAccount`.
pub record CompactAccount (F : Type 0) : Type 0 where
  pub usage : AccountUsage F
  pub window : Option (QuotaWindow F)
  pub order : ℕ

module _ {F : Type 0} where
  -- The loop of `preferredQuotaWindow`, with the best window so far and the bound on its priority.
  unfoldable pub best_window :
      List (QuotaWindow F) → Option (QuotaWindow F) → ℕ → Option (QuotaWindow F)
  best_window [] best bound = best
  best_window (w ∷ ws) best bound =
      let better = best_window ws (some w) (window_priority w.kind) in
      let same = best_window ws best bound in
      if ltb (window_priority w.kind) bound then better else same

  -- `preferredQuotaWindow`.
  unfoldable pub preferred_quota_window : List (QuotaWindow F) → Option (QuotaWindow F)
  preferred_quota_window windows = best_window windows none 6

  -- `compactUsedPercent`.
  unfoldable pub compact_used_percent : CompactAccount F → Option F
  compact_used_percent account = elim account.window [ none ↦ none | some w ↦ w.used_percent ]

  -- The accounts of the report, the first of them at place `i`.
  unfoldable pub compact_from : ℕ → List (AccountUsage F) → List (CompactAccount F)
  compact_from i [] = []
  compact_from i (u ∷ us) =
      record { usage = u; window = preferred_quota_window u.quota_windows; order = i }
      ∷ compact_from (suc i) us

module _ {F : Type 0} (fl : Floats F) (fm : Formats F) where
  -- The comparison of `compactAccounts`, on the used percentages.
  unfoldable pub comes_before : CompactAccount F → CompactAccount F → Option F → Option F → Bool
  comes_before a b none none = ltb a.order b.order
  comes_before a b none (some y) = false
  comes_before a b (some x) none = true
  comes_before a b (some x) (some y) = if not (fm.eq x y) then fl.gt x y else ltb a.order b.order

  unfoldable pub account_before : CompactAccount F → CompactAccount F → Bool
  account_before a b = comes_before a b (compact_used_percent a) (compact_used_percent b)

  unfoldable pub insert_account :
      CompactAccount F → List (CompactAccount F) → List (CompactAccount F)
  insert_account a [] = a ∷ []
  insert_account a (b ∷ bs) =
      let rest = insert_account a bs in if account_before b a then b ∷ rest else a ∷ b ∷ bs

  unfoldable pub sort_accounts : List (CompactAccount F) → List (CompactAccount F)
  sort_accounts [] = []
  sort_accounts (a ∷ bs) = insert_account a (sort_accounts bs)

  -- `compactAccounts`.
  unfoldable pub compact_accounts : List (AccountUsage F) → List (CompactAccount F)
  compact_accounts usages = sort_accounts (compact_from 0 usages)

  -- The used percentage asks for attention.
  unfoldable pub attention : Option F → Bool
  attention none = false
  attention (some x) = fl.ge x (fm.of_int (pos 75))

  -- `compactAttentionCount`.
  unfoldable pub compact_attention_count : List (CompactAccount F) → ℕ
  compact_attention_count [] = 0
  compact_attention_count (a ∷ bs) =
      (if attention (compact_used_percent a) then 1 else 0) + compact_attention_count bs

  unfoldable pub reset_text : QuotaWindow F → Time → Text
  reset_text w checked_at =
      if is_zero (quota_reset_at w checked_at)
      then []
      else str " · " ++ fm.beijing_minutes (quota_reset_at w checked_at) ++ str " 重置"

  -- `compactQuotaLine`, where the window has no used percentage.
  unfoldable pub no_quota_line : AccountUsage F → Option (QuotaWindow F) → Time → Text
  no_quota_line usage window checked_at =
      if not usage.quota_supported
      then str "套餐额度暂不支持"
      else if not usage.quota_available
      then str "套餐额度暂不可用"
      else elim window [
        | none ↦ str "套餐额度暂无数据"
        | some w ↦
            quota_window_label w.kind (str "zh-CN") ++ str "用量暂不可用" ++ reset_text w checked_at
      ]

  unfoldable pub quota_line : AccountUsage F → Option (QuotaWindow F) → Option F → Time → Text
  quota_line usage (some w) (some used) checked_at =
      quota_progress_bar fl fm used
      ++ 0x3000 ∷ str "剩余 "
      ++ format_compact_percent fl fm (fm.minus (fm.of_int (pos 100)) used)
      ++ str "%"
      ++ reset_text w checked_at
  quota_line usage window _ checked_at = no_quota_line usage window checked_at

  -- `compactQuotaLine`.
  unfoldable pub compact_quota_line : CompactAccount F → Time → Text
  compact_quota_line a checked_at = quota_line a.usage a.window (compact_used_percent a) checked_at

  unfoldable pub success_rate : ℤ → ℤ → Text
  success_rate success recent =
      format_compact_percent fl fm
        (fm.times (fm.over (fm.of_int success) (fm.of_int recent)) (fm.of_int (pos 100)))

  unfoldable pub request_line_of : ℤ → ℤ → Text
  request_line_of success (pos zero) = str "近期暂无请求"
  request_line_of success recent =
      str "近期请求 " ++ format_int recent ++ str " · 成功率 " ++ success_rate success recent ++ str "%"

  -- `compactRequestLine`.
  unfoldable pub compact_request_line : AccountUsage F → Text
  compact_request_line usage =
      request_line_of usage.recent_success (add_int64 usage.recent_success usage.recent_failed)

  -- The word for an account and its percentage.
  unfoldable pub account_status : Option F → Text
  account_status none = str "未知"
  account_status (some used) = if attention (some used) then str "关注" else str "正常"

  unfoldable pub percent_text : Option F → Text
  percent_text none = []
  percent_text (some used) = 0x3000 ∷ format_compact_percent fl fm used ++ str "%"

  -- One account of `writeCompactChineseAccounts`.
  unfoldable pub account_section : CompactAccount F → Time → Text
  account_section a checked_at =
      str "**["
      ++ account_status (compact_used_percent a)
      ++ str "] "
      ++ escape_markdown a.usage.label
      ++ percent_text (compact_used_percent a)
      ++ str "**"
      ++ gap
      ++ compact_quota_line a checked_at
      ++ gap
      ++ compact_request_line a.usage
      ++ 10 ∷ []

  unfoldable pub account_sections : List (CompactAccount F) → Time → List Text
  account_sections [] checked_at = []
  account_sections (a ∷ bs) checked_at =
      account_section a checked_at ∷ account_sections bs checked_at

  -- `writeCompactChineseAccounts`.
  unfoldable pub compact_account_text : List (CompactAccount F) → Time → Text
  compact_account_text accounts checked_at =
      10 ∷ str "### 账号周用量（高 → 低）"
      ++ gap
      ++ (if is_empty accounts
          then str "暂无已启用账号" ++ 10 ∷ []
          else join (10 ∷ []) (account_sections accounts checked_at))
