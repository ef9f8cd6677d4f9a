-- ===== src/Dingtalk/Alert.antt =====
-- `alertPayload` of internal/dingtalk/message.go: the message for a batch, in both languages.
use cpa_monitor.Base.{
  List, Text, [], decimal, if◌then◌else◌, inl, inr, is_empty, leb, length, none, not, some, str,
  suc, take, text_eq, ℕ, ◌++◌, ◌-◌, ◌==◌, ◌∷◌, ◌⊎◌,
}
use cpa_monitor.Notification.{Kind, recovery, Event, Batch, BatchError, same_kind, validate_batch}
use cpa_monitor.Rule.{Floats}
use cpa_monitor.Notification.Formats.{Formats}
use cpa_monitor.Dingtalk.{AtContent, known_language}
use cpa_monitor.Dingtalk.Markdown.{
  escape_markdown, truncate_runes, fit_markdown, markdown_field, mentions, markdown_link,
}
use cpa_monitor.Dingtalk.Labels.{chinese, localized_kind, localized_scope, first_base_url}
use cpa_monitor.Dingtalk.Events.{gap, compact_test, compact_alert_event, compact_recovery_event}

-- `markdownPayload`: its message type is always "markdown".
pub record Payload : Type 0 where
  pub title : Text
  pub text : Text
  pub at : AtContent

pub data AlertError : Type 0 where
  batch_refused : BatchError → AlertError
  language_unknown no_items : AlertError

-- The payload of a message, cut to the sizes of the robot.
unfoldable pub payload : Text → Text → Text → AtContent → Payload
payload title text language at = record {
  title = truncate_runes title 100;
  text = fit_markdown text language;
  at = at;
}

-- `compactChineseBatchTitle`.
unfoldable pub compact_title : Batch → Text
compact_title b =
    if same_kind b.kind recovery
    then (if text_eq b.scope (str "auth")
        then str "CPA Monitor · 账号恢复"
        else str "CPA Monitor · 恢复通知")
    else if text_eq b.scope (str "test")
    then str "CPA Monitor · 通知测试"
    else if text_eq b.scope (str "health")
    then str "CPA Monitor · 服务不可用"
    else if text_eq b.scope (str "memory")
    then str "CPA Monitor · 内存告警"
    else if text_eq b.scope (str "disk")
    then str "CPA Monitor · 磁盘告警"
    else if text_eq b.scope (str "network")
    then str "CPA Monitor · TCP 告警"
    else if text_eq b.scope (str "auth")
    then str "CPA Monitor · 账号告警"
    else str "CPA Monitor · " ++ localized_scope b.scope (str "zh-CN") ++ str "告警"

-- `compactChineseBatchSummary`.
unfoldable pub compact_summary : Batch → Text
compact_summary b =
    let count = decimal (length b.events) in
    if same_kind b.kind recovery
    then (if text_eq b.scope (str "auth")
        then str "状态：账号已经恢复正常"
        else str "状态：已恢复 · " ++ count ++ str " 项告警已经解除")
    else if text_eq b.scope (str "test")
    then str "状态：钉钉发送链路正常"
    else if text_eq b.scope (str "health")
    then str "状态：需要处理 · CLIProxyAPI 健康检查失败"
    else if text_eq b.scope (str "memory")
    then str "状态：需要处理 · 内存使用率超过阈值"
    else if text_eq b.scope (str "disk")
    then str "状态：需要处理 · " ++ count ++ str " 个挂载点超过阈值"
    else if text_eq b.scope (str "network")
    then str "状态：需要处理 · " ++ count ++ str " 项连接指标超过阈值"
    else if text_eq b.scope (str "auth")
    then str "状态：账号异常 · 不影响服务器状态报告"
    else str "状态：需要处理 · " ++ count ++ str " 项异常"

unfoldable pub time_label : Batch → Text
time_label b =
    if same_kind b.kind recovery
    then str "恢复于"
    else if text_eq b.scope (str "test")
    then str "测试于"
    else str "告警于"

unfoldable pub english_title : Batch → Text → Text
english_title b language =
    str "CPA Monitor · "
    ++ localized_kind b.kind language
    ++ str " · "
    ++ localized_scope b.scope language

-- The loop over the events that are shown, the first of them the `i`-th.
unfoldable pub english_events : ℕ → List Event → Text
english_events i [] = []
english_events i (e ∷ es) =
    10 ∷ str "### "
    ++ decimal i
    ++ str ". "
    ++ escape_markdown e.object
    ++ gap
    ++ markdown_field (str "Current") e.current
    ++ markdown_field (str "Threshold") e.threshold
    ++ markdown_field (str "Alert key") e.key
    ++ markdown_field (str "Details") e.details
    ++ english_events (suc i) es

module _ {F : Type 0} (fl : Floats F) (fm : Formats F) where
  -- The loop over the events that are shown.
  unfoldable pub compact_events : Kind → Text → List Event → Text
  compact_events kind scope [] = []
  compact_events kind scope (e ∷ es) =
      10
      ∷ ((if same_kind kind recovery
            then compact_recovery_event scope e
            else compact_alert_event fl fm scope e)
          ++ compact_events kind scope es)

  unfoldable pub compact_text : Batch → ℕ → AtContent → Text
  compact_text b max_items at =
      mentions at
      ++ str "## "
      ++ compact_title b
      ++ gap
      ++ str "> "
      ++ compact_summary b
      ++ gap
      ++ str "**"
      ++ escape_markdown b.hostname
      ++ str "**"
      ++ 10
        ∷ (if text_eq b.scope (str "test")
            then compact_test
            else compact_events b.kind b.scope (take max_items b.events))
      ++ (if leb (length b.events) max_items
          then []
          else 10 ∷ str "> 另有 "
            ++ decimal (length b.events - max_items)
            ++ str " 项未展开，请查看监控日志。"
            ++ 10 ∷ [])
      ++ (if is_empty (first_base_url b.events)
          then []
          else 10 ∷ markdown_link (str "管理面板") (first_base_url b.events) ++ 10 ∷ [])
      ++ 10 ∷ time_label b
      ++ str " "
      ++ fm.beijing_minutes b.timestamp
      ++ str "（北京时间）"
      ++ 10 ∷ []

  -- `compactChineseBatchPayload`.
  unfoldable pub compact_payload : Batch → ℕ → AtContent → Payload
  compact_payload b max_items at =
      payload (compact_title b) (compact_text b max_items at) (str "zh-CN") at

  unfoldable pub english_text : Batch → Text → ℕ → AtContent → Text
  english_text b language max_items at =
      mentions at
      ++ str "## "
      ++ escape_markdown (english_title b language)
      ++ gap
      ++ markdown_field (str "Host") b.hostname
      ++ markdown_field (str "Time") (fm.utc_seconds b.timestamp)
      ++ english_events 1 (take max_items b.events)
      ++ (if leb (length b.events) max_items
          then []
          else 10 ∷ str "> "
            ++ decimal (length b.events - max_items)
            ++ str " additional item(s) omitted; see monitor logs."
            ++ 10 ∷ [])
      ++ (if is_empty (first_base_url b.events)
          then []
          else markdown_field (str "CLIProxyAPI base URL") (first_base_url b.events))

  -- `alertPayload`.
  unfoldable pub alert_payload : Batch → Text → ℕ → AtContent → AlertError ⊎ Payload
  alert_payload b language max_items at = elim (validate_batch b) [
    | some e ↦ inl (batch_refused e)
    | none ↦
        if not (known_language language)
        then inl language_unknown
        else if max_items == 0
        then inl no_items
        else if chinese language
        then inr (compact_payload b max_items at)
        else inr
            (payload (english_title b language) (english_text b language max_items at) language at)
  ]
