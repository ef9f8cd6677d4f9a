-- ===== src/Dingtalk/Events.antt =====
-- The sections of one event in a Chinese message: the writers of internal/dingtalk/message.go.
use cpa_monitor.Base.{
  List, Option, Text, [], if◌then◌else◌, is_blank, is_empty, join, none, some, str, text_eq,
  trim_space, ◌&&◌, ◌++◌, ◌||◌, ◌∷◌,
}
use cpa_monitor.State.{Details}
use cpa_monitor.Notification.{Event}
use cpa_monitor.Rule.{Floats}
use cpa_monitor.Notification.Formats.{Formats}
use cpa_monitor.Dingtalk.Markdown.{escape_markdown, truncate_runes, compact_field}
use cpa_monitor.Dingtalk.Labels.{
  parse_event_details, detail, trimmed_detail, first_non_empty_detail, identity_keys,
  localized_auth_reasons, compact_network_label, compact_recovery_label, compact_original_value,
  parse_percent_value, compact_byte_value, quota_progress_bar,
}

abbrev pub gap : Text
gap = 10 ∷ 10 ∷ []

-- A bold word before a value, as `writeCompactCurrentThreshold` writes it.
unfoldable pub bold_value : Text → Text → Text
bold_value label value = if is_blank value then [] else label ++ escape_markdown (trim_space value)

-- `writeCompactCurrentThreshold`.
unfoldable pub current_threshold : Text → Text → Text
current_threshold current threshold =
    if is_blank current && is_blank threshold
    then []
    else bold_value (str "**当前** ") current
      ++ (if is_blank current || is_blank threshold then [] else str " · ")
      ++ bold_value (str "**阈值** ") threshold
      ++ gap

-- `writeCompactChineseTest`.
unfoldable pub compact_test : Text
compact_test =
    10
    ∷ (str "### 发送链路"
        ++ gap
        ++ str "Webhook 请求成功"
        ++ gap
        ++ str "签名验证通过"
        ++ gap
        ++ str "消息格式解析正常"
        ++ gap
        ++ str "这是一条手动发送的测试通知。"
        ++ 10 ∷ [])

-- The field for a reason from elsewhere, which is cut to 500 characters.
unfoldable pub reason_field : Text → Text → Text
reason_field label reason =
    if is_empty reason then [] else compact_field label (truncate_runes reason 500)

-- The loop over the reasons in `writeCompactChineseAuthAlert`.
unfoldable pub reason_lines : List Text → Text
reason_lines [] = []
reason_lines (r ∷ rs) = str "**[异常]** " ++ escape_markdown r ++ gap ++ reason_lines rs

-- `writeCompactChineseAuthAlert`.
unfoldable pub auth_alert : Event → Details → Text
auth_alert event details =
    let label = first_non_empty_detail details identity_keys in
    str "### [异常] "
    ++ escape_markdown (if is_empty label then str "账号" else label)
    ++ gap
    ++ reason_lines (localized_auth_reasons event.current)
    ++ compact_field (str "提供商") (first_non_empty_detail details (str "provider" ∷ str "type" ∷ []))
    ++ compact_field (str "当前状态") (trimmed_detail details (str "status"))
    ++ reason_field (str "服务返回") (trimmed_detail details (str "status_message"))
    ++ compact_field (str "建议") (str "检查账号额度、凭据或重新登录账号")

unfoldable pub titled_alert : Text → Event → Text
titled_alert label event =
    str "### [告警] "
    ++ escape_markdown label
    ++ gap
    ++ current_threshold event.current event.threshold

module _ {F : Type 0} (fl : Floats F) (fm : Formats F) where
  unfoldable pub progress_line : Option F → Text
  progress_line none = []
  progress_line (some x) = quota_progress_bar fl fm x ++ gap

  -- The bytes of `writeCompactResourceAlert`.
  unfoldable pub bytes_field : Details → Text
  bytes_field details =
      let used = compact_byte_value fl fm (detail details (str "used_bytes")) in
      let total = compact_byte_value fl fm (detail details (str "total_bytes")) in
      let filesystem = trimmed_detail details (str "filesystem_type") in
      if is_empty used || is_empty total
      then []
      else compact_field (str "已用") (
          used
          ++ str " / 总计 "
          ++ total
          ++ (if is_empty filesystem then [] else str " · " ++ filesystem))

  -- `writeCompactResourceAlert`.
  unfoldable pub resource_alert : Text → Event → Details → Text
  resource_alert label event details =
      str "### [告警] "
      ++ escape_markdown label
      ++ (if is_blank event.current then [] else 0x3000 ∷ escape_markdown event.current)
      ++ gap
      ++ progress_line (parse_percent_value fl fm event.current)
      ++ current_threshold event.current event.threshold
      ++ bytes_field details

  -- `writeCompactChineseAlertEvent`, with the parsed details.
  unfoldable pub alert_event_with : Text → Event → Details → Text
  alert_event_with scope event details =
      let mount_point = first_non_empty_detail details (str "mount_point" ∷ []) in
      if text_eq scope (str "health")
      then str "### [告警] CLIProxyAPI"
        ++ gap
        ++ compact_field (str "当前状态") (str "无法访问")
        ++ reason_field (str "失败原因") (trimmed_detail details (str "error"))
        ++ compact_field (str "影响范围") (str "服务器健康检查未通过")
      else if text_eq scope (str "memory")
      then resource_alert (str "内存") event details
      else if text_eq scope (str "disk")
      then resource_alert (if is_empty mount_point then event.object else mount_point) event details
      else if text_eq scope (str "network")
      then titled_alert (compact_network_label event details) event
      else if text_eq scope (str "auth")
      then auth_alert event details
      else titled_alert event.object event

  unfoldable pub compact_alert_event : Text → Event → Text
  compact_alert_event scope event = alert_event_with scope event (parse_event_details event.details)

-- What `writeCompactChineseRecoveryEvent` says of the alert that is over.
unfoldable pub original_alert : Text → Event → Details → Text
original_alert scope event details =
    let reasons = localized_auth_reasons (detail details (str "reason")) in
    let original = compact_original_value scope details in
    if text_eq scope (str "health")
    then compact_field (str "原异常") (str "CLIProxyAPI 健康检查失败")
      ++ reason_field (str "原失败原因") (trimmed_detail details (str "error"))
    else if text_eq scope (str "auth")
    then (if is_empty reasons then [] else compact_field (str "原异常") (join (str " · ") reasons))
    else if is_empty original
    then []
    else compact_field (str "原告警") (
        original
        ++ (if is_blank event.threshold then [] else str " · 阈值 " ++ trim_space event.threshold))

-- `writeCompactChineseRecoveryEvent`, with the parsed details.
unfoldable pub recovery_event_with : Text → Event → Details → Text
recovery_event_with scope event details =
    str "### [恢复] "
    ++ escape_markdown (compact_recovery_label scope event details)
    ++ gap
    ++ original_alert scope event details
    ++ compact_field (str "当前状态") (str "已恢复正常")

unfoldable pub compact_recovery_event : Text → Event → Text
compact_recovery_event scope event =
    recovery_event_with scope event (parse_event_details event.details)
