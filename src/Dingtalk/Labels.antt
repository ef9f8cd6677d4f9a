-- ===== src/Dingtalk/Labels.antt =====
-- The words of the messages in internal/dingtalk/message.go: the details of an event, and the labels
-- chosen by scope, kind and language. A missing key of a map gives the empty text.
use cpa_monitor.Base.{
  pos, Bool, List, Option, Text, [], cut, find, if◌then◌else◌, is_blank, is_empty, leb, ltb, none,
  not, parse_uint, pos_part, put, some, split, str, suc, text_eq, text_mem, trim_space, trim_suffix,
  without_suffix, zero, ℕ, ◌&&◌, ◌++◌, ◌-◌, ◌||◌, ◌∷◌,
}
use cpa_monitor.State.{Details}
use cpa_monitor.Alerter.Message.{detail_key}
use cpa_monitor.Notification.{Kind, alert, recovery, other_kind, Event}
use cpa_monitor.Rule.{Floats}
use cpa_monitor.Notification.Formats.{Formats}

abbrev pub chinese : Text → Bool
chinese language = text_eq language (str "zh-CN")

-- One round of the loop of `parseEventDetails`, and the loop.
unfoldable pub add_detail : Text → Details → Details
add_detail line details = elim (cut b'=' line) [
  | none ↦ details
  | some (key, item) ↦
      if is_blank key then details else put detail_key (trim_space key, trim_space item) details
]

unfoldable pub add_details : List Text → Details → Details
add_details [] details = details
add_details (line ∷ lines) details = add_details lines (add_detail line details)

-- `parseEventDetails`.
unfoldable pub parse_event_details : Text → Details
parse_event_details value = add_details (split 10 value) []

-- `details[key]`.
unfoldable pub detail : Details → Text → Text
detail details key = elim (find detail_key key details) [ none ↦ [] | some d ↦ d.1 ]

-- `strings.TrimSpace(details[key])`.
unfoldable pub trimmed_detail : Details → Text → Text
trimmed_detail details key = trim_space (detail details key)

-- `firstNonEmptyDetail`.
unfoldable pub first_non_empty_detail : Details → List Text → Text
first_non_empty_detail details [] = []
first_non_empty_detail details (key ∷ keys) =
    let rest = first_non_empty_detail details keys in
    if is_empty (trimmed_detail details key) then rest else trimmed_detail details key

unfoldable pub identity_keys : List Text
identity_keys = str "email" ∷ str "account" ∷ str "name" ∷ []

unfoldable pub localized_reason : Text → Text
localized_reason reason =
    if text_eq reason (str "unavailable")
    then str "账号不可用"
    else if text_eq reason (str "quota-like status message")
    then str "额度状态异常"
    else if text_eq reason (str "non-active status")
    then str "账号状态不是 active"
    else reason

-- The loop of `localizedAuthReasons`: the reasons seen are those given.
unfoldable pub add_reasons : List Text → List Text → List Text
add_reasons [] localized = localized
add_reasons (raw ∷ raws) localized =
    let reason = localized_reason (trim_space raw) in
    add_reasons raws
      (if is_blank raw || text_mem reason localized then localized else localized ++ reason ∷ [])

-- `localizedAuthReasons`.
unfoldable pub localized_auth_reasons : Text → List Text
localized_auth_reasons value = add_reasons (split b',' value) []

-- `localizedScope`.
unfoldable pub localized_scope : Text → Text → Text
localized_scope scope language =
    if not (chinese language)
    then scope
    else if text_eq scope (str "health")
    then str "健康检查"
    else if text_eq scope (str "memory")
    then str "内存"
    else if text_eq scope (str "disk")
    then str "磁盘"
    else if text_eq scope (str "network")
    then str "TCP 连接"
    else if text_eq scope (str "auth")
    then str "账号"
    else scope

-- `string(kind)`.
unfoldable pub kind_name : Kind → Text
kind_name alert = str "ALERT"
kind_name recovery = str "RECOVERY"
kind_name (other_kind k) = k

-- `localizedKind`.
unfoldable pub localized_kind : Kind → Text → Text
localized_kind alert language = if chinese language then str "告警" else kind_name alert
localized_kind recovery language = if chinese language then str "恢复" else kind_name recovery
localized_kind (other_kind k) language = if chinese language then str "告警" else k

-- `compactNetworkLabel`.
unfoldable pub compact_network_label : Event → Details → Text
compact_network_label event details =
    if text_eq (detail details (str "kind")) (str "service_port_tcp")
    then (if is_empty (trimmed_detail details (str "service_port"))
        then str "服务端口连接"
        else str "端口 " ++ trimmed_detail details (str "service_port"))
    else if text_eq (detail details (str "kind")) (str "total_tcp")
    then str "TCP 总连接"
    else if not (is_blank event.object)
    then event.object
    else str "TCP 连接"

-- The end of `compactRecoveryLabel`.
unfoldable pub object_label : Text → Event → Text
object_label scope event =
    let value = trim_space (without_suffix (str " recovered") event.object) in
    if is_empty value then localized_scope scope (str "zh-CN") else value

-- `compactRecoveryLabel`.
unfoldable pub compact_recovery_label : Text → Event → Details → Text
compact_recovery_label scope event details =
    if text_eq scope (str "health")
    then str "CLIProxyAPI"
    else if text_eq scope (str "memory")
    then str "内存"
    else if text_eq scope (str "disk")
    then (let value = first_non_empty_detail details (str "mount_point" ∷ []) in
        if is_empty value then object_label scope event else value)
    else if text_eq scope (str "network")
    then compact_network_label event details
    else if text_eq scope (str "auth")
    then (let value = first_non_empty_detail details identity_keys in
        if is_empty value then str "账号" else value)
    else object_label scope event

-- `compactOriginalValue`.
unfoldable pub compact_original_value : Text → Details → Text
compact_original_value scope details =
    if text_eq scope (str "memory") || text_eq scope (str "disk")
    then trimmed_detail details (str "used_percent")
    else if text_eq scope (str "network")
    then trimmed_detail details (str "connections")
    else []

-- `firstBaseURL`.
unfoldable pub first_base_url : List Event → Text
first_base_url [] = []
first_base_url (e ∷ es) =
    let rest = first_base_url es in if is_blank e.base_url then rest else trim_space e.base_url

-- `displayVersion`.
unfoldable pub shown_version : Text → Text
shown_version [] = []
shown_version (c ∷ s) = if leb b'0' c && leb c b'9' then b'v' ∷ c ∷ s else c ∷ s

unfoldable pub display_version : Text → Text
display_version value = shown_version (trim_space value)

-- `quotaWindowLabel`: the Chinese label, and the English one.
unfoldable pub window_labels : Text → Text × Text
window_labels kind =
    if text_eq kind (str "five_hour")
    then (str "5 小时限额", str "5-hour limit")
    else if text_eq kind (str "weekly")
    then (str "周限额", str "Weekly limit")
    else if text_eq kind (str "monthly")
    then (str "月度限额", str "Monthly limit")
    else if text_eq kind (str "primary")
    then (str "短周期限额", str "Primary limit")
    else if text_eq kind (str "secondary")
    then (str "长周期限额", str "Secondary limit")
    else (str "套餐限额", str "Plan limit")

unfoldable pub quota_window_label : Text → Text → Text
quota_window_label kind language =
    if chinese language then (window_labels kind).0 else (window_labels kind).1

-- `strings.Repeat`.
unfoldable pub repeat_text : Text → ℕ → Text
repeat_text s zero = []
repeat_text s (suc n) = s ++ repeat_text s n

module _ {F : Type 0} (fl : Floats F) (fm : Formats F) where
  -- `parsePercentValue`.
  unfoldable pub parse_percent_value : Text → Option F
  parse_percent_value value =
      elim (fm.parse_float (trim_space (trim_suffix b'%' (trim_space value)))) [
        | none ↦ none
        | some x ↦
            if fl.is_nan x
              || (fl.is_inf x || (fl.lt x (fm.of_int (pos 0)) || fl.gt x (fm.of_int (pos 100))))
            then none
            else some x
      ]

  -- `formatCompactPercent`.
  unfoldable pub format_compact_percent : F → Text
  format_compact_percent value = without_suffix (str ".0") (fm.fixed value)

  -- The loop of `compactByteValue`, over the units that are left.
  unfoldable pub scaled : List Text → F → Text → Text
  scaled [] size unit = format_compact_percent size ++ str " " ++ unit
  scaled (next ∷ units) size unit =
      let more = scaled units (fm.over size (fm.of_int (pos 1024))) next in
      if fl.ge size (fm.of_int (pos 1024))
      then more
      else format_compact_percent size ++ str " " ++ unit

  -- `compactByteValue`.
  unfoldable pub compact_byte_value : Text → Text
  compact_byte_value value = elim (parse_uint 10 64 (trim_space value)) [
    | none ↦ []
    | some bytes ↦
        scaled (str "KiB" ∷ str "MiB" ∷ str "GiB" ∷ str "TiB" ∷ str "PiB" ∷ str "EiB" ∷ [])
          (fm.of_int (pos bytes)) (str "B")
  ]

  -- `quotaProgressBar`: ten steps, `filled` of them full.
  unfoldable pub filled_steps : F → ℕ
  filled_steps used =
      let filled = fm.round (fm.times (fm.over used (fm.of_int (pos 100))) (fm.of_int (pos 10))) in
      if ltb 10 (pos_part filled) then 10 else pos_part filled

  unfoldable pub quota_progress_bar : F → Text
  quota_progress_bar used =
      repeat_text (str "█") (filled_steps used) ++ repeat_text (str "░") (10 - filled_steps used)
