-- ===== src/Mailer/Language.antt =====
-- The words of a mail: internal/mailer/language.go.
use cpa_monitor.Base.{
  Bool, List, Option, Text, [], cut, false, find, if◌then◌else◌, is_empty, length, ltb, none, put,
  some, split, starts_with, str, suc, text_eq, trim_suffix, true, without_prefix, without_suffix,
  zero, ℕ, ◌++◌, ◌-◌, ◌==◌, ◌||◌, ◌∷◌,
}
use cpa_monitor.Notification.{Kind, alert, recovery, other_kind, Event}

-- `containsHeaderControl`.
unfoldable pub contains_header_control : Text → Bool
contains_header_control [] = false
contains_header_control (c ∷ s) = (ltb c 0x20 || c == 0x7F) || contains_header_control s

abbrev pub english : Text → Bool
english language = text_eq language (str "en")

-- `localizedKind`; `string(kind)` is the first two lines.
unfoldable pub localized_kind : Kind → Text → Text
localized_kind alert language = if english language then str "ALERT" else str "告警"
localized_kind recovery language = if english language then str "RECOVERY" else str "恢复"
localized_kind (other_kind k) language = if english language then k else str "告警"

-- `localizedThreshold`.
unfoldable pub localized_threshold : Text → Text → Text
localized_threshold value language =
    if english language
    then value
    else if text_eq value (str "healthy")
    then str "健康"
    else if text_eq value (str "active")
    then str "活动"
    else if text_eq value (str "active and available")
    then str "活动且可用"
    else value

-- The replacements of `localizedCurrent`, in their order.
unfoldable pub current_words : List (Text × Text)
current_words =
    (str "quota-like status message", str "疑似配额耗尽")
    ∷ (str "non-active status", str "非活动状态")
    ∷ (str "unavailable", str "不可用")
    ∷ (str "disabled", str "已禁用")
    ∷ (str "recovered", str "已恢复")
    ∷ (str "down", str "宕机")
    ∷ []

-- The first replacement whose word the text begins with.
unfoldable pub word_at : List (Text × Text) → Text → Option (Text × Text)
word_at [] s = none
word_at (w ∷ ws) s = let rest = word_at ws s in if starts_with s w.0 then some w else rest

-- `strings.NewReplacer(...).Replace`: `skip` characters of a replaced word are still to be passed.
unfoldable pub replace_words : List (Text × Text) → ℕ → Text → Text
replace_words ws skip [] = []
replace_words ws (suc skip) (c ∷ s) = replace_words ws skip s
replace_words ws zero (c ∷ s) = elim (word_at ws (c ∷ s)) [
  | none ↦ c ∷ replace_words ws 0 s
  | some w ↦ w.1 ++ replace_words ws (length w.0 - 1) s
]

-- `localizedCurrent`.
unfoldable pub localized_current : Text → Text → Text
localized_current value language =
    if english language then value else replace_words current_words 0 value

-- The line without a carriage return at its end, cut at its first "=".
unfoldable pub add_value : Text → List (Text × Text) → List (Text × Text)
add_value line values = elim (cut b'=' (trim_suffix 13 line)) [
  | none ↦ values
  | some (key, value) ↦
      if is_empty value || contains_header_control value
      then values
      else put (λ d. d.0) (key, value) values
]

unfoldable pub add_values : List Text → List (Text × Text) → List (Text × Text)
add_values [] values = values
add_values (line ∷ lines) values = add_values lines (add_value line values)

unfoldable pub value_of : Text → List (Text × Text) → Text
value_of key values = elim (find (λ d. d.0) key values) [ none ↦ [] | some d ↦ d.1 ]

unfoldable pub first_value : List (Text × Text) → List Text → Text
first_value values [] = []
first_value values (key ∷ keys) =
    let rest = first_value values keys in
    if is_empty (value_of key values) then rest else value_of key values

-- `firstDetailValue`.
unfoldable pub first_detail_value : Text → List Text → Text
first_detail_value details keys = first_value (add_values (split 10 details) []) keys

unfoldable pub account_identity : Event → Text
account_identity e =
    let identity =
      first_detail_value e.details
        (str "email" ∷ str "account" ∷ str "name" ∷ str "auth_index" ∷ []) in
    if is_empty identity then without_prefix (str "auth:") e.key else identity

unfoldable pub is_recovery : Kind → Bool
is_recovery alert = false
is_recovery recovery = true
is_recovery (other_kind k) = false

-- The object of an event in Chinese, before its state.
unfoldable pub chinese_object : Event → Text
chinese_object e =
    if text_eq e.key (str "health:cliproxy_down")
    then str "CLIProxyAPI 服务状态"
    else if text_eq e.key (str "resource:memory")
    then str "内存使用率"
    else if starts_with e.key (str "resource:disk:")
    then str "磁盘 " ++ without_prefix (str "resource:disk:") e.key ++ str " 使用率"
    else if text_eq e.key (str "network:total_tcp")
    then str "TCP 连接总数"
    else if starts_with e.key (str "network:service_port:")
    then str "服务端口 " ++ without_prefix (str "network:service_port:") e.key ++ str " TCP 连接数"
    else if starts_with e.key (str "auth:")
    then str "账号 " ++ account_identity e ++ str " 状态"
    else if is_recovery e.kind
    then without_suffix (str " recovered") e.object
    else e.object

-- `localizedObject`.
unfoldable pub localized_object : Event → Text → Text
localized_object e language =
    if english language
    then e.object
    else if is_recovery e.kind
    then chinese_object e ++ str "已恢复"
    else if is_empty e.current
    then chinese_object e
    else chinese_object e ++ str "：" ++ localized_current e.current language
