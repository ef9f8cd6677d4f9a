-- ===== src/Config/Check.antt =====
-- `Validate`, `ServicePort` and `LoadWithEnv` of internal/config/config.go. The YAML decoding and the
-- reading of the file are left out.
use cpa_monitor.Base.{
  pos, Bool, List, Option, Text, [], atoi, contains_any_char, false, if◌then◌else◌, inl, inr,
  is_blank, is_empty, is_negative, is_none, leb, ltb, none, not, pos_part, some, str, text_eq,
  text_mem, trim_space, true, ℕ, ℤ, ◌&&◌, ◌*◌, ◌++◌, ◌-◌, ◌/◌, ◌^◌, ◌||◌, ◌∷◌, ◌⊎◌,
}
use cpa_monitor.Rule.{Floats}
use cpa_monitor.Config.{
  Settings, SmtpConfig, DingTalkConfig, FileLoggingConfig, uses_channel, normalized,
}
use cpa_monitor.Config.Url.{
  Url, Nets, UrlError, parse_base_url, is_http, is_loopback_host, has_space_or_control,
  in_port_range, valid_smtp_host, valid_mailbox,
}

pub data ConfigError : Type 0 where
  bad_interval bad_cliproxy_timeout bad_memory_percent bad_disk_percent bad_total_connections
        bad_service_connections :
      ConfigError
  bad_base_url : UrlError → ConfigError
  plain_http bad_service_port port_unresolved empty_management_key management_key_line_break :
      ConfigError
  empty_state_file bad_primary_channel bad_fallback_channel same_channels bad_report_channel
        bad_report_interval bad_retry_interval :
      ConfigError
  bad_smtp_timeout bad_smtp_language bad_smtp_host bad_smtp_port bad_from no_recipients
        bad_recipient half_credentials bad_tls_mode :
      ConfigError
  bad_dingtalk_timeout bad_dingtalk_language bad_max_items mixed_mentions empty_token empty_secret
        unsafe_token unsafe_secret unsafe_mention :
      ConfigError
  bad_level empty_log_path bad_max_size bad_max_files bad_max_total small_max_total : ConfigError

-- The first error of two stages.
unfoldable pub first_of : Option ConfigError → Option ConfigError → Option ConfigError
first_of none later = later
first_of (some e) later = some e

-- `x <= 0` of an int or a duration.
abbrev pub is_positive : ℤ → Bool
is_positive x = ltb 0 (pos_part x)

-- `validatePercent`.
unfoldable pub bad_percent : {F : Type 0} → Floats F → F → Bool
bad_percent fl x = fl.is_nan x || (fl.is_inf x || (fl.le x fl.zero_percent || fl.gt x fl.hundred))

-- `validChannel`.
unfoldable pub valid_channel : Text → Bool
valid_channel channel = text_eq channel (str "smtp") || text_eq channel (str "dingtalk")

unfoldable pub valid_language : Text → Bool
valid_language language = text_eq language (str "zh-CN") || text_eq language (str "en")

-- `containsUnsafeValue`.
unfoldable pub contains_unsafe_value : Text → Bool
contains_unsafe_value value = not (text_eq value (trim_space value)) || has_space_or_control value

unfoldable pub any_unsafe : List Text → Bool
any_unsafe [] = false
any_unsafe (v ∷ vs) = contains_unsafe_value v || any_unsafe vs

-- Two tests agree.
abbrev pub same : Bool → Bool → Bool
same true b = b
same false b = not b

unfoldable pub all_mailboxes : Nets → List Text → Bool
all_mailboxes n [] = true
all_mailboxes n (a ∷ rest) = valid_mailbox n a && all_mailboxes n rest

-- `maxMegabytesWithoutOverflow`.
abbrev pub max_megabytes : ℕ
max_megabytes = (2 ^ 63 - 1) / (1024 * 1024)

unfoldable pub checked_port : ℤ → Option ℤ
checked_port p = if in_port_range p then some p else none

-- The port of a base URL.
unfoldable pub url_port : Url → Option ℤ
url_port u =
    if not (is_empty u.port)
    then (elim (atoi u.port) [ none ↦ none | some p ↦ checked_port p ])
    else if is_http u.scheme
    then some (pos 80)
    else some (pos 443)

-- `ServicePort`; none is its error.
unfoldable pub service_port : {F : Type 0} → Nets → Settings F → Option ℤ
service_port n c =
    if is_positive c.cliproxy.service_port || is_negative c.cliproxy.service_port
    then checked_port c.cliproxy.service_port
    else elim (parse_base_url n c.cliproxy.base_url) [ inl e ↦ none | inr u ↦ url_port u ]

-- `validateSMTP`.
unfoldable pub smtp_error : Nets → SmtpConfig → Option ConfigError
smtp_error n c =
    if not (is_positive c.timeout)
    then some bad_smtp_timeout
    else if not (valid_language c.language)
    then some bad_smtp_language
    else if not (valid_smtp_host n c.host)
    then some bad_smtp_host
    else if not (in_port_range c.port)
    then some bad_smtp_port
    else if not (valid_mailbox n c.from)
    then some bad_from
    else if is_empty c.to
    then some no_recipients
    else if not (all_mailboxes n c.to)
    then some bad_recipient
    else if not (same (is_empty c.username) (is_empty c.password))
    then some half_credentials
    else if same c.start_tls c.tls
    then some bad_tls_mode
    else none

-- `validateDingTalk`.
unfoldable pub dingtalk_error : DingTalkConfig → Option ConfigError
dingtalk_error c =
    if not (is_positive c.timeout)
    then some bad_dingtalk_timeout
    else if not (valid_language c.language)
    then some bad_dingtalk_language
    else if not (leb 1 (pos_part c.max_items) && leb (pos_part c.max_items) 50)
    then some bad_max_items
    else if c.at_all && (not (is_empty c.at_user_ids) || not (is_empty c.at_mobiles))
    then some mixed_mentions
    else if is_blank c.webhook_token
    then some empty_token
    else if is_blank c.signing_secret
    then some empty_secret
    else if contains_unsafe_value c.webhook_token
    then some unsafe_token
    else if contains_unsafe_value c.signing_secret
    then some unsafe_secret
    else if any_unsafe (c.at_user_ids ++ c.at_mobiles)
    then some unsafe_mention
    else none

-- The stages of `Validate`, in order.
unfoldable pub threshold_error : {F : Type 0} → Floats F → Settings F → Option ConfigError
threshold_error fl c =
    if not (is_positive c.interval)
    then some bad_interval
    else if not (is_positive c.cliproxy.timeout)
    then some bad_cliproxy_timeout
    else if bad_percent fl c.thresholds.memory_percent
    then some bad_memory_percent
    else if bad_percent fl c.thresholds.disk_percent
    then some bad_disk_percent
    else if not (is_positive c.thresholds.total_tcp_connections)
    then some bad_total_connections
    else if not (is_positive c.thresholds.service_port_connections)
    then some bad_service_connections
    else none

unfoldable pub base_url_error : Nets → UrlError ⊎ Url → Option ConfigError
base_url_error n (inl e) = some (bad_base_url e)
base_url_error n (inr u) =
    if is_http u.scheme && not (is_loopback_host n u.hostname) then some plain_http else none

unfoldable pub service_error : {F : Type 0} → Nets → Settings F → Option ConfigError
service_error n c =
    if is_negative c.cliproxy.service_port || ltb 65535 (pos_part c.cliproxy.service_port)
    then some bad_service_port
    else if is_none (service_port n c)
    then some port_unresolved
    else if is_blank c.cliproxy.management_key
    then some empty_management_key
    else if contains_any_char c.cliproxy.management_key (13 ∷ 10 ∷ [])
    then some management_key_line_break
    else none

unfoldable pub alerts_error : {F : Type 0} → Settings F → Option ConfigError
alerts_error c =
    if is_blank c.alerts.state_file
    then some empty_state_file
    else if not (valid_channel c.alerts.primary_channel)
    then some bad_primary_channel
    else if not (is_empty c.alerts.fallback_channel)
        && not (valid_channel c.alerts.fallback_channel)
    then some bad_fallback_channel
    else if text_eq c.alerts.fallback_channel c.alerts.primary_channel
    then some same_channels
    else if not (is_empty c.health_report.channel) && not (valid_channel c.health_report.channel)
    then some bad_report_channel
    else if not (is_positive c.health_report.interval)
    then some bad_report_interval
    else if not (is_positive c.health_report.retry_interval)
    then some bad_retry_interval
    else none

unfoldable pub channel_error : {F : Type 0} → Nets → Settings F → Option ConfigError
channel_error n c =
    first_of (if uses_channel c (str "smtp") then smtp_error n c.smtp else none)
      (if uses_channel c (str "dingtalk") then dingtalk_error c.dingtalk else none)

unfoldable pub known_level : Text → Bool
known_level level = text_mem level (str "debug" ∷ str "info" ∷ str "warn" ∷ str "error" ∷ [])

unfoldable pub file_error : FileLoggingConfig → Option ConfigError
file_error f =
    if is_blank f.path
    then some empty_log_path
    else if not (is_positive f.max_size_mb) || ltb max_megabytes (pos_part f.max_size_mb)
    then some bad_max_size
    else if not (is_positive f.max_files)
    then some bad_max_files
    else if not (is_positive f.max_total_size_mb)
        || ltb max_megabytes (pos_part f.max_total_size_mb)
    then some bad_max_total
    else if ltb (pos_part f.max_total_size_mb) (pos_part f.max_size_mb)
    then some small_max_total
    else none

unfoldable pub logging_error : {F : Type 0} → Settings F → Option ConfigError
logging_error c =
    if not (known_level c.logging.level)
    then some bad_level
    else if c.logging.file.enabled
    then file_error c.logging.file
    else none

-- `Validate`; none means that the configuration is accepted.
unfoldable pub validate : {F : Type 0} → Floats F → Nets → Settings F → Option ConfigError
validate fl n c = first_of (threshold_error fl c) (
    first_of (base_url_error n (parse_base_url n c.cliproxy.base_url)) (
      first_of (service_error n c)
        (first_of (alerts_error c) (first_of (channel_error n c) (logging_error c)))))

-- `LoadWithEnv`, from the decoded configuration on.
unfoldable pub load :
    {F : Type 0} → Floats F → Nets → (Text → Option Text) → Settings F → ConfigError ⊎ Settings F
load fl n env decoded =
    let c = normalized env decoded in elim (validate fl n c) [ some e ↦ inl e | none ↦ inr c ]
