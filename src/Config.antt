-- ===== src/Config.antt =====
-- The configuration: the types, `Default` and the environment of internal/config/config.go. Durations
-- are in nanoseconds, percentages of a type `F`.
pub mod Url
pub mod Check
pub mod Accepted
use cpa_monitor.Base.{
  pos, Bool, List, Option, Text, [], equal_fold_ascii, false, has, if◌then◌else◌, is_empty,
  lower_rune, map, none, not, some, str, text_eq, text_mem, trim_space, true, ℕ, ℤ, ◌&&◌, ◌*◌, ◌^◌,
  ◌||◌, ◌∷◌,
}

abbrev pub second : ℕ
second = 10 ^ 9

pub record CliProxyConfig : Type 0 where
  pub base_url : Text
  pub management_key : Text
  pub management_key_env : Text
  pub service_port : ℤ
  pub timeout : ℤ

pub record ThresholdsConfig (F : Type 0) : Type 0 where
  pub memory_percent : F
  pub disk_percent : F
  pub total_tcp_connections : ℤ
  pub service_port_connections : ℤ

pub record AlertsConfig : Type 0 where
  pub send_recovery : Bool
  pub state_file : Text
  pub primary_channel : Text
  pub fallback_channel : Text

pub record HealthReportConfig : Type 0 where
  pub enabled : Bool
  pub interval : ℤ
  pub retry_interval : ℤ
  pub channel : Text

pub record SmtpConfig : Type 0 where
  pub host : Text
  pub port : ℤ
  pub language : Text
  pub username : Text
  pub username_env : Text
  pub password : Text
  pub password_env : Text
  pub from : Text
  pub to : List Text
  pub start_tls : Bool
  pub tls : Bool
  pub timeout : ℤ

pub record DingTalkConfig : Type 0 where
  pub webhook_token : Text
  pub webhook_token_env : Text
  pub signing_secret : Text
  pub signing_secret_env : Text
  pub language : Text
  pub timeout : ℤ
  pub max_items : ℤ
  pub at_user_ids : List Text
  pub at_mobiles : List Text
  pub at_all : Bool

pub record FileLoggingConfig : Type 0 where
  pub enabled : Bool
  pub path : Text
  pub max_size_mb : ℤ
  pub max_files : ℤ
  pub max_total_size_mb : ℤ

pub record LoggingConfig : Type 0 where
  pub level : Text
  pub file : FileLoggingConfig

-- `Config`.
pub record Settings (F : Type 0) : Type 0 where
  pub interval : ℤ
  pub cliproxy : CliProxyConfig
  pub thresholds : ThresholdsConfig F
  pub alerts : AlertsConfig
  pub health_report : HealthReportConfig
  pub smtp : SmtpConfig
  pub dingtalk : DingTalkConfig
  pub logging : LoggingConfig

-- `Default`; the argument is the percentage 80.
unfoldable pub default_settings : {F : Type 0} → F → Settings F
default_settings eighty = record {
  interval = pos (60 * second);
  cliproxy = record {
    base_url = str "http://127.0.0.1:8317";
    management_key = [];
    management_key_env = [];
    service_port = pos 0;
    timeout = pos (10 * second);
  };
  thresholds = record {
    memory_percent = eighty;
    disk_percent = eighty;
    total_tcp_connections = pos 3000;
    service_port_connections = pos 800;
  };
  alerts = record {
    send_recovery = false;
    state_file = str "state/alerts.json";
    primary_channel = str "smtp";
    fallback_channel = [];
  };
  health_report = record {
    enabled = false;
    interval = pos (24 * 3600 * second);
    retry_interval = pos (15 * 60 * second);
    channel = [];
  };
  smtp = record {
    host = [];
    port = pos 587;
    language = str "zh-CN";
    username = [];
    username_env = [];
    password = [];
    password_env = [];
    from = [];
    to = [];
    start_tls = true;
    tls = false;
    timeout = pos (10 * second);
  };
  dingtalk = record {
    webhook_token = [];
    webhook_token_env = [];
    signing_secret = [];
    signing_secret_env = [];
    language = str "zh-CN";
    timeout = pos (10 * second);
    max_items = pos 10;
    at_user_ids = [];
    at_mobiles = [];
    at_all = false;
  };
  logging = record {
    level = str "info";
    file = record {
      enabled = false;
      path = str "logs/monitor.log";
      max_size_mb = pos 20;
      max_files = pos 5;
      max_total_size_mb = pos 80;
    };
  };
}

-- `HealthReportChannel`.
unfoldable pub health_report_channel : {F : Type 0} → Settings F → Text
health_report_channel c =
    if not (is_empty c.health_report.channel)
    then c.health_report.channel
    else c.alerts.primary_channel

-- `UsesChannel`.
unfoldable pub uses_channel : {F : Type 0} → Settings F → Text → Bool
uses_channel c channel =
    if text_eq c.alerts.primary_channel channel || text_eq c.alerts.fallback_channel channel
    then true
    else c.health_report.enabled && text_eq (health_report_channel c) channel

-- A secret, unless its variable is named and set.
unfoldable pub overridden : (Text → Option Text) → Text → Text → Text
overridden lookup_env name inline =
    if not (is_empty name)
    then (elim (lookup_env name) [ none ↦ inline | some value ↦ value ])
    else inline

-- `applyEnvironment`.
unfoldable pub apply_environment : {F : Type 0} → (Text → Option Text) → Settings F → Settings F
apply_environment env c = record c {
  cliproxy = record c.cliproxy {
    management_key = overridden env c.cliproxy.management_key_env c.cliproxy.management_key;
  };
  smtp = record c.smtp {
    username = overridden env c.smtp.username_env c.smtp.username;
    password = overridden env c.smtp.password_env c.smtp.password;
  };
  dingtalk = record c.dingtalk {
    webhook_token = overridden env c.dingtalk.webhook_token_env c.dingtalk.webhook_token;
    signing_secret = overridden env c.dingtalk.signing_secret_env c.dingtalk.signing_secret;
  };
}

-- `normalizeChannel`. A letter above ASCII that `lower_rune` leaves alone stays above ASCII, where no
-- channel has one.
unfoldable pub normalize_channel : Text → Text
normalize_channel value = map lower_rune (trim_space value)

-- `normalizeLanguage`.
unfoldable pub normalize_language : Text → Text
normalize_language value =
    if equal_fold_ascii (trim_space value) (str "zh-cn")
    then str "zh-CN"
    else map lower_rune (trim_space value)

-- The loop of `normalizeStringList`, with the values seen.
unfoldable pub distinct_values : List Text → List Text → List Text
distinct_values seen [] = []
distinct_values seen (v ∷ vs) =
    let t = trim_space v in
    let rest = distinct_values seen vs in
    let kept = distinct_values (t ∷ seen) vs in
    if is_empty t then rest else if text_mem t seen then rest else t ∷ kept

-- `normalizeStringList`.
unfoldable pub normalize_string_list : List Text → List Text
normalize_string_list values = distinct_values [] values

-- The changes that `LoadWithEnv` makes to a decoded configuration, before it validates it.
unfoldable pub normalized : {F : Type 0} → (Text → Option Text) → Settings F → Settings F
normalized env c =
    let e = apply_environment env c in
    record e {
      alerts = record e.alerts {
        primary_channel = normalize_channel e.alerts.primary_channel;
        fallback_channel = normalize_channel e.alerts.fallback_channel;
      };
      health_report = record e.health_report {
        channel = normalize_channel e.health_report.channel;
      };
      smtp = record e.smtp { language = normalize_language e.smtp.language };
      dingtalk = record e.dingtalk {
        language = normalize_language e.dingtalk.language;
        at_user_ids = normalize_string_list e.dingtalk.at_user_ids;
        at_mobiles = normalize_string_list e.dingtalk.at_mobiles;
      };
      logging = record e.logging { level = map lower_rune (trim_space e.logging.level) };
    }
