-- ===== src/App.antt =====
-- The program: internal/app/app.go and runtime.go. The outside of the program is a value of `Outside`:
-- what the state file and the log directory answer, the host name, and the sending of the transports.
pub mod Run
pub mod Build
mod Start
mod Ready
pub mod Built
mod Parts
use cpa_monitor.Base.{
  Bool, List, Option, Text, [], if◌then◌else◌, inl, inr, int64, neg_part, none, not, pos_part, some,
  str, text_eq, true, ℕ, ℤ, ◌%◌, ◌*◌, ◌+◌, ◌-◌, ◌^◌, ◌∷◌, ◌⊎◌,
}
use cpa_monitor.Config.{Settings, uses_channel}
use cpa_monitor.Config.Url.{Nets}
use cpa_monitor.Config.Check.{ConfigError}
use cpa_monitor.Logfile.{WriterOptions, WriterError, options_error}
use cpa_monitor.Mailer.{Mailer, MailerError, MailerOptions, new_mailer}
use cpa_monitor.Dingtalk.{DingtalkClient, DingtalkError, DingtalkOptions, new_dingtalk}
use cpa_monitor.Cliproxy.Client.{ClientError}
use cpa_monitor.Notification.Router.{Sender, RouterError}
use cpa_monitor.State.Persist.{Codec, Reading}
use cpa_monitor.Healthreport
use cpa_monitor.Monitor

pub data BuildError : Type 0 where
  bad_config : ConfigError → BuildError
  bad_log_options : WriterError → BuildError
  log_failed bad_level unsupported_channel no_service_port no_hostname no_health_sender : BuildError
  bad_mailer : MailerError → BuildError
  bad_dingtalk : DingtalkError → BuildError
  bad_router : RouterError → BuildError
  bad_client : ClientError → BuildError
  bad_health : Healthreport.OptionError → BuildError
  bad_runner : Monitor.RunnerError → BuildError

infixl 5 ◌>>=◌
abbrev pub ◌>>=◌ {ℓ κ} :
    {A : Type ℓ} {B : Type κ} → BuildError ⊎ A → (A → BuildError ⊎ B) → BuildError ⊎ B
inl e >>= f = inl e
inr a >>= f = f a

-- A constructor's result under the name of its part.
abbrev pub wrapped {ℓ} : {E : Type 0} {A : Type ℓ} → (E → BuildError) → E ⊎ A → BuildError ⊎ A
wrapped name (inl e) = inl (name e)
wrapped name (inr a) = inr a

abbrev pub required {ℓ} : {A : Type ℓ} → BuildError → Option A → BuildError ⊎ A
required e none = inl e
required e (some a) = inr a

-- The sender that a channel has, for alerts and for health reports.
pub data Channel : Type 0 where
  smtp : Mailer → Channel
  dingtalk : DingtalkClient → Channel

-- `hostname` is `os.Hostname()`; `log_opens` says whether `NewWriter` succeeds on accepted options.
pub record Outside (W : Type 0) : Type 0 where
  pub nets : Nets
  pub codec : Codec
  pub state_reading : Text → Reading
  pub log_opens : WriterOptions → Bool
  pub hostname : Option Text
  pub alert_sender : Channel → Sender W

-- int64 multiplication by a small number, which wraps.
unfoldable pub mul_int64 : ℤ → ℕ → ℤ
mul_int64 a n = int64 ((pos_part a * n + (2 ^ 64 - neg_part a) * n) % 2 ^ 64)

-- `MB * 1024 * 1024`.
unfoldable pub megabytes : ℤ → ℤ
megabytes mb = mul_int64 (mul_int64 mb 1024) 1024

module _ {F : Type 0} where
  abbrev pub writer_options : Settings F → WriterOptions
  writer_options c = record {
    path = c.logging.file.path;
    max_size_bytes = megabytes c.logging.file.max_size_mb;
    max_files = c.logging.file.max_files;
    max_total_size_bytes = megabytes c.logging.file.max_total_size_mb;
  }

  abbrev pub mailer_options : Settings F → MailerOptions
  mailer_options c = record {
    host = c.smtp.host;
    port = c.smtp.port;
    language = c.smtp.language;
    username = c.smtp.username;
    password = c.smtp.password;
    from = c.smtp.from;
    to = c.smtp.to;
    start_tls = c.smtp.start_tls;
    direct_tls = c.smtp.tls;
    timeout = c.smtp.timeout;
  }

  abbrev pub dingtalk_options : Settings F → DingtalkOptions
  dingtalk_options c = record {
    webhook_token = c.dingtalk.webhook_token;
    signing_secret = c.dingtalk.signing_secret;
    language = c.dingtalk.language;
    timeout = c.dingtalk.timeout;
    max_items = c.dingtalk.max_items;
    at_user_ids = c.dingtalk.at_user_ids;
    at_mobiles = c.dingtalk.at_mobiles;
    at_all = c.dingtalk.at_all;
  }

  abbrev pub health_options : Settings F → Text → Healthreport.Options
  health_options c hostname = record {
    enabled = c.health_report.enabled;
    interval = c.health_report.interval;
    retry_interval = c.health_report.retry_interval;
    hostname = hostname;
    base_url = c.cliproxy.base_url;
  }

  -- The health reporter is never nil.
  abbrev pub runner_options : Settings F → ℤ → Monitor.Options F
  runner_options c port = record {
    has_reporter = true;
    service_port = port;
    memory_percent = c.thresholds.memory_percent;
    disk_percent = c.thresholds.disk_percent;
    total_tcp_connections = c.thresholds.total_tcp_connections;
    service_port_connections = c.thresholds.service_port_connections;
  }

  -- The file writer, where there is one.
  unfoldable pub build_log : (WriterOptions → Bool) → Settings F → BuildError ⊎ Option WriterOptions
  build_log opens c =
      if not c.logging.file.enabled then inr none else elim (options_error (writer_options c)) [
        | some e ↦ inl (bad_log_options e)
        | none ↦ if opens (writer_options c) then inr (some (writer_options c)) else inl log_failed
      ]

  -- `buildChannel`.
  unfoldable pub build_channel : Nets → Settings F → Text → BuildError ⊎ Channel
  build_channel n c channel =
      if text_eq channel (str "smtp")
      then wrapped bad_mailer (new_mailer n (mailer_options c)) >>= (λ m. inr (smtp m))
      else if text_eq channel (str "dingtalk")
      then wrapped bad_dingtalk (new_dingtalk (dingtalk_options c)) >>= (λ d. inr (dingtalk d))
      else inl unsupported_channel

  -- The loop of `buildTransports`; the result stands for both of its maps.
  unfoldable pub build_used : Nets → Settings F → List Text → BuildError ⊎ List (Text × Channel)
  build_used n c [] = inr []
  build_used n c (channel ∷ channels) =
      let rest = build_used n c channels in
      if not (uses_channel c channel)
      then rest
      else do x ← build_channel n c channel; xs ← rest; inr ((channel, x) ∷ xs)

  -- `buildTransports`.
  unfoldable pub build_transports : Nets → Settings F → BuildError ⊎ List (Text × Channel)
  build_transports n c = build_used n c (str "smtp" ∷ str "dingtalk" ∷ [])

-- A map's value, nil where the name is missing.
unfoldable pub channel_at : Text → List (Text × Channel) → Option Channel
channel_at name [] = none
channel_at name ((key, x) ∷ xs) =
    let rest = channel_at name xs in if text_eq key name then some x else rest
