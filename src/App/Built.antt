-- ===== src/App/Built.antt =====
-- `buildRuntime` of internal/app/runtime.go, from the accepted configuration to the runtime.
use cpa_monitor.Base.{List, Option, Text, false, inr, is_empty, none, refl, some, true, ℤ, ◌≡◌}
use cpa_monitor.Rule.{Floats}
use cpa_monitor.Config.{Settings}
use cpa_monitor.Config.Url.{Url}
use cpa_monitor.Config.Check
use cpa_monitor.Config.Accepted.{validate-IsAccepted, service_port-range}
use cpa_monitor.Logfile.{WriterOptions, Level, parse_level}
use cpa_monitor.Mailer
use cpa_monitor.Cliproxy.Client
use cpa_monitor.Healthreport
use cpa_monitor.Monitor
use cpa_monitor.State.{File, StateError}
use cpa_monitor.State.Persist.{open_file}
use cpa_monitor.App.{
  Outside, Channel, writer_options, health_options, runner_options, build_log, build_transports,
}
use cpa_monitor.Notification.Router.{Router}
use cpa_monitor.App.Build.{
  Runtime, alert_manager, build_runtime, build_alert_router, health_sender, accepted,
}
use cpa_monitor.App.Parts.{new_runner-made, new_manager-made, parse_level-some}
use cpa_monitor.App.Start.{transports_made}
use cpa_monitor.App.Ready.{
  some-value, made-value, fallback_name, router_made, health_sender_made, port_made, log_made,
  client_made, base_url_present,
}

module _ {F W : Type 0} (o : Outside W) (c : Settings F) where
  abbrev opened : File × Option StateError
  opened = open_file o.codec c.alerts.state_file (o.state_reading c.alerts.state_file)

  -- The runtime has the routes and the interval of the configuration, and the state that was opened.
  pub record IsFor (r : Runtime F W) : Type 0 where
    pub primary : r.router.primary.name ≡ c.alerts.primary_channel
    pub fallback : fallback_name r.router ≡ c.alerts.fallback_channel
    pub interval : r.interval ≡ c.interval
    pub state : r.alerts.store ≡ opened.0
    pub degraded : r.initial_error ≡ opened.1

module _ {F W : Type 0} (fl : Floats F) (o : Outside W) (c : Settings F) where
  build_runtime_stages :
      {log : Option WriterOptions} {level : Level} {ts : List (Text × Channel)} {router : Router W}
      {client : Client.Client} {port : ℤ} {host : Text} {channel : Channel}
      {health : Healthreport.Manager} {runner : Monitor.Runner F}
      → Check.validate fl o.nets c ≡ none
      → build_log o.log_opens c ≡ inr log
      → parse_level c.logging.level ≡ some level
      → build_transports o.nets c ≡ inr ts
      → build_alert_router o c ts ≡ inr router
      → Client.new_client o.nets c.cliproxy.base_url c.cliproxy.management_key c.cliproxy.timeout
        ≡ inr client
      → Check.service_port o.nets c ≡ some port
      → o.hostname ≡ some host
      → health_sender c ts ≡ some channel
      → Healthreport.new_manager (health_options c host) ≡ inr health
      → Monitor.new_runner fl (runner_options c port) ≡ inr runner
      → build_runtime fl o c
        ≡ inr (record {
          log = log;
          level = level;
          router = router;
          client = client;
          alerts = alert_manager c host (opened o c).0;
          health = health;
          health_channel = channel;
          runner = runner;
          interval = c.interval;
          initial_error = (opened o c).1;
        })
  unfolding build_runtime
  build_runtime_stages e1 e2 e3 e4 e5 e6 e7 e8 e9 e10 e11 =
      rw (e1, e2, e3, e4, e5, e6, e7, e8, e9, e10, e11, build_runtime, accepted) refl

-- An accepted configuration builds, where the host has a name, the log file opens, the management key
-- is a header value, the mail credentials have no NUL or line break, and the URL does not end in a bare
-- question mark. The runtime has the configuration's channels and interval, and the state and the error
-- that opening the state file gives: an unreadable state file does not stop it.
pub build_runtime-validate :
    {F W : Type 0} (fl : Floats F) (o : Outside W) (c : Settings F) {u : Url} {host : Text}
    → Check.validate fl o.nets c ≡ none
    → o.log_opens (writer_options c) ≡ true
    → o.hostname ≡ some host
    → is_empty host ≡ false
    → Client.valid_header_value c.cliproxy.management_key ≡ true
    → o.nets.parse_url c.cliproxy.base_url ≡ some u
    → u.force_query ≡ false
    → Mailer.contains_credential_control c.smtp.username ≡ false
    → Mailer.contains_credential_control c.smtp.password ≡ false
    → (r : Runtime F W) × (build_runtime fl o c ≡ inr r) × IsFor o c r
build_runtime-validate {F} {W} fl o c {u} {host} h opens named there header parsed bare k l =
    let a = validate-IsAccepted fl o.nets c h in
    let (log, e_log) = log_made o.nets c o.log_opens a.logging opens in
    let (level, e_level) =
      some-value (parse_level c.logging.level) (parse_level-some c a.logging) in
    let (ts, e_ts, held) = transports_made o.nets c a.channels k l in
    let (router, e_router, e_primary, e_fallback) = router_made o c ts held a.alerts in
    let (client, e_client) = made-value _ (client_made o.nets c fl a header parsed bare) in
    let (port, e_port) = port_made o.nets c a.service in
    let (channel, e_channel) = health_sender_made o c ts held a.alerts in
    let (health, e_health) =
      made-value (Healthreport.new_manager (health_options c host))
        (new_manager-made c host a.alerts (base_url_present o.nets c fl a) there) in
    let (runner, e_runner) =
      made-value (Monitor.new_runner fl (runner_options c port))
        (new_runner-made fl c port a.thresholds (service_port-range fl o.nets c e_port)) in
    (
      record {
        log = log;
        level = level;
        router = router;
        client = client;
        alerts = alert_manager c host (opened o c).0;
        health = health;
        health_channel = channel;
        runner = runner;
        interval = c.interval;
        initial_error = (opened o c).1;
      },
      build_runtime_stages fl o c h e_log e_level e_ts e_router e_client e_port named e_channel
          e_health e_runner,
      record {
        primary = e_primary;
        fallback = e_fallback;
        interval = refl;
        state = refl;
        degraded = refl;
      },
    )
