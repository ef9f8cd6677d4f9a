-- ===== src/App/Build.antt =====
-- `buildAlertRouter` and `buildRuntime` of internal/app/runtime.go.
use cpa_monitor.Base.{
  List, Option, Text, false, if◌then◌else◌, inl, inr, is_empty, none, some, ℤ, ◌⊎◌,
}
use cpa_monitor.Rule.{Floats}
use cpa_monitor.Config.{Settings, health_report_channel}
use cpa_monitor.Config.Check.{validate, service_port}
use cpa_monitor.Logfile.{WriterOptions, Level, parse_level}
use cpa_monitor.Cliproxy.Client.{Client, new_client}
use cpa_monitor.Notification.Router.{NamedSender, Router, RouterError, new_router}
use cpa_monitor.State.{File, StateError}
use cpa_monitor.State.Persist.{open_file}
use cpa_monitor.Alerter
use cpa_monitor.Healthreport
use cpa_monitor.Monitor
use cpa_monitor.App.{
  Outside, Channel, BuildError, ◌>>=◌, wrapped, required, build_log, build_transports, channel_at,
  health_options, runner_options, bad_config, bad_level, bad_router, bad_client, no_service_port,
  no_hostname, no_health_sender, bad_health, bad_runner,
}

-- `Runtime`, with the parts that its runner is built from. The store is that of the alert manager.
pub record Runtime (F W : Type 0) : Type 0 where
  pub log : Option WriterOptions
  pub level : Level
  pub router : Router W
  pub client : Client
  pub alerts : Alerter.Manager
  pub health : Healthreport.Manager
  pub health_channel : Channel
  pub runner : Monitor.Runner F
  pub interval : ℤ
  pub initial_error : Option StateError

abbrev pub named_sender : {W : Type 0} → Outside W → List (Text × Channel) → Text → NamedSender W
named_sender o transports name = record {
  name = name;
  sender = elim (channel_at name transports) [ none ↦ none | some x ↦ some (o.alert_sender x) ];
}

unfoldable pub router_or_error : {W : Type 0} → Router W ⊎ RouterError → BuildError ⊎ Router W
router_or_error (inl r) = inr r
router_or_error (inr e) = inl (bad_router e)

-- `buildAlertRouter`.
unfoldable pub build_alert_router :
    {F W : Type 0} → Outside W → Settings F → List (Text × Channel) → BuildError ⊎ Router W
build_alert_router o c transports = router_or_error (
    new_router (named_sender o transports c.alerts.primary_channel) (
      if is_empty c.alerts.fallback_channel
      then none
      else some (named_sender o transports c.alerts.fallback_channel)))

-- The channel of the health reports, or else that of the alerts.
unfoldable pub health_sender : {F : Type 0} → Settings F → List (Text × Channel) → Option Channel
health_sender c transports = elim (channel_at (health_report_channel c) transports) [
  | none ↦ channel_at c.alerts.primary_channel transports
  | some x ↦ some x
]

-- `NewManager` of the alerts.
abbrev pub alert_manager : {F : Type 0} → Settings F → Text → File → Alerter.Manager
alert_manager c hostname store = record {
  hostname = hostname;
  base_url = c.cliproxy.base_url;
  send_recovery = c.alerts.send_recovery;
  store = store;
  dirty = false;
}

abbrev pub accepted : {F W : Type 0} → Floats F → Outside W → Settings F → BuildError ⊎ Settings F
accepted fl o c = elim (validate fl o.nets c) [ some e ↦ inl (bad_config e) | none ↦ inr c ]

-- `buildRuntime`.
unfoldable pub build_runtime :
    {F W : Type 0} → Floats F → Outside W → Settings F → BuildError ⊎ Runtime F W
build_runtime fl o c = do
  _ ← accepted fl o c
  log ← build_log o.log_opens c
  level ← required bad_level (parse_level c.logging.level)
  transports ← build_transports o.nets c
  router ← build_alert_router o c transports
  client ←
      wrapped bad_client
        (new_client o.nets c.cliproxy.base_url c.cliproxy.management_key c.cliproxy.timeout)
  port ← required no_service_port (service_port o.nets c)
  hostname ← required no_hostname o.hostname
  channel ← required no_health_sender (health_sender c transports)
  health ← wrapped bad_health (Healthreport.new_manager (health_options c hostname))
  runner ← wrapped bad_runner (Monitor.new_runner fl (runner_options c port))
  inr (record {
    log = log;
    level = level;
    router = router;
    client = client;
    alerts =
        alert_manager c hostname
          (open_file o.codec c.alerts.state_file (o.state_reading c.alerts.state_file)).0;
    health = health;
    health_channel = channel;
    runner = runner;
    interval = c.interval;
    initial_error = (open_file o.codec c.alerts.state_file (o.state_reading c.alerts.state_file)).1;
  })
