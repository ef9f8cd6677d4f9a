-- ===== src/Tests/Senders.antt =====
-- Theorems on the two senders and on the quota at concrete inputs.
use cpa_monitor.Base.{
  add_int64, int64, pos, All, List, [], arith, char_mem, contains_any_char, decimal, false, find,
  inr, is_blank, is_empty, is_space, leb, length, none, pos_part, refl, some, str, text_eq,
  trim_left, trim_space, true, ℕ, ◌*◌, ◌++◌, ◌-◌, ◌/◌, ◌==◌, ◌∷◌, ◌≡◌, ◌≤◌,
}
use cpa_monitor.State.{Details}
use cpa_monitor.Cliproxy.Quota.{
  weekly, Numbers, WindowWire, UsageWire, CodexQuota, parse_codex_quota, first_of, quota_of,
  codex_windows, add_window, convert_codex_window, converted_percent, is_below_zero, plan_type_of,
  converted_kind, converted_time, converted_length, quota_window_kind, seconds_duration,
  limit_is_reached, bool_value,
}
use cpa_monitor.Cliproxy.Windows.{InRange, parse_codex_quota-InRange}
use cpa_monitor.Notification.Health.{bad_used}
use cpa_monitor.Collector.{TcpUsage}
use cpa_monitor.Cliproxy.{AuthFile}
use cpa_monitor.Healthreport.Content.{IsCounted}
use cpa_monitor.Alerter.Message.{detail_key, format_details}
use cpa_monitor.Monitor
use cpa_monitor.Mailer.Language.{contains_header_control}
use cpa_monitor.Mailer.Reports.{report_error, report_error-none}
use cpa_monitor.Monitor.{
  new_runner, bad_percent, highest_disk, accounts_of, enabled_account_usages, account_usage,
  account_label, account_provider, first_label, sum_success, sum_failed, snapshot,
}
use cpa_monitor.Monitor.Cycle.{succeeded}
use cpa_monitor.Notification.{alert, Event, Batch, known_kind}
use cpa_monitor.Notification.Validity.{IsDeliverable}
use cpa_monitor.Notification.Formats.{Formats}
use cpa_monitor.Healthreport.{Outside, Manager, health_report}
use cpa_monitor.Dingtalk.{DingtalkOptions, DingtalkClient, new_dingtalk, known_language}
use cpa_monitor.Dingtalk.Markdown.{shown_rune, escape_markdown}
use cpa_monitor.Dingtalk.Labels.{parse_event_details}
use cpa_monitor.Dingtalk.Alert.{Payload, alert_payload}
use cpa_monitor.Dingtalk.Health.{health_payload}
use cpa_monitor.Dingtalk.Send.{Attempt, answered, live, integer}
use cpa_monitor.Dingtalk.Escaped.{is_inert, escape_markdown-inert}
use cpa_monitor.Dingtalk.Bounds.{HasSize, alert_payload-HasSize}
use cpa_monitor.Dingtalk.Reports.{health_payload-HasSize}
use cpa_monitor.Dingtalk.Cooling.{requests, paced_requests, requests-paced}
use cpa_monitor.Dingtalk.Details.{parse_event_details-format_details}
use cpa_monitor.Mailer.{Mailer}
use cpa_monitor.Mailer.Exchange.{Server, send}
use cpa_monitor.Mailer.Delivery.{delivery, Ended, send-Ended}
use cpa_monitor.Mailer.Secured.{is_secured, send-is_secured}
use cpa_monitor.Tests.{whole, blank_codec}
use cpa_monitor.Tests.Cycles.{runner, server, disk_facts}

-- Numbers that are whole, and times as their nanoseconds.
abbrev formats : Formats ℕ
formats = record {
  of_int = pos_part;
  eq = λ a b. a == b;
  minus = λ a b. a - b;
  times = λ a b. a * b;
  over = λ a b. a / b;
  round = pos;
  fixed = decimal;
  parse_float = λ t. none;
  utc_seconds = decimal;
  utc_minutes = decimal;
  rfc3339 = decimal;
  beijing_minutes = decimal;
  beijing_clock = decimal;
  beijing_date = λ t. (t, t, t);
}

abbrev robot_options : DingtalkOptions
robot_options = record {
  webhook_token = str "token";
  signing_secret = str "secret";
  language = str "zh-CN";
  timeout = pos 5;
  max_items = pos 1;
  at_user_ids = [];
  at_mobiles = [];
  at_all = true;
}

abbrev robot : DingtalkClient
robot = record {
  token = str "token";
  secret = str "secret";
  language = str "zh-CN";
  max_items = 1;
  at = record { mobiles = []; user_ids = []; at_all = true };
  timeout = 5;
}

robot_accepted : new_dingtalk robot_options ≡ inr robot
unfolding new_dingtalk known_language is_blank trim_space trim_left is_space contains_any_char
    char_mem text_eq str
robot_accepted = refl

abbrev full_disk : Event
full_disk = record {
  kind = alert;
  scope = str "disk";
  object = str "/ used 85%";
  hostname = str "host";
  timestamp = 7;
  key = str "resource:disk:/";
  current = str "85.0%";
  threshold = str "80.0%";
  details = str "mount_point=/";
  base_url = str "http://127.0.0.1";
}

abbrev disk_batch : Batch
disk_batch = record {
  kind = alert;
  scope = str "disk";
  hostname = str "host";
  timestamp = 7;
  events = full_disk ∷ [];
}

disk_batch-IsDeliverable : IsDeliverable disk_batch
unfolding is_blank trim_space trim_left is_space str find known_kind
disk_batch-IsDeliverable = record {
  kind = refl;
  scope = refl;
  hostname = refl;
  timestamp = refl;
  some_event = refl;
  fit = (record { kind = refl; scope = refl; hostname = refl; timestamp = refl; key = refl }, tt);
  distinct = (refl, tt);
}

alert_payload-HasSize_example :
    (p : Payload) × (alert_payload whole formats disk_batch robot.language robot.max_items robot.at
      ≡ inr p)
    × HasSize p
alert_payload-HasSize_example =
    alert_payload-HasSize whole formats robot_options robot disk_batch robot_accepted
      disk_batch-IsDeliverable

abbrev reporter : Manager
reporter = record {
  enabled = true;
  interval = 10;
  retry_interval = 5;
  hostname = str "host";
  base_url = str "url";
}

abbrev silent : Outside ℕ
silent = record {
  now = 7;
  codex_quota = none;
  version_status = none;
  send_health = λ r. none;
  codec = blank_codec;
  write_fails = λ p t. false;
}

reporter_visible : (is_blank reporter.hostname ≡ false) × (is_blank reporter.base_url ≡ false)
unfolding is_blank trim_space trim_left is_space str
reporter_visible = (refl, refl)

abbrev connections : TcpUsage
connections = record { total_connections = 5; service_port_connections = 2 }

-- An account that is in use.
abbrev in_use : AuthFile
in_use = record {
  auth_index = str "0";
  name = str "a";
  kind = [];
  provider = [];
  email = [];
  account = [];
  status = [];
  status_message = [];
  disabled = false;
  unavailable = false;
  success = pos 3;
  failed = pos 1;
  recent_requests = (record { time = []; success = pos 2; failed = pos 0 }) ∷ [];
  id_token = [];
}

in_use-IsCounted : All IsCounted (accounts_of whole runner server (inr (in_use ∷ [])))
unfolding accounts_of enabled_account_usages account_usage account_label first_label is_blank
    trim_space trim_left is_space str sum_success sum_failed add_int64 int64
in_use-IsCounted = ((refl, refl, refl, refl, refl), tt)

health_payload-HasSize_example :
    let s = snapshot whole runner server 10 disk_facts connections (inr (in_use ∷ [])) true in
    (p : Payload) × (health_payload whole formats
        (health_report whole silent reporter s)
        robot.language
        robot.at
      ≡ inr p)
    × HasSize p
unfolding succeeded
health_payload-HasSize_example =
    health_payload-HasSize whole runner server silent reporter formats 10 disk_facts connections
      (inr (in_use ∷ [])) robot_options robot robot_accepted reporter_visible.0 reporter_visible.1
      refl in_use-IsCounted

abbrev runner_options : Monitor.Options ℕ
runner_options = record {
  has_reporter = true;
  service_port = pos 8317;
  memory_percent = 90;
  disk_percent = 80;
  total_tcp_connections = pos 1000;
  service_port_connections = pos 100;
}

runner_accepted : new_runner whole runner_options ≡ inr runner
unfolding new_runner bad_percent
runner_accepted = refl

report_error-none_example :
    let s = snapshot whole runner server 10 disk_facts connections (inr (in_use ∷ [])) true in
    report_error whole (health_report whole silent reporter s) ≡ none
unfolding succeeded contains_header_control str bad_used highest_disk
report_error-none_example =
    report_error-none whole server silent reporter runner_options runner 10 disk_facts connections
      (inr (in_use ∷ [])) (λ a b h. ground (arith, h)) runner_accepted reporter_visible.0 refl
      reporter_visible.1 refl refl refl in_use-IsCounted

-- The robot is rate limited at its first request; a second send follows within the pause.
abbrev limited : Attempt
limited = record {
  context = live;
  now = 7;
  robot = λ p.
      answered 200 20 (some (record { error_code = integer (pos 410100); error_message = [] }));
}

abbrev note : Payload
note = record { title = []; text = []; at = robot.at }

abbrev two_sends : List (Attempt × Payload)
two_sends = (limited, note) ∷ (record limited { now = 8 }, note) ∷ []

requests-paced_example : requests 0 two_sends ≡ paced_requests [] two_sends
requests-paced_example = requests-paced two_sends

escape_markdown-inert_example :
    (is_inert false (escape_markdown (str "a*b<c") ++ str "!") ≡ is_inert false (str "!"))
    × All (λ c. shown_rune c ≡ true) (escape_markdown (str "a*b<c"))
escape_markdown-inert_example = escape_markdown-inert (str "a*b<c") (str "!")

abbrev disk_details : Details
disk_details = (str "mount_point", str "/") ∷ (str "kind", str "disk") ∷ []

parse_event_details-format_details_example :
    find detail_key (str "kind") (parse_event_details (format_details disk_details))
    ≡ find detail_key (str "kind") disk_details
unfolding find is_blank trim_space trim_left is_space text_eq str
parse_event_details-format_details_example =
    parse_event_details-format_details disk_details (str "kind") (refl, (refl, tt))
      ((refl, refl, refl, refl, refl), ((refl, refl, refl, refl, refl), tt))

abbrev numbers : Numbers ℕ
numbers = record {
  parse_float = λ t. none;
  times = λ a b. a * b;
  of_int = pos_part;
  to_int64 = pos;
}

abbrev week : WindowWire ℕ
week = record {
  used_percent = some 40;
  used_percent_camel = none;
  limit_window_seconds = some 604800;
  limit_window_seconds_camel = none;
  reset_after_seconds = none;
  reset_after_seconds_camel = none;
  reset_at = none;
  reset_at_camel = none;
}

abbrev usage : UsageWire ℕ
usage = record {
  plan_type = str "plus";
  plan_type_camel = [];
  rate_limit = some (record {
    allowed = some true;
    limit_reached = none;
    limit_reached_camel = none;
    primary_window = some week;
    primary_window_camel = none;
    secondary_window = none;
    secondary_window_camel = none;
  });
  rate_limit_camel = none;
}

-- The quota that is read from this response.
abbrev quota : CodexQuota ℕ
quota = record {
  plan_type = str "plus";
  windows =
      record {
        kind = weekly;
        used_percent = some 40;
        reset_at = 0;
        reset_after = pos 0;
        window_length = pos 604800000000000;
      }
      ∷ [];
}

usage_read : parse_codex_quota whole numbers (some usage) ≡ inr quota
unfolding parse_codex_quota first_of quota_of codex_windows add_window convert_codex_window
    converted_percent is_below_zero plan_type_of converted_kind converted_time converted_length
    quota_window_kind seconds_duration limit_is_reached bool_value is_blank trim_space trim_left
    is_space str
usage_read = refl

parse_codex_quota-InRange_example :
    (is_empty quota.windows ≡ false) × (length quota.windows ≤ 2) × InRange whole quota.windows
unfolding bad_used
parse_codex_quota-InRange_example =
    parse_codex_quota-InRange whole numbers usage quota refl ((refl, refl), tt, tt, tt) tt
      usage_read

abbrev mail_box : Mailer
mail_box = record {
  options = record {
    host = str "mail";
    port = pos 587;
    language = str "en";
    username = str "user";
    password = str "word";
    from = str "a@b";
    to = str "c@d" ∷ [];
    start_tls = true;
    direct_tls = false;
    timeout = pos 5;
  };
  from_address = str "a@b";
  recipients = str "c@d" ∷ [];
}

-- The server refuses TLS, or nothing at all.
abbrev no_tls : Server
no_tls = λ log x. leb 4 (length log)

abbrev willing : Server
willing = λ log x. false

send-is_secured_example : is_secured no_tls (send no_tls mail_box (str "hello")).log ≡ true
send-is_secured_example = send-is_secured no_tls mail_box (str "hello")

send-Ended_example :
    Ended no_tls (delivery mail_box (str "hello")) [] (send no_tls mail_box (str "hello"))
send-Ended_example = send-Ended no_tls mail_box (str "hello")
