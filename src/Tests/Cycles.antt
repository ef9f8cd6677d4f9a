-- ===== src/Tests/Cycles.antt =====
-- Theorems on the monitor cycle, the daemon and the health report at concrete inputs.
use cpa_monitor.Base.{
  pos, All, Bool, List, Option, Text, [], arith, false, find, if◌then◌else◌, inl, inr, is_blank,
  is_blank-cons, is_empty, is_none, is_some, is_space, leb, none, refl, some, str, suc, true, ℕ,
  ◌&&◌, ◌++◌, ◌+◌, ◌||◌, ◌∷◌, ◌≡◌, ◌⊎◌,
}
use cpa_monitor.State.{File, Time, is_zero, new, validate_health_report_state}
use cpa_monitor.Collector.{DiskBatch}
use cpa_monitor.Cliproxy.{Decoders}
use cpa_monitor.Cliproxy
use cpa_monitor.Rule.Auth.{auth}
use cpa_monitor.Rule.Disks.{disks}
use cpa_monitor.Rule.Mounts.{disks-IsWellFormed}
use cpa_monitor.Rule.Checked.{IsWellFormed, auth-IsWellFormed}
use cpa_monitor.Rule.{condition_key}
use cpa_monitor.Rule.Auth.{auth_key}
use cpa_monitor.Rule.Accounts.{accounts_at, reported_account, auth-find}
use cpa_monitor.Monitor.{Runner, World, Run, HealthSnapshot}
use cpa_monitor.Monitor
use cpa_monitor.Monitor.Cycle.{run_once}
use cpa_monitor.Monitor.Trace.{Sound}
use cpa_monitor.Monitor.Stages.{IsInterrupted, IsFinished}
use cpa_monitor.Monitor.Verdict.{run_once_lem}
use cpa_monitor.Monitor.Loop.{
  Round, ticked, ticker_closed, run_daemon, further_cycles, last_round, end_of, run_daemon_lem,
}
use cpa_monitor.Notification.Health.{HealthReport, validate_account_usage, validate_version_info}
use cpa_monitor.Healthreport
use cpa_monitor.Healthreport.{health_report, report_healthy, due}
use cpa_monitor.Healthreport.Schedule.{report_healthy-next, report_healthy-store}
use cpa_monitor.Healthreport.Content.{health_report-valid}
use cpa_monitor.Tests.{whole, blank_codec}

abbrev pub decoders : Decoders
decoders = record { unquote = λ t. none; raw_url = λ t. none; claims = λ t. none }

abbrev pub runner : Runner ℕ
runner = record {
  has_reporter = true;
  service_port = 8317;
  memory_percent = 90;
  disk_percent = 80;
  total_tcp_connections = 1000;
  service_port_connections = 100;
}

-- One disk is over its threshold; the context never ends.
abbrev pub disk_facts : DiskBatch ℕ
disk_facts = record {
  disks =
      record {
        mount_point = str "/";
        filesystem_type = str "ext4";
        total_bytes = 100;
        used_bytes = 85;
        used_percent = 85;
      }
      ∷ [];
  complete = true;
  errors = [];
}

abbrev pub server : World ℕ
server = record {
  stopped = λ l. false;
  health = λ l. none;
  memory = λ l.
      inr (record { total_bytes = 10; available_bytes = 9; used_bytes = 1; used_percent = 10 });
  disks = λ l. (disk_facts, none);
  tcp = λ l p. inr (record { total_connections = 5; service_port_connections = 2 });
  auth_files = λ l. inl (str "refused");
  reconcile = λ l b. none;
  report = λ l s. none;
  decoders = decoders;
}

run_once_lem_example :
    let (errors, log) = run_once whole runner server in
    let r : Run ℕ = record { errors = errors; log = log } in
    All Sound log × (IsInterrupted whole runner server r ⊎ IsFinished whole runner server r)
run_once_lem_example = run_once_lem whole runner server

-- Two entries with one index, the second one unavailable.
abbrev account : Text → Bool → Cliproxy.AuthFile
account index unavailable = record {
  auth_index = index;
  name = str "a";
  kind = str "codex";
  provider = str "codex";
  email = [];
  account = [];
  status = str "active";
  status_message = [];
  disabled = false;
  unavailable = unavailable;
  success = pos 1;
  failed = pos 0;
  recent_requests = [];
  id_token = [];
}

abbrev files : List Cliproxy.AuthFile
files = account (str "1") false ∷ account (str " 1") true ∷ account (str "2") true ∷ []

auth-IsWellFormed_example : IsWellFormed (auth files)
auth-IsWellFormed_example = auth-IsWellFormed files

-- A mount that stands in the table twice.
disks-IsWellFormed_example :
    IsWellFormed
      (disks whole (record disk_facts { disks = disk_facts.disks ++ disk_facts.disks }) 80)
disks-IsWellFormed_example =
    disks-IsWellFormed whole (record disk_facts { disks = disk_facts.disks ++ disk_facts.disks }) 80

two_visible : is_empty (str "2") ≡ false
unfolding str
two_visible = refl

auth-find_example :
    find condition_key (auth_key (str "2")) (auth files).conditions
    ≡ reported_account (accounts_at (str "2") files)
auth-find_example = auth-find (str "2") files two_visible

abbrev tick : Round
tick = record { stopped_before = false; wake = ticked; stopped_after = false }

abbrev broken : Round
broken = record { stopped_before = false; wake = ticker_closed; stopped_after = false }

run_daemon_lem_example : run_daemon (pos (suc 59)) false (tick ∷ tick ∷ broken ∷ []) ≡ (
  suc (further_cycles (tick ∷ tick ∷ broken ∷ [])),
  end_of (last_round (tick ∷ tick ∷ broken ∷ [])),
)
run_daemon_lem_example = run_daemon_lem 59 (tick ∷ tick ∷ broken ∷ [])

abbrev usage : Monitor.AccountUsage
usage = record {
  auth_index = str "1";
  account_id = [];
  label = str "a";
  provider = str "codex";
  success = pos 4;
  failed = pos 1;
  recent_success = pos 2;
  recent_failed = pos 0;
}

abbrev facts : HealthSnapshot ℕ
facts = record {
  memory_used_percent = 10;
  memory_threshold = 90;
  highest_disk_used_percent = 20;
  disk_mount_count = 1;
  disk_threshold = 80;
  total_tcp_connections = 5;
  total_tcp_threshold = 1000;
  service_port = 8317;
  service_port_connections = 2;
  service_port_threshold = 100;
  account_usage_available = true;
  account_count = 1;
  enabled_account_count = 1;
  account_usages = usage ∷ [];
}

-- The sender fails at the instant 100, and works later.
abbrev at : Time → Option Text → Healthreport.Outside ℕ
at t answer = record {
  now = t;
  codex_quota = none;
  version_status = none;
  send_health = λ r. answer;
  codec = blank_codec;
  write_fails = λ p t. false;
}

abbrev manager : Healthreport.Manager
manager = record {
  enabled = true;
  interval = 1000;
  retry_interval = 50;
  hostname = str "host";
  base_url = str "url";
}

abbrev store : File
store = new (str "state")

due_now : due store.health 100 1000 50 ≡ true
unfolding due new
due_now = refl

store_checked : validate_health_report_state store.health ≡ none
unfolding validate_health_report_state new
store_checked = refl

report_healthy-next_example :
    is_some
      (report_healthy whole
        (at 150 none)
        manager
        (report_healthy whole (at 100 (some [])) manager store facts).store
        facts).message
    ≡ (if is_none
          ((at 100 (some [])).send_health (health_report whole (at 100 (some [])) manager facts))
        then leb (100 + 1000) 150
        else leb (100 + 50) 150
          && (is_zero store.health.last_sent_at || leb (store.health.last_sent_at + 1000) 150))
report_healthy-next_example =
    report_healthy-next whole (at 100 (some [])) (at 150 none) manager store facts facts
      (omega arith) (omega arith) refl due_now

report_healthy-store_example :
    let out = report_healthy whole (at 100 (some [])) manager store facts in
    (validate_health_report_state out.store.health ≡ none)
    × ((r : HealthReport ℕ) (answer : Option Text)
        → out.message ≡ some (r, answer)
        → out.store ≡ record store {
          health = record {
            last_attempt_at = 100;
            last_sent_at = if is_none answer then 100 else store.health.last_sent_at;
          };
        })
    × (out.message ≡ none → out.store ≡ store)
report_healthy-store_example =
    report_healthy-store whole (at 100 (some [])) manager store facts (omega arith) store_checked

usage_labelled : is_blank usage.label ≡ false
unfolding str is_space
usage_labelled = is_blank-cons _ _ refl

health_report-valid_example :
    let r = health_report whole (at 100 none) manager facts in
    (validate_version_info r ≡ none)
    × All (λ u. validate_account_usage whole u ≡ none) r.account_usages
health_report-valid_example =
    health_report-valid whole (at 100 none) manager facts
      ((usage_labelled, refl, refl, refl, refl), tt)
