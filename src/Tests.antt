-- ===== src/Tests.antt =====
-- The theorems applied to concrete inputs: the data that the modules below share.
mod Alerts
mod Cycles
mod Files
mod Hosts
mod Logs
mod Messages
mod Senders
mod Start
use cpa_monitor.Base.{[], decimal, false, leb, ltb, none, some, str, true, ℕ, ◌∷◌}
use cpa_monitor.State.{Document, File, Record, HealthReportState, new, no_health}
use cpa_monitor.State.Persist.{Codec, malformed}
use cpa_monitor.Rule.{Batch, Floats, health, scope_memory}
use cpa_monitor.Alerter.{Outside, Manager}

-- Percentages as whole numbers.
abbrev pub whole : Floats ℕ
whole = record {
  ge = λ a b. leb b a;
  gt = λ a b. ltb b a;
  lt = ltb;
  le = leb;
  is_nan = λ a. false;
  is_inf = λ a. false;
  zero_percent = 0;
  hundred = 100;
  format_percent = decimal;
}

abbrev pub blank_codec : Codec
blank_codec = record { encode = λ d. some []; decode = λ t. malformed }

abbrev pub world : Outside
world = record {
  send = λ l b. none;
  now = λ l. 7;
  codec = blank_codec;
  write_fails = λ l p t. false;
}

abbrev pub desk : Manager
desk = record {
  hostname = str "host";
  base_url = str "url";
  send_recovery = true;
  store = new (str "state");
  dirty = true;
}

abbrev pub down : Batch
down = health (some (str "refused"))

abbrev pub full_memory : Record
full_memory = record {
  key = str "resource:memory";
  scope = scope_memory;
  summary = [];
  current = [];
  threshold = [];
  details = [];
  activated_at = 3;
}

abbrev pub one_record : File
one_record = record { path = str "state"; records = full_memory ∷ []; health = no_health }

abbrev pub busy : Manager
busy = record desk { store = one_record }

abbrev pub unknown : Batch
unknown = record { scope = scope_memory; complete = false; conditions = []; errors = [] }
