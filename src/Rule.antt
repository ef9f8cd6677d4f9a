-- ===== src/Rule.antt =====
-- Conditions of the monitored scopes: internal/rule/types.go, and the rules of
-- internal/rule/rule.go that look at one fact. Percentages are of a type `F`.
pub mod Disks
pub mod Auth
pub mod Checked
pub mod Mounts
pub mod Accounts
use cpa_monitor.Base.{
  Bool, List, Option, Text, [], decimal, if◌then◌else◌, leb, none, not, put, some, sort, str, true,
  ℕ, ◌%◌, ◌++◌, ◌∷◌,
}
use cpa_monitor.State.{Details}
use cpa_monitor.Collector.{MemoryUsage, DiskUsage, DiskError, TcpUsage}

abbrev pub scope_health : Text
scope_health = str "health"

abbrev pub scope_memory : Text
scope_memory = str "memory"

abbrev pub scope_disk : Text
scope_disk = str "disk"

abbrev pub scope_network : Text
scope_network = str "network"

abbrev pub scope_auth : Text
scope_auth = str "auth"

pub record Condition : Type 0 where
  pub key : Text
  pub scope : Text
  pub summary : Text
  pub current : Text
  pub threshold : Text
  pub details : Details

abbrev pub condition_key : Condition → Text
condition_key c = c.key

-- The entries of `Batch.Errors`.
pub data EntryError : Type 0 where
  missing_auth_index : ℕ → EntryError
  duplicate_auth_index : ℕ → Text → EntryError
  disk_error : DiskError → EntryError
  check_error : Text → EntryError

pub record Batch : Type 0 where
  pub scope : Text
  pub complete : Bool
  pub conditions : List Condition
  pub errors : List EntryError

abbrev pub empty_batch : Text → Batch
empty_batch scope = record { scope = scope; complete = true; conditions = []; errors = [] }

-- float64, as this program uses it: comparisons, `math.IsNaN`, `math.IsInf`, `0`, `100` and
-- `fmt.Sprintf("%.1f%%", x)`.
pub record Floats (F : Type 0) : Type 0 where
  pub ge : F → F → Bool
  pub gt : F → F → Bool
  pub lt : F → F → Bool
  pub le : F → F → Bool
  pub is_nan : F → Bool
  pub is_inf : F → Bool
  pub zero_percent : F
  pub hundred : F
  pub format_percent : F → Text

-- `sortedConditions`.
unfoldable pub sorted_conditions : List Condition → List Condition
sorted_conditions cs = sort condition_key cs

-- `Health`: the argument is the text of the error, or none.
unfoldable pub health : Option Text → Batch
health none = empty_batch scope_health
health (some err) = record {
  scope = scope_health;
  complete = true;
  conditions =
      record {
        key = str "health:cliproxy_down";
        scope = scope_health;
        summary = str "CLIProxyAPI health check failed";
        current = str "down";
        threshold = str "healthy";
        details = (str "error", err) ∷ (str "service", str "CLIProxyAPI") ∷ [];
      }
      ∷ [];
  errors = [];
}

module _ {F : Type 0} (fl : Floats F) where
  open fl use {ge, format_percent}

  unfoldable pub memory_condition : MemoryUsage F → F → Condition
  memory_condition usage threshold =
      let current = format_percent usage.used_percent in
      record {
        key = str "resource:memory";
        scope = scope_memory;
        summary = str "memory usage " ++ current;
        current = current;
        threshold = format_percent threshold;
        details =
            (str "kind", str "memory")
            ∷ (str "total_bytes", decimal usage.total_bytes)
            ∷ (str "available_bytes", decimal usage.available_bytes)
            ∷ (str "used_bytes", decimal usage.used_bytes)
            ∷ (str "used_percent", current)
            ∷ [];
      }

  -- `Memory`.
  unfoldable pub memory : MemoryUsage F → F → Batch
  memory usage threshold =
      if not (ge usage.used_percent threshold) then empty_batch scope_memory else (record {
        scope = scope_memory;
        complete = true;
        conditions = memory_condition usage threshold ∷ [];
        errors = [];
      })

-- `fmt.Sprintf("network:service_port:%d", servicePort)`.
unfoldable pub service_port_key : ℕ → Text
service_port_key port = str "network:service_port:" ++ decimal port

unfoldable pub total_condition : ℕ → ℕ → Condition
total_condition total threshold =
    let current = decimal total in
    record {
      key = str "network:total_tcp";
      scope = scope_network;
      summary = str "total TCP connections " ++ current;
      current = current;
      threshold = decimal threshold;
      details = (str "kind", str "total_tcp") ∷ (str "connections", current) ∷ [];
    }

unfoldable pub service_condition : ℕ → ℕ → ℕ → Condition
service_condition port count threshold =
    let current = decimal count in
    record {
      key = service_port_key port;
      scope = scope_network;
      summary = str "TCP connections on service port " ++ (decimal port ++ (str ": " ++ current));
      current = current;
      threshold = decimal threshold;
      details =
          (str "kind", str "service_port_tcp")
          ∷ (str "service_port", decimal port)
          ∷ (str "connections", current)
          ∷ [];
    }

-- `if b { byKey[c.Key] = c }`.
unfoldable pub put_if : Bool → Condition → List Condition → List Condition
put_if b c cs = if b then put condition_key c cs else cs

-- `TCP`. Counts, ports and thresholds are not negative: the parsers and `NewRunner` see to that.
unfoldable pub tcp : TcpUsage → ℕ → ℕ → ℕ → Batch
tcp usage port total_threshold service_threshold =
    let total = usage.total_connections in
    let service = usage.service_port_connections in
    let first = put_if (leb total_threshold total) (total_condition total total_threshold) [] in
    record {
      scope = scope_network;
      complete = true;
      conditions = sorted_conditions (
          put_if (leb service_threshold service) (service_condition port service service_threshold)
            first);
      errors = [];
    }
