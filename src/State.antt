-- ===== src/State.antt =====
-- The alert state file: internal/state/file.go. Values of the model are immutable, so Go's
-- `cloneRecord`, which guards a shared map against later writes, is the identity here; the locks
-- make each operation one step.
pub mod View
pub mod Atomic
pub mod Persist
use cpa_monitor.Base.{
  ℕ, Text, str, ◌≡◌, Bool, true, false, not, ◌&&◌, ◌||◌, Option, none, some, List, [], ◌∷◌, ltb,
  ◌==◌, if◌then◌else◌, text_eq, is_empty, find, put, remove, sort, has, keep,
}

-- `time.Time`, as nanoseconds after Go's zero instant, which is 0.
abbrev pub Time : Type 0
Time = ℕ

abbrev pub is_zero : Time → Bool
is_zero t = t == 0

abbrev pub schema_version : ℕ
schema_version = 2

-- `map[string]string`; the nil map is empty.
abbrev pub Details : Type 0
Details = List (Text × Text)

pub record Record : Type 0 where
  pub key : Text
  pub scope : Text
  pub summary : Text
  pub current : Text
  pub threshold : Text
  pub details : Details
  pub activated_at : Time

pub record HealthReportState : Type 0 where
  pub last_attempt_at : Time
  pub last_sent_at : Time

pub record Document : Type 0 where
  pub version : ℕ
  pub active : List Record
  pub health_report : Option HealthReportState

pub data StateError : Type 0 where
  key_required scope_required attempt_required attempt_before_sent : StateError
  read_failed secure_failed close_failed decode_failed trailing_value trailing_data : StateError
  duplicate_key encode_failed save_failed : StateError
  unsupported_version : ℕ → StateError
  invalid_record invalid_health : StateError → StateError

-- `records` is the map, by the key of each record.
pub record File : Type 0 where
  pub path : Text
  pub records : List Record
  pub health : HealthReportState

abbrev pub record_key : Record → Text
record_key r = r.key

abbrev pub no_health : HealthReportState
no_health = record { last_attempt_at = 0; last_sent_at = 0 }

unfoldable pub new : Text → File
new path = record { path = path; records = []; health = no_health }

unfoldable pub validate_record : Record → Option StateError
validate_record r =
    if is_empty r.key
    then some key_required
    else if is_empty r.scope
    then some scope_required
    else none

unfoldable pub validate_health_report_state : HealthReportState → Option StateError
validate_health_report_state v =
    if not (is_zero v.last_sent_at) && is_zero v.last_attempt_at
    then some attempt_required
    else if not (is_zero v.last_attempt_at) && ltb v.last_attempt_at v.last_sent_at
    then some attempt_before_sent
    else none

unfoldable pub get : Text → File → Option Record
get k f = find record_key k f.records

unfoldable pub by_scope : Text → File → List Record
by_scope scope f = sort record_key (keep (λ r. text_eq r.scope scope) f.records)

-- The new file, and the error.
unfoldable pub put_record : Record → File → File × Option StateError
put_record r f = elim (validate_record r) [
  | none ↦ (record f { records = put record_key r f.records }, none)
  | some e ↦ (f, some e)
]

-- The new file, and whether the key was there.
unfoldable pub delete : Text → File → File × Bool
delete k f =
    if has record_key k f.records
    then (record f { records = remove record_key k f.records }, true)
    else (f, false)

unfoldable pub set_health_report : HealthReportState → File → File × Option StateError
set_health_report v f = elim (validate_health_report_state v) [
  | none ↦ (record f { health = v }, none)
  | some e ↦ (f, some e)
]

-- The value that `Save` encodes.
unfoldable pub document : File → Document
document f = record {
  version = schema_version;
  active = sort record_key f.records;
  health_report =
      if not (is_zero f.health.last_attempt_at) || not (is_zero f.health.last_sent_at)
      then some f.health
      else none;
}
