-- ===== src/Notification.antt =====
-- Transport-neutral messages: internal/notification/types.go. Percentages are of a type `F`.
pub mod Router
pub mod Health
pub mod Validity
pub mod Formats
use cpa_monitor.Base.{
  Bool, List, Option, Text, [], false, if◌then◌else◌, is_blank, is_empty, none, not, some, suc,
  text_eq, text_mem, true, ℕ, ◌==◌, ◌∷◌,
}
use cpa_monitor.State.{Time, is_zero}

-- `Kind`, a string: `Alert`, `Recovery`, or any other one.
pub data Kind : Type 0 where
  alert recovery : Kind
  other_kind : Text → Kind

unfoldable pub same_kind : Kind → Kind → Bool
same_kind alert alert = true
same_kind recovery recovery = true
same_kind (other_kind a) (other_kind b) = text_eq a b
same_kind _ _ = false

-- `kind == Alert || kind == Recovery`.
unfoldable pub known_kind : Kind → Bool
known_kind alert = true
known_kind recovery = true
known_kind (other_kind k) = false

pub record Event : Type 0 where
  pub kind : Kind
  pub scope : Text
  pub object : Text
  pub hostname : Text
  pub timestamp : Time
  pub key : Text
  pub current : Text
  pub threshold : Text
  pub details : Text
  pub base_url : Text

pub record Batch : Type 0 where
  pub kind : Kind
  pub scope : Text
  pub hostname : Text
  pub timestamp : Time
  pub events : List Event

pub data BatchError : Type 0 where
  unknown_kind : Kind → BatchError
  scope_required hostname_required timestamp_required events_required : BatchError
  kind_mismatch scope_mismatch hostname_mismatch timestamp_mismatch event_key_required :
      ℕ → BatchError
  duplicate_event_key : Text → BatchError

-- The tests on one event, the `i`-th from 1, before its key is looked up in `seen`.
unfoldable pub event_error : Batch → ℕ → Event → Option BatchError
event_error b i e =
    if not (same_kind e.kind b.kind)
    then some (kind_mismatch i)
    else if not (text_eq e.scope b.scope)
    then some (scope_mismatch i)
    else if not (text_eq e.hostname b.hostname)
    then some (hostname_mismatch i)
    else if not (e.timestamp == b.timestamp)
    then some (timestamp_mismatch i)
    else if is_blank e.key
    then some (event_key_required i)
    else none

-- The loop of `ValidateBatch`: the next position, and the keys seen.
unfoldable pub events_error : Batch → ℕ → List Text → List Event → Option BatchError
events_error b i seen [] = none
events_error b i seen (e ∷ es) =
    let rest = events_error b (suc i) (e.key ∷ seen) es in
    elim (event_error b i e) [
      | some err ↦ some err
      | none ↦ if text_mem e.key seen then some (duplicate_event_key e.key) else rest
    ]

-- `ValidateBatch`.
unfoldable pub validate_batch : Batch → Option BatchError
validate_batch b =
    if not (known_kind b.kind)
    then some (unknown_kind b.kind)
    else if is_blank b.scope
    then some scope_required
    else if is_blank b.hostname
    then some hostname_required
    else if is_zero b.timestamp
    then some timestamp_required
    else if is_empty b.events
    then some events_required
    else events_error b 1 [] b.events
