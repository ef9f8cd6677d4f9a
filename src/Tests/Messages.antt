-- ===== src/Tests/Messages.antt =====
-- Theorems on the messages at concrete inputs.
use cpa_monitor.Base.{All, [], none, str, ◌↔◌, ◌∷◌, ◌≡◌}
use cpa_monitor.Notification.{alert, Event, Batch, validate_batch}
use cpa_monitor.Notification.Validity.{IsDeliverable, validate_batch-IsDeliverable}
use cpa_monitor.Alerter.Message.{header_safe, header_safe-IsPrintable, IsPrintable}

abbrev event : Event
event = record {
  kind = alert;
  scope = str "memory";
  object = [];
  hostname = str "host";
  timestamp = 7;
  key = str "resource:memory";
  current = [];
  threshold = [];
  details = [];
  base_url = [];
}

-- The same event twice.
abbrev batch : Batch
batch = record {
  kind = alert;
  scope = str "memory";
  hostname = str "host";
  timestamp = 7;
  events = event ∷ event ∷ [];
}

validate_batch-IsDeliverable_example : (validate_batch batch ≡ none) ↔ IsDeliverable batch
validate_batch-IsDeliverable_example = validate_batch-IsDeliverable batch

header_safe-IsPrintable_example : All IsPrintable (header_safe (65 ∷ 10 ∷ 66 ∷ []))
header_safe-IsPrintable_example = header_safe-IsPrintable (65 ∷ 10 ∷ 66 ∷ [])
