-- ===== src/Mailer/Batch.antt =====
-- `SendBatch` and `Send` of internal/mailer/smtp.go: one mail for a batch.
use cpa_monitor.Base.{
  Bool, List, Option, Text, [], decimal, if◌then◌else◌, inl, inr, is_empty, join, length, none,
  some, str, ◌++◌, ◌∷◌, ◌⊎◌,
}
use cpa_monitor.Config.Url.{Nets}
use cpa_monitor.Notification.{Event, Batch, validate_batch}
use cpa_monitor.Notification.Formats.{Formats}
use cpa_monitor.Mailer.{Mailer}
use cpa_monitor.Mailer.Language.{is_recovery}
use cpa_monitor.Mailer.Exchange.{Server, Session, send}
use cpa_monitor.Mailer.Message.{
  Mime, Randoms, MailError, nil_context, batch_refused, label, build_message,
}

-- What `batchSummaryEvent` writes of one event.
unfoldable pub event_summary : Event → Text
event_summary e =
    str "["
    ++ e.key
    ++ str "] "
    ++ e.object
    ++ 10 ∷ str "current="
    ++ e.current
    ++ 10 ∷ str "threshold="
    ++ e.threshold
    ++ (if is_empty e.details then [] else 10 ∷ e.details)

unfoldable pub event_summaries : List Event → List Text
event_summaries [] = []
event_summaries (e ∷ es) = event_summary e ∷ event_summaries es

unfoldable pub summary_current : Batch → Text → Text
summary_current b language =
    let count = decimal (length b.events) in
    if is_recovery b.kind
    then label language (count ++ str " 项已恢复") (count ++ str " recovered conditions")
    else label language (count ++ str " 项活动告警") (count ++ str " active conditions")

-- `batchSummaryEvent`, with the base URL of the first event.
unfoldable pub batch_summary_event : Batch → Text → Text → Event
batch_summary_event b base_url language =
    let count = decimal (length b.events) in
    record {
      kind = b.kind;
      scope = b.scope;
      object =
          label language (b.scope ++ str "（" ++ count ++ str " 项）")
            (b.scope ++ str " (" ++ count ++ str " conditions)");
      hostname = b.hostname;
      timestamp = b.timestamp;
      key = b.scope ++ str ":batch";
      current = summary_current b language;
      threshold = label language (str "多个阈值") (str "multiple thresholds");
      details = join (10 ∷ 10 ∷ []) (event_summaries b.events);
      base_url = base_url;
    }

-- The one event that a mail is about; there is none for an empty batch.
unfoldable pub mailed_event : Batch → List Event → Text → Option Event
mailed_event b [] language = none
mailed_event b (e ∷ []) language = some e
mailed_event b (e ∷ f ∷ es) language = some (batch_summary_event b e.base_url language)

module _ {F : Type 0} (fm : Formats F) (n : Nets) (mime : Mime) (random : Option Randoms) where
  -- `send`, once the message is there.
  unfoldable pub send_built : Server → Mailer → MailError ⊎ Text → MailError ⊎ Session
  send_built fails m (inl e) = inl e
  send_built fails m (inr message) = inr (send fails m message)

  -- `Send`, for a context that is not nil.
  unfoldable pub send_event : Server → Mailer → Event → MailError ⊎ Session
  send_event fails m e =
      send_built fails m
        (build_message fm n mime random m.options.from m.options.to e m.options.language)

  -- `SendBatch`, for a context that is nil or not. An accepted batch has an event.
  unfoldable pub send_batch : Bool → Server → Mailer → Batch → Option (MailError ⊎ Session)
  send_batch nil fails m b = if nil then some (inl nil_context) else elim (validate_batch b) [
    | some e ↦ some (inl (batch_refused e))
    | none ↦ elim (mailed_event b b.events m.options.language) [
      | none ↦ none
      | some e ↦ some (send_event fails m e)
    ]
  ]
