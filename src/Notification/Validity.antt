-- ===== src/Notification/Validity.antt =====
-- What it takes for `ValidateBatch` to accept a batch.
use cpa_monitor.Base.{
  All, Distinct, Fresh, Fresh-cons, Fresh-nil, Fresh-uncons, List, Text, [], arith, false, is_blank,
  is_empty, none, refl, suc, text_eq_iff, ap, true, text_mem, ℕ, ◌↔◌, ◌∷◌, ◌≡◌,
}
use cpa_monitor.State.{is_zero}
use cpa_monitor.Notification.{
  Event, Batch, Kind, alert, recovery, other_kind, same_kind, known_kind, event_error, events_error,
  validate_batch,
}

abbrev pub event_key : Event → Text
event_key e = e.key

-- The event repeats the batch's kind, scope, host and time, and its key is not blank.
pub record Fits (b : Batch) (e : Event) : Type 0 where
  pub kind : e.kind ≡ b.kind
  pub scope : e.scope ≡ b.scope
  pub hostname : e.hostname ≡ b.hostname
  pub timestamp : e.timestamp ≡ b.timestamp
  pub key : is_blank e.key ≡ false

pub record IsDeliverable (b : Batch) : Type 0 where
  pub kind : known_kind b.kind ≡ true
  pub scope : is_blank b.scope ≡ false
  pub hostname : is_blank b.hostname ≡ false
  pub timestamp : is_zero b.timestamp ≡ false
  pub some_event : is_empty b.events ≡ false
  pub fit : All (Fits b) b.events
  pub distinct : Distinct event_key b.events

same_kind_iff : (k l : Kind) → (same_kind k l ≡ true) ↔ (k ≡ l)
unfolding same_kind
same_kind_iff alert alert = ((λ h. refl), (λ h. refl))
same_kind_iff alert recovery = ((λ h. cc), (λ h. cc))
same_kind_iff alert (other_kind b) = ((λ h. cc), (λ h. cc))
same_kind_iff recovery alert = ((λ h. cc), (λ h. cc))
same_kind_iff recovery recovery = ((λ h. refl), (λ h. refl))
same_kind_iff recovery (other_kind b) = ((λ h. cc), (λ h. cc))
same_kind_iff (other_kind a) alert = ((λ h. cc), (λ h. cc))
same_kind_iff (other_kind a) recovery = ((λ h. cc), (λ h. cc))
same_kind_iff (other_kind a) (other_kind b) =
    let (same, refold) = text_eq_iff a b in ((λ h. ap other_kind (same h)), (λ h. refold (cc h)))

event_error-Fits : (b : Batch) (i : ℕ) (e : Event) → Fits b e → event_error b i e ≡ none
unfolding event_error
event_error-Fits b i e f = ground (
  arith,
  same_kind_iff e.kind b.kind,
  text_eq_iff e.scope b.scope,
  text_eq_iff e.hostname b.hostname,
)

Fits-event_error : (b : Batch) (i : ℕ) (e : Event) → event_error b i e ≡ none → Fits b e
unfolding event_error
Fits-event_error b i e h = ground (
  arith,
  same_kind_iff e.kind b.kind,
  text_eq_iff e.scope b.scope,
  text_eq_iff e.hostname b.hostname,
)

events_error-none :
    (b : Batch) (i : ℕ) (seen : List Text) (es : List Event)
    → All (Fits b) es
    → Distinct event_key es
    → Fresh event_key seen es
    → events_error b i seen es ≡ none
unfolding events_error
events_error-none b i seen [] a d f = refl
events_error-none b i seen (e ∷ es) a d f =
    rw (event_error-Fits b i e a.0, f.0, events_error)
      (events_error-none b (suc i) (e.key ∷ seen) es a.1 d.1
        (Fresh-cons event_key e.key seen es d.0 f.1))

none-events_error :
    (b : Batch) (i : ℕ) (seen : List Text) (es : List Event)
    → events_error b i seen es ≡ none
    → All (Fits b) es × Distinct event_key es × Fresh event_key seen es
unfolding events_error
none-events_error b i seen [] h = (tt, tt, tt)
none-events_error b i seen (e ∷ es) h =
    let fit : event_error b i e ≡ none = ground arith in
    let new_key : text_mem e.key seen ≡ false = ground arith in
    let rest = none-events_error b (suc i) (e.key ∷ seen) es (ground arith) in
    let fresh = Fresh-uncons event_key e.key seen es rest.2 in
    ((Fits-event_error b i e fit, rest.0), (fresh.0, rest.1), (new_key, fresh.1))

-- `ValidateBatch` accepts a batch exactly when its kind is ALERT or RECOVERY, its scope, host and time are set, it has an event,
-- every event repeats the batch's kind, scope, host and time and has a key, and no key stands twice.
pub validate_batch-IsDeliverable : (b : Batch) → (validate_batch b ≡ none) ↔ IsDeliverable b
validate_batch-IsDeliverable b = (accepted, deliverable)
  where
    accepted : validate_batch b ≡ none → IsDeliverable b
    accepted h =
        let es : events_error b 1 [] b.events ≡ none = unfold validate_batch in ground arith in
        let (a, d, f) = none-events_error b 1 [] b.events es in
        record {
          kind = unfold validate_batch in ground arith;
          scope = unfold validate_batch in ground arith;
          hostname = unfold validate_batch in ground arith;
          timestamp = unfold validate_batch in ground arith;
          some_event = unfold validate_batch in ground arith;
          fit = a;
          distinct = d;
        }

    deliverable : IsDeliverable b → validate_batch b ≡ none
    deliverable v =
        unfold validate_batch in
        rw (v.kind, v.scope, v.hostname, v.timestamp, v.some_event)
          (events_error-none b 1 [] b.events v.fit v.distinct (Fresh-nil event_key b.events))
