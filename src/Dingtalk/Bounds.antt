-- ===== src/Dingtalk/Bounds.antt =====
-- The sizes of the messages of internal/dingtalk/message.go, and when there is one.
use cpa_monitor.Base.{
  Bool-cases, List, Text, [], arith, false, inl, inr, length, length-append, none, str, suc, take,
  true, zero, ℕ, ◌-◌, ◌==◌, ◌∷◌, ◌≡◌, ◌≤◌,
}
use cpa_monitor.Notification.Validity.{IsDeliverable, validate_batch-IsDeliverable}
use cpa_monitor.Notification.Health.{HealthReport}
use cpa_monitor.Dingtalk.Health.{report_refusal, health_payload, health_title, health_text}
use cpa_monitor.Rule.{Floats}
use cpa_monitor.Notification.{Batch, validate_batch}
use cpa_monitor.Notification.Formats.{Formats}
use cpa_monitor.Dingtalk.{DingtalkOptions, DingtalkClient, AtContent, known_language, new_dingtalk}
use cpa_monitor.Dingtalk.Markdown.{truncate_runes, fit_markdown, truncation_suffix}
use cpa_monitor.Dingtalk.Labels.{chinese}
use cpa_monitor.Dingtalk.Alert.{
  Payload, payload, compact_payload, alert_payload, english_title, english_text,
}

length-take : {A : Type 0} (n : ℕ) (xs : List A) → length (take n xs) ≤ n
length-take zero xs = omega arith
length-take (suc n) [] = omega arith
length-take (suc n) (x ∷ xs) = omega (arith, length-take n xs)

truncate_runes-length :
    (value : Text) (limit : ℕ) → 1 ≤ limit → length (truncate_runes value limit) ≤ limit
unfolding truncate_runes str
truncate_runes-length value limit h =
    ground (arith, length-append (take (limit - 1) value) (str "…"), length-take (limit - 1) value)

suffix-length : (language : Text) → length (truncation_suffix language) ≤ 100
unfolding truncation_suffix str
suffix-length language = ground arith

fit_markdown-length : (value language : Text) → length (fit_markdown value language) ≤ 18000
unfolding fit_markdown
fit_markdown-length value language = ground (
  arith,
  suffix-length language,
  length-append (take (18000 - length (truncation_suffix language)) value)
      (truncation_suffix language),
  length-take (18000 - length (truncation_suffix language)) value,
)

-- What the robot takes: a title of at most 100 characters, and a text of at most 18000.
abbrev pub HasSize : Payload → Type 0
HasSize p = (length p.title ≤ 100) × (length p.text ≤ 18000)

payload-HasSize :
    (title text language : Text) (at : AtContent) → HasSize (payload title text language at)
unfolding payload
payload-HasSize title text language at =
    (truncate_runes-length title 100 (omega arith), fit_markdown-length text language)

-- What `New` has tested.
pub new_dingtalk-accepted :
    (o : DingtalkOptions) (c : DingtalkClient)
    → new_dingtalk o ≡ inr c
    → (known_language c.language ≡ true) × ((c.max_items == 0) ≡ false)
unfolding new_dingtalk
new_dingtalk-accepted o c h = ground arith

module _ {F : Type 0} (fl : Floats F) (fm : Formats F) where
  accepted_payload :
      (b : Batch) (language : Text) (n : ℕ) (at : AtContent)
      → known_language language ≡ true
      → (n == 0) ≡ false
      → validate_batch b ≡ none
      → (p : Payload) × (alert_payload fl fm b language n at ≡ inr p) × HasSize p
  unfolding alert_payload
  accepted_payload b language n at known items ok = elim (Bool-cases (chinese language)) [
    | inl t ↦ (
      compact_payload fl fm b n at,
      rw (ok, known, items, t, alert_payload),
      unfold compact_payload in payload-HasSize _ _ _ _,
    )
    | inr f ↦ (
      payload (english_title b language) (english_text fl fm b language n at) language at,
      rw (ok, known, items, f, alert_payload),
      payload-HasSize _ _ _ _,
    )
  ]

  -- A client that `New` has made has a message for every deliverable batch, within the sizes that the
  -- robot takes.
  pub alert_payload-HasSize :
      (o : DingtalkOptions) (c : DingtalkClient) (b : Batch)
      → new_dingtalk o ≡ inr c
      → IsDeliverable b
      → (p : Payload) × (alert_payload fl fm b c.language c.max_items c.at ≡ inr p) × HasSize p
  alert_payload-HasSize o c b h v =
      let (known, items) = new_dingtalk-accepted o c h in
      accepted_payload b c.language c.max_items c.at known items
        ((validate_batch-IsDeliverable b).1 v)

  pub accepted_report :
      (r : HealthReport F) (language : Text) (at : AtContent)
      → known_language language ≡ true
      → report_refusal fl r ≡ none
      → (p : Payload) × (health_payload fl fm r language at ≡ inr p) × HasSize p
  unfolding health_payload
  accepted_report r language at known ok = (
    payload (health_title language) (health_text fl fm r language at) language at,
    rw (ok, known, health_payload),
    payload-HasSize _ _ _ _,
  )
