-- ===== src/Alerter/Message.antt =====
-- The events of the alert manager: the rendering functions of internal/alerter/manager.go.
use cpa_monitor.Base.{
  inr, inl, Bool-cases, All, All-append, Text, [], arith, if◌then◌else◌, is_blank, join, ltb, map,
  sort, str, ℕ, ◌%◌, ◌++◌, ◌+◌, ◌/◌, ◌<◌, ◌==◌, ◌||◌, ◌∷◌, ◌≢◌, ◌≤◌,
}
use cpa_monitor.State.{Time, Details, Record}
use cpa_monitor.Notification.{Event, alert, recovery}
use cpa_monitor.Rule.{Condition}

unfoldable pub hex_digit : ℕ → ℕ
hex_digit n = if ltb n 10 then 48 + n else 55 + n

-- `fmt.Fprintf(&safe, "\u%04X", c)`, for `c` below 2 ^ 16.
unfoldable pub escape_rune : ℕ → Text
escape_rune c =
    b'\\'
    ∷ b'u'
    ∷ hex_digit (c / 4096 % 16)
    ∷ hex_digit (c / 256 % 16)
    ∷ hex_digit (c / 16 % 16)
    ∷ hex_digit (c % 16)
    ∷ []

unfoldable pub safe_rune : ℕ → Text
safe_rune c =
    if c == 13
    then b'\\' ∷ b'r' ∷ []
    else if c == 10
    then b'\\' ∷ b'n' ∷ []
    else if c == 9
    then b'\\' ∷ b't' ∷ []
    else if ltb c 0x20 || c == 0x7F
    then escape_rune c
    else c ∷ []

-- `headerSafe`.
unfoldable pub header_safe : Text → Text
header_safe [] = []
header_safe (c ∷ s) = safe_rune c ++ header_safe s

-- `objectName`.
unfoldable pub object_name : Text → Text → Text
object_name summary key = header_safe (if is_blank summary then key else summary)

abbrev pub detail_key : Text × Text → Text
detail_key d = d.0

-- `formatDetails`.
unfoldable pub format_details : Details → Text
format_details details =
    join (10 ∷ []) (map (λ d. d.0 ++ (str "=" ++ d.1)) (sort detail_key details))

unfoldable pub alert_event : Text → Text → Condition → Time → Event
alert_event hostname base_url c timestamp = record {
  kind = alert;
  scope = c.scope;
  object = object_name c.summary c.key;
  hostname = hostname;
  timestamp = timestamp;
  key = c.key;
  current = c.current;
  threshold = c.threshold;
  details = format_details c.details;
  base_url = base_url;
}

unfoldable pub recovery_event : Text → Text → Record → Time → Event
recovery_event hostname base_url r timestamp = record {
  kind = recovery;
  scope = r.scope;
  object = object_name r.summary r.key ++ str " recovered";
  hostname = hostname;
  timestamp = timestamp;
  key = r.key;
  current = str "recovered";
  threshold = r.threshold;
  details = format_details r.details;
  base_url = base_url;
}

unfoldable pub record_from_condition : Condition → Time → Record
record_from_condition c activated_at = record {
  key = c.key;
  scope = c.scope;
  summary = c.summary;
  current = c.current;
  threshold = c.threshold;
  details = c.details;
  activated_at = activated_at;
}

abbrev pub IsPrintable : ℕ → Type 0
IsPrintable c = (32 ≤ c) × (c ≢ 127)

hex_digit_printable : (n : ℕ) → n < 16 → (32 ≤ hex_digit n) × (hex_digit n ≢ 127)
unfolding hex_digit
hex_digit_printable n h = ground arith

escape_rune-IsPrintable : (c : ℕ) → All IsPrintable (escape_rune c)
unfolding escape_rune
escape_rune-IsPrintable c = (
  omega arith,
  (
    omega arith,
    (
      hex_digit_printable (c / 4096 % 16) (omega arith),
      (
        hex_digit_printable (c / 256 % 16) (omega arith),
        (
          hex_digit_printable (c / 16 % 16) (omega arith),
          (hex_digit_printable (c % 16) (omega arith), tt),
        ),
      ),
    ),
  ),
)

pair-IsPrintable : (c : ℕ) → IsPrintable c → All IsPrintable (b'\\' ∷ c ∷ [])
pair-IsPrintable c h = (omega arith, (h, tt))

safe_rune-IsPrintable : (c : ℕ) → All IsPrintable (safe_rune c)
unfolding safe_rune
safe_rune-IsPrintable c = elim (Bool-cases (c == 13)) [
  | inl t ↦ rw t (pair-IsPrintable b'r' (omega arith))
  | inr r ↦ rw r (elim (Bool-cases (c == 10)) [
    | inl t ↦ rw t (pair-IsPrintable b'n' (omega arith))
    | inr n ↦ rw n (elim (Bool-cases (c == 9)) [
      | inl t ↦ rw t (pair-IsPrintable b't' (omega arith))
      | inr h ↦ rw h (elim (Bool-cases (ltb c 0x20 || c == 0x7F)) [
        | inl t ↦ rw t (escape_rune-IsPrintable c)
        | inr p ↦ rw p ((ground arith, ground arith), tt)
      ])
    ])
  ])
]

-- Whatever the text, every character of its header form is U+0020 or above and is not U+007F; so it
-- has no carriage return, line feed or tab.
pub header_safe-IsPrintable : (s : Text) → All IsPrintable (header_safe s)
unfolding header_safe
header_safe-IsPrintable [] = tt
header_safe-IsPrintable (c ∷ s) =
    All-append IsPrintable (safe_rune c) (header_safe s) (safe_rune-IsPrintable c)
      (header_safe-IsPrintable s)
