-- ===== src/Cliproxy/Quota.antt =====
-- The Codex quota of an account: internal/cliproxy/quota.go. What encoding/json and the management
-- interface give is a parameter.
use cpa_monitor.Base.{
  negsuc, pos, Bool, List, Option, Text, [], false, if◌then◌else◌, inl, inr, is_blank, leb, ltb,
  neg_part, none, not, pos_part, some, str, text_eq, trim_space, ℕ, ℤ, ◌&&◌, ◌*◌, ◌+◌, ◌-◌, ◌==◌,
  ◌^◌, ◌||◌, ◌∷◌, ◌⊎◌,
}
use cpa_monitor.State.{Time}
use cpa_monitor.Rule.{Floats}
use cpa_monitor.Cliproxy.{Decoders}
use cpa_monitor.Cliproxy.Client.{valid_header_value}

-- float64: `strconv.ParseFloat` without its error, multiplication, and the conversions from and to
-- int64. A conversion to int64 that is out of range gives what the platform gives.
pub record Numbers (F : Type 0) : Type 0 where
  pub parse_float : Text → Option F
  pub times : F → F → F
  pub of_int : ℤ → F
  pub to_int64 : F → ℤ

pub data WindowKind : Type 0 where
  five_hour weekly monthly primary secondary : WindowKind

-- The text of a kind.
unfoldable pub kind_text : WindowKind → Text
kind_text five_hour = str "five_hour"
kind_text weekly = str "weekly"
kind_text monthly = str "monthly"
kind_text primary = str "primary"
kind_text secondary = str "secondary"

-- `QuotaWindow`; durations are int64 values.
pub record CodexWindow (F : Type 0) : Type 0 where
  pub kind : WindowKind
  pub used_percent : Option F
  pub reset_at : Time
  pub reset_after : ℤ
  pub window_length : ℤ

pub record CodexQuota (F : Type 0) : Type 0 where
  pub plan_type : Text
  pub windows : List (CodexWindow F)

-- The numbers of `codexWindowWire`; a `flexibleNumber` that is not set is none.
pub record WindowWire (F : Type 0) : Type 0 where
  pub used_percent : Option F
  pub used_percent_camel : Option F
  pub limit_window_seconds : Option F
  pub limit_window_seconds_camel : Option F
  pub reset_after_seconds : Option F
  pub reset_after_seconds_camel : Option F
  pub reset_at : Option F
  pub reset_at_camel : Option F

pub record RateLimitWire (F : Type 0) : Type 0 where
  pub allowed : Option Bool
  pub limit_reached : Option Bool
  pub limit_reached_camel : Option Bool
  pub primary_window : Option (WindowWire F)
  pub primary_window_camel : Option (WindowWire F)
  pub secondary_window : Option (WindowWire F)
  pub secondary_window_camel : Option (WindowWire F)

pub record UsageWire (F : Type 0) : Type 0 where
  pub plan_type : Text
  pub plan_type_camel : Text
  pub rate_limit : Option (RateLimitWire F)
  pub rate_limit_camel : Option (RateLimitWire F)

pub data QuotaError : Type 0 where
  index_required bad_account_id request_failed read_failed too_large undecodable usage_undecodable
        no_rate_limit no_windows :
      QuotaError
  bad_status bad_usage_status : ℕ → QuotaError
  used_out_of_range negative_value : WindowKind → QuotaError

-- The value that is there first: `firstNumber`, and the choice between two spellings of a field.
unfoldable pub first_of {ℓ} : {A : Type ℓ} → Option A → Option A → Option A
first_of none b = b
first_of (some a) b = some a

-- `boolValue`, of two values.
unfoldable pub bool_value : Option Bool → Option Bool → Bool
bool_value (some a) b = a
bool_value none (some b) = b
bool_value none none = false

-- Nanoseconds, and days of them.
abbrev pub second : ℕ
second = 1000000000

abbrev pub day : ℕ
day = 24 * 3600 * second

-- `quotaWindowKind`.
unfoldable pub quota_window_kind : ℤ → WindowKind → WindowKind
quota_window_kind (negsuc n) fallback = fallback
quota_window_kind (pos n) fallback =
    if n == 5 * 3600 * second
    then five_hour
    else if n == 7 * day
    then weekly
    else if leb (28 * day) n && leb n (31 * day)
    then monthly
    else fallback

-- The nanoseconds from Go's zero instant to the Unix epoch.
abbrev pub unix_epoch : Time
unix_epoch = 62135596800 * second

module _ {F : Type 0} (fl : Floats F) (nu : Numbers F) where
  -- The number that a JSON value spells.
  unfoldable pub finite_number : Text → Option (Option F)
  finite_number text = elim (nu.parse_float (trim_space text)) [
    | none ↦ none
    | some x ↦ if fl.is_nan x || fl.is_inf x then none else some (some x)
  ]

  -- `flexibleNumber.UnmarshalJSON`: none where it gives an error.
  unfoldable pub flexible_number : Decoders → Text → Option (Option F)
  flexible_number d [] = some none
  flexible_number d (c ∷ s) =
      if text_eq (c ∷ s) (str "null")
      then some none
      else if c == 34
      then (elim (d.unquote (c ∷ s)) [ none ↦ none | some text ↦ finite_number text ])
      else finite_number (c ∷ s)

  -- `secondsDuration`.
  unfoldable pub seconds_duration : F → ℤ
  seconds_duration x = nu.to_int64 (nu.times x (nu.of_int (pos second)))

  unfoldable pub is_below_zero : Option F → Bool
  is_below_zero none = false
  is_below_zero (some x) = fl.lt x fl.zero_percent

  -- The used percentage: none where the window is refused.
  unfoldable pub converted_percent : Option F → Bool → Option (Option F)
  converted_percent (some x) limit_reached =
      if fl.lt x fl.zero_percent || fl.gt x fl.hundred then none else some (some x)
  converted_percent none limit_reached = some (if limit_reached then some fl.hundred else none)

  unfoldable pub converted_length : Option F → ℤ
  converted_length none = pos 0
  converted_length (some x) = seconds_duration x

  unfoldable pub converted_kind : Option F → WindowKind → WindowKind
  converted_kind none fallback = fallback
  converted_kind (some x) fallback = quota_window_kind (seconds_duration x) fallback

  -- `time.Unix(int64(x), 0)`, for a number above zero; a time before Go's zero instant is cut to it.
  unfoldable pub converted_time : Option F → Time
  converted_time none = 0
  converted_time (some x) =
      if fl.gt x fl.zero_percent
      then unix_epoch + pos_part (nu.to_int64 x) * second - neg_part (nu.to_int64 x) * second
      else 0

  -- `convertCodexWindow`.
  unfoldable pub convert_codex_window :
      WindowWire F → WindowKind → Bool → QuotaError ⊎ CodexWindow F
  convert_codex_window wire fallback limit_reached =
      let length = first_of wire.limit_window_seconds wire.limit_window_seconds_camel in
      let after = first_of wire.reset_after_seconds wire.reset_after_seconds_camel in
      let at = first_of wire.reset_at wire.reset_at_camel in
      elim (converted_percent (first_of wire.used_percent wire.used_percent_camel) limit_reached) [
        | none ↦ inl (used_out_of_range fallback)
        | some used ↦
            if is_below_zero length || (is_below_zero after || is_below_zero at)
            then inl (negative_value fallback)
            else inr (record {
              kind = converted_kind length fallback;
              used_percent = used;
              reset_at = converted_time at;
              reset_after = converted_length after;
              window_length = converted_length length;
            })
      ]

  -- One window of `parseCodexQuota`, before those that are left.
  unfoldable pub add_window :
      Option (WindowWire F)
      → WindowKind
      → Bool
      → QuotaError ⊎ List (CodexWindow F)
      → QuotaError ⊎ List (CodexWindow F)
  add_window none fallback limit_reached rest = rest
  add_window (some wire) fallback limit_reached rest =
      elim (convert_codex_window wire fallback limit_reached) [
        | inl e ↦ inl e
        | inr w ↦ elim rest [ inl e ↦ inl e | inr ws ↦ inr (w ∷ ws) ]
      ]

  unfoldable pub limit_is_reached : RateLimitWire F → Bool
  limit_is_reached r =
      bool_value r.limit_reached r.limit_reached_camel
      || (elim r.allowed [ none ↦ false | some allowed ↦ not allowed ])

  -- The windows of `parseCodexQuota`.
  unfoldable pub codex_windows : RateLimitWire F → QuotaError ⊎ List (CodexWindow F)
  codex_windows r =
      let limited = limit_is_reached r in
      add_window (first_of r.primary_window r.primary_window_camel) primary limited (
        add_window (first_of r.secondary_window r.secondary_window_camel) secondary limited
          (inr []))

  unfoldable pub quota_of : Text → QuotaError ⊎ List (CodexWindow F) → QuotaError ⊎ CodexQuota F
  quota_of plan (inl e) = inl e
  quota_of plan (inr []) = inl no_windows
  quota_of plan (inr (w ∷ ws)) = inr (record { plan_type = plan; windows = w ∷ ws })

  unfoldable pub plan_type_of : UsageWire F → Text
  plan_type_of wire =
      if is_blank wire.plan_type then trim_space wire.plan_type_camel else trim_space wire.plan_type

  -- `parseCodexQuota`, of what its body decodes to.
  unfoldable pub parse_codex_quota : Option (UsageWire F) → QuotaError ⊎ CodexQuota F
  parse_codex_quota none = inl usage_undecodable
  parse_codex_quota (some wire) = elim (first_of wire.rate_limit wire.rate_limit_camel) [
    | none ↦ inl no_rate_limit
    | some r ↦ quota_of (plan_type_of wire) (codex_windows r)
  ]

-- The answer of the management interface: none, a status with a body that breaks off, or a status with
-- the length of the body, and the status and the body of the envelope that it decodes to.
pub data ApiCall : Type 0 where
  no_answer : ApiCall
  broken_off : ℕ → ApiCall
  answered : ℕ → ℕ → Option (ℕ × Text) → ApiCall

module _ {F : Type 0} (fl : Floats F) (nu : Numbers F) (decode : Text → Option (UsageWire F)) where
  unfoldable pub read_api_call : ApiCall → QuotaError ⊎ CodexQuota F
  read_api_call no_answer = inl request_failed
  read_api_call (broken_off status) =
      if not (status == 200) then inl (bad_status status) else inl read_failed
  read_api_call (answered status size envelope) =
      if not (status == 200)
      then inl (bad_status status)
      else if ltb (2 ^ 20) size
      then inl too_large
      else elim envelope [
        | none ↦ inl undecodable
        | some (usage_status, body) ↦
            if ltb usage_status 200 || leb 300 usage_status
            then inl (bad_usage_status usage_status)
            else parse_codex_quota fl nu (decode body)
      ]

  -- `CodexQuota`: the interface is asked with the trimmed index and account.
  unfoldable pub codex_quota : (Text → Text → ApiCall) → Text → Text → QuotaError ⊎ CodexQuota F
  codex_quota api_call auth_index account_id =
      if is_blank auth_index
      then inl index_required
      else if not (valid_header_value (trim_space account_id))
      then inl bad_account_id
      else read_api_call (api_call (trim_space auth_index) (trim_space account_id))
