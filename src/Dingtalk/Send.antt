-- ===== src/Dingtalk/Send.antt =====
-- `SendBatch`, `SendHealth` and `send` of internal/dingtalk/client.go. The robot is a function from the
-- request to its answer; the clock and the context are read at the start of a send, as the code does.
-- Encoding the payload and building the request do not fail here. A secret in the text of an error is
-- replaced by `redact`, which only touches that text.
use cpa_monitor.Base.{
  negsuc, pos, Bool, Option, Text, atoi, false, if◌then◌else◌, inl, inr, is_blank, leb, ltb, none,
  some, str, trim_space, ℕ, ℤ, ◌*◌, ◌+◌, ◌==◌, ◌^◌, ◌||◌, ◌⊎◌,
}
use cpa_monitor.State.{Time}
use cpa_monitor.Rule.{Floats}
use cpa_monitor.Notification.{Batch}
use cpa_monitor.Notification.Health.{HealthReport}
use cpa_monitor.Notification.Formats.{Formats}
use cpa_monitor.Dingtalk.{DingtalkClient}
use cpa_monitor.Dingtalk.Alert.{Payload, AlertError, alert_payload}
use cpa_monitor.Dingtalk.Health.{ReportRefusal, health_payload}

-- 10 minutes, in nanoseconds.
abbrev pub rate_limit_pause : ℕ
rate_limit_pause = 600 * 1000000000

abbrev pub rate_limit_code : ℤ
rate_limit_code = pos 410100

abbrev pub max_response_bytes : ℕ
max_response_bytes = 2 ^ 20

-- `apiResponse.ErrorCode`, as encoding/json sees it: missing, null, an integer that is an int64, a
-- string, or something else.
pub data ErrorCode : Type 0 where
  missing null_code : ErrorCode
  integer : ℤ → ErrorCode
  quoted : Text → ErrorCode
  other_code : ErrorCode

pub record ApiResponse : Type 0 where
  pub error_code : ErrorCode
  pub error_message : Text

-- What a request leads to: no answer, an answer that breaks off, or a status with the length of the
-- body and what it decodes to.
pub data Exchange : Type 0 where
  no_answer broken_off : Exchange
  answered : ℕ → ℕ → Option ApiResponse → Exchange

-- The context of a send.
pub data Context : Type 0 where
  nil_context ended live : Context

pub data SendFailure : Type 0 where
  context_nil context_ended : SendFailure
  cooling_down : Time → SendFailure
  request_failed read_failed too_large undecodable no_error_code invalid_error_code : SendFailure
  bad_status : ℕ → SendFailure
  api_error : ℤ → Text → SendFailure
  bad_batch : AlertError → SendFailure
  bad_report : ReportRefusal → SendFailure

-- `apiResponse.code`. Decoding null into an int64 leaves it 0, without an error.
unfoldable pub response_code : ErrorCode → SendFailure ⊎ ℤ
response_code missing = inl no_error_code
response_code null_code = inr (pos 0)
response_code (integer n) = inr n
response_code (quoted text) = elim (atoi text) [ none ↦ inl invalid_error_code | some n ↦ inr n ]
response_code other_code = inl invalid_error_code

-- The message of an error of the interface.
unfoldable pub api_message : Text → Text
api_message message = if is_blank message then str "unknown API error" else trim_space message

unfoldable pub same_code : ℤ → ℤ → Bool
same_code (pos m) (pos n) = m == n
same_code (negsuc m) (negsuc n) = m == n
same_code _ _ = false

-- The end of the pause after an answer: it is never moved back.
unfoldable pub paused : Time → Time → Time
paused now blocked_until =
    if ltb blocked_until (now + rate_limit_pause) then now + rate_limit_pause else blocked_until

-- After the code was read: the error, if any, and the end of the pause.
unfoldable pub judged : Time → Time → Text → SendFailure ⊎ ℤ → Option SendFailure × Time
judged now blocked message (inl e) = (some e, blocked)
judged now blocked message (inr code) = if same_code code (pos 0) then (none, blocked) else (
  some (api_error code (api_message message)),
  if same_code code rate_limit_code then paused now blocked else blocked,
)

-- The part of `send` after the request.
unfoldable pub after_exchange : Time → Time → Exchange → Option SendFailure × Time
after_exchange now blocked no_answer = (some request_failed, blocked)
after_exchange now blocked broken_off = (some read_failed, blocked)
after_exchange now blocked (answered status size body) =
    if ltb max_response_bytes size
    then (some too_large, blocked)
    else if ltb status 200 || leb 300 status
    then (some (bad_status status), blocked)
    else elim body [
      | none ↦ (some undecodable, blocked)
      | some r ↦ judged now blocked r.error_message (response_code r.error_code)
    ]

-- What a send finds outside: its context, the clock, and the robot. Only the robot sees the payload.
pub record Attempt : Type 0 where
  pub context : Context
  pub now : Time
  pub robot : Payload → Exchange

-- The outcome of a send: the error, the payload of the request that was made, if any, and the end of
-- the pause.
pub record Sent : Type 0 where
  pub error : Option SendFailure
  pub request : Option Payload
  pub blocked_until : Time

unfoldable pub refused : SendFailure → Time → Sent
refused e blocked = record { error = some e; request = none; blocked_until = blocked }

-- `send`.
unfoldable pub send : Attempt → Time → Payload → Sent
send a blocked p = elim a.context [
  | nil_context ↦ refused context_nil blocked
  | ended ↦ refused context_ended blocked
  | live ↦
      if ltb a.now blocked
      then refused (cooling_down blocked) blocked
      else (let (error, until) = after_exchange a.now blocked (a.robot p) in
          record { error = error; request = some p; blocked_until = until })
]

module _ {F : Type 0} (fl : Floats F) (fm : Formats F) (c : DingtalkClient) where
  unfoldable pub send_alert : Attempt → Time → AlertError ⊎ Payload → Sent
  send_alert a blocked (inl e) = refused (bad_batch e) blocked
  send_alert a blocked (inr p) = send a blocked p

  -- `SendBatch`.
  unfoldable pub send_batch : Attempt → Time → Batch → Sent
  send_batch a blocked b = send_alert a blocked (alert_payload fl fm b c.language c.max_items c.at)

  unfoldable pub send_report : Attempt → Time → ReportRefusal ⊎ Payload → Sent
  send_report a blocked (inl e) = refused (bad_report e) blocked
  send_report a blocked (inr p) = send a blocked p

  -- `SendHealth`.
  unfoldable pub send_health : Attempt → Time → HealthReport F → Sent
  send_health a blocked r = send_report a blocked (health_payload fl fm r c.language c.at)
