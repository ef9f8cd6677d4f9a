-- ===== src/Mailer/Exchange.antt =====
-- `send` of internal/mailer/smtp.go: the exchange with the SMTP server, as the sequence of its steps.
-- Package net/smtp and the network answer each step; closing the connection and the watch over the
-- context, which only make later steps fail, are left out.
use cpa_monitor.Base.{Bool, List, Option, Text, [], if◌then◌else◌, is_empty, none, some, ◌∷◌}
use cpa_monitor.Mailer.{Mailer}

-- The steps of `send`, named as in its errors. A step is in the log once it is tried. A failed
-- `start_tls` or `write_data` includes the close that the code then tries.
pub data Step : Type 0 where
  check_context dial set_deadline tls_handshake read_greeting start_tls : Step
  authenticate : Text → Text → Step
  mail_from : Text → Step
  rcpt_to : Text → Step
  start_data : Step
  write_data : Text → Step
  finish_data quit : Step

-- What answers: a step may fail or not, by what was done before it.
abbrev pub Server : Type 0
Server = List Step → Step → Bool

-- The steps that were tried, the last one first, and the one that failed.
pub record Session : Type 0 where
  pub log : List Step
  pub failed : Option Step

-- One step, and what follows it where it does not fail.
unfoldable pub try : Server → Step → (List Step → Session) → List Step → Session
try fails s next log =
    if fails log s then record { log = s ∷ log; failed = some s } else next (s ∷ log)

unfoldable pub done : List Step → Session
done log = record { log = log; failed = none }

module _ (fails : Server) (m : Mailer) (message : Text) where
  -- From `client.Data()` on.
  unfoldable pub send_message : List Step → Session
  send_message =
      try fails start_data
        (try fails (write_data message) (try fails finish_data (try fails quit done)))

  -- The loop over the recipients, and what follows it.
  unfoldable pub send_recipients : List Text → List Step → Session
  send_recipients [] = send_message
  send_recipients (r ∷ rs) = try fails (rcpt_to r) (send_recipients rs)

  unfoldable pub send_envelope : List Step → Session
  send_envelope = try fails (mail_from m.from_address) (send_recipients m.recipients)

  -- With a user name, the client logs in.
  unfoldable pub send_login : List Step → Session
  send_login log =
      if is_empty m.options.username
      then send_envelope log
      else try fails (authenticate m.options.username m.options.password) send_envelope log

  -- Both ways to TLS.
  unfoldable pub send_secured : List Step → Session
  send_secured log =
      if m.options.direct_tls
      then try fails tls_handshake (try fails read_greeting send_login) log
      else try fails read_greeting (try fails start_tls send_login) log

  -- `send`.
  unfoldable pub send : Session
  send = try fails check_context (try fails dial (try fails set_deadline send_secured)) []
