-- ===== src/Mailer/Delivery.antt =====
-- `send` of internal/mailer/smtp.go against the list of its steps.
use mathlib.Core.List.{append_assoc, reverse, reverse-cons}
use cpa_monitor.Base.{
  true, false, Bool, Bool-cases, List, Text, [], ap, false, if◌then◌else◌, inl, inr, is_empty, none,
  refl, some, split, subst, true, ◌++◌, ◌∙◌, ◌∷◌, ◌≡◌, ◌⊎◌,
}
use cpa_monitor.Mailer.{Mailer}
use cpa_monitor.Mailer.Exchange.{
  Step, check_context, dial, set_deadline, tls_handshake, read_greeting, start_tls, authenticate,
  mail_from, rcpt_to, start_data, write_data, finish_data, quit, Server, Session, try, done,
  send_message, send_recipients, send_envelope, send_login, send_secured, send,
}

unfoldable pub rcpt_steps : List Text → List Step
rcpt_steps [] = []
rcpt_steps (r ∷ rs) = rcpt_to r ∷ rcpt_steps rs

-- All the steps of a delivery, the first one first.
unfoldable pub delivery : Mailer → Text → List Step
unfolding rcpt_steps
delivery m message =
    let rest = start_data ∷ write_data message ∷ finish_data ∷ quit ∷ [] in
    let envelope = mail_from m.from_address ∷ (rcpt_steps m.recipients ++ rest) in
    let login =
      if is_empty m.options.username
      then []
      else authenticate m.options.username m.options.password ∷ [] in
    let tls =
      if m.options.direct_tls
      then tls_handshake ∷ read_greeting ∷ []
      else read_greeting ∷ start_tls ∷ [] in
    check_context ∷ dial ∷ set_deadline ∷ (tls ++ (login ++ envelope))

-- Steps tried one after the other until one of them fails.
unfoldable pub in_turn : Server → List Step → List Step → Session
in_turn fails [] log = done log
in_turn fails (s ∷ ss) log = try fails s (in_turn fails ss) log

module _ (fails : Server) where
  try_ext :
      (s : Step) (f g : List Step → Session)
      → ((log : List Step) → f log ≡ g log)
      → (log : List Step) → try fails s f log ≡ try fails s g log
  unfolding try
  try_ext s f g e log = rw (e (s ∷ log))

  module _ (m : Mailer) (message : Text) where
    -- The steps from the recipients on, from the sender on, and from the login on.
    abbrev recipient_steps : List Text → List Step
    recipient_steps rs = rcpt_steps rs ++ start_data ∷ write_data message ∷ finish_data ∷ quit ∷ []

    abbrev envelope_steps : List Step
    envelope_steps = mail_from m.from_address ∷ recipient_steps m.recipients

    abbrev login_steps : Bool → List Step
    login_steps anonymous =
        (if anonymous then [] else authenticate m.options.username m.options.password ∷ [])
        ++ envelope_steps

    send_recipients-in_turn :
        (rs : List Text) (log : List Step)
        → send_recipients fails m message rs log ≡ in_turn fails (recipient_steps rs) log
    unfolding send_recipients send_message in_turn rcpt_steps
    send_recipients-in_turn [] log = refl
    send_recipients-in_turn (r ∷ rs) log = try_ext (rcpt_to r) _ _ (send_recipients-in_turn rs) log

    send_envelope-in_turn :
        (log : List Step) → send_envelope fails m message log ≡ in_turn fails envelope_steps log
    unfolding send_envelope in_turn
    send_envelope-in_turn log =
        try_ext (mail_from m.from_address) _ _ (send_recipients-in_turn m.recipients) log

    send_login-in_turn :
        (log : List Step)
        → send_login fails m message log
          ≡ in_turn fails (login_steps (is_empty m.options.username)) log
    unfolding send_login in_turn
    send_login-in_turn log = go (is_empty m.options.username)
      where
        go :
            (b : Bool)
            → (if b
                then send_envelope fails m message log
                else try fails
                    (authenticate m.options.username m.options.password)
                    (send_envelope fails m message)
                    log)
              ≡ in_turn fails (login_steps b) log
        go true = send_envelope-in_turn log
        go false =
            try_ext (authenticate m.options.username m.options.password) _ _ send_envelope-in_turn
              log

    send_secured-in_turn :
        (log : List Step)
        → send_secured fails m message log
          ≡ in_turn fails
              ((if m.options.direct_tls
                  then tls_handshake ∷ read_greeting ∷ []
                  else read_greeting ∷ start_tls ∷ [])
                ++ login_steps (is_empty m.options.username))
              log
    unfolding send_secured in_turn
    send_secured-in_turn log = go m.options.direct_tls
      where
        go :
            (b : Bool)
            → (if b
                then try fails tls_handshake
                    (try fails read_greeting (send_login fails m message))
                    log
                else try fails read_greeting (try fails start_tls (send_login fails m message)) log)
              ≡ in_turn fails
                  ((if b
                      then tls_handshake ∷ read_greeting ∷ []
                      else read_greeting ∷ start_tls ∷ [])
                    ++ login_steps (is_empty m.options.username))
                  log
        go true = try_ext tls_handshake _ _ (try_ext read_greeting _ _ send_login-in_turn) log
        go false = try_ext read_greeting _ _ (try_ext start_tls _ _ send_login-in_turn) log

    -- The exchange is the delivery, step by step.
    pub send-in_turn : send fails m message ≡ in_turn fails (delivery m message) []
    unfolding send delivery in_turn
    send-in_turn =
        try_ext check_context _ _ (try_ext dial _ _ (try_ext set_deadline _ _ send_secured-in_turn))
          []

-- The server lets these steps through, one after the other, after those of the log.
abbrev pub Passes : Server → List Step → List Step → Type 0
Passes fails [] log = Unit
Passes fails (s ∷ ss) log = (fails log s ≡ false) × Passes fails ss (s ∷ log)

-- Either all the steps were let through and done, or those before one that failed.
abbrev pub Ended : Server → List Step → List Step → Session → Type 0
Ended fails ss log s =
    (Passes fails ss log × (s.failed ≡ none) × (s.log ≡ reverse ss ++ log))
    ⊎ ((before : List Step) × (x : Step) × (after : List Step) × (ss ≡ before ++ x ∷ after)
        × Passes fails before log
        × (s.failed ≡ some x)
        × (s.log ≡ x ∷ (reverse before ++ log))
        × (fails (reverse before ++ log) x ≡ true))

pushed : (s : Step) (xs log : List Step) → reverse xs ++ s ∷ log ≡ reverse (s ∷ xs) ++ log
pushed s xs log = rw (reverse-cons, append_assoc) refl

in_turn-Ended : (fails : Server) (ss log : List Step) → Ended fails ss log (in_turn fails ss log)
unfolding in_turn done try
in_turn-Ended fails [] log = inl (tt, refl, refl)
in_turn-Ended fails (s ∷ ss) log = elim (Bool-cases (fails log s)) [
  | inl t ↦ rw (t, try) (inr ([], s, ss, refl, tt, refl, refl, t))
  | inr f ↦
      rw (f, try)
        (elim (in_turn-Ended fails ss (s ∷ log)) [
          | inl (passed, n, e) ↦ inl ((refl, passed), n, e ∙ pushed s ss log)
          | inr (before, x, after, split, passed, failed, e, bad) ↦ inr (
            s ∷ before,
            x,
            after,
            ap (λ ss. s ∷ ss) split,
            (f, passed),
            failed,
            e ∙ ap (λ log. x ∷ log) (pushed s before log),
            subst (λ log. fails log x ≡ true) (pushed s before log) bad,
          )
        ])
]

-- Whatever the server answers: either it lets every step of the delivery through, all of them were
-- done in order and `send` gives no error; or it lets through the steps before one that it fails, these
-- and that one are what was tried, and that one is the error of `send`.
pub send-Ended :
    (fails : Server) (m : Mailer) (message : Text)
    → Ended fails (delivery m message) [] (send fails m message)
send-Ended fails m message =
    rw (send-in_turn fails m message) (in_turn-Ended fails (delivery m message) [])
