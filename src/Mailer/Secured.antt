-- ===== src/Mailer/Secured.antt =====
-- What `send` of internal/mailer/smtp.go does before TLS is there, and after.
use cpa_monitor.Base.{
  Bool, Bool-cases, List, Text, [], arith, false, if◌then◌else◌, inl, inr, is_empty, not, refl,
  true, ◌&&◌, ◌++◌, ◌||◌, ◌∷◌, ◌≡◌,
}
use cpa_monitor.Mailer.{Mailer}
use cpa_monitor.Mailer.Exchange.{
  Step, tls_handshake, read_greeting, start_tls, authenticate, mail_from, rcpt_to, start_data,
  write_data, finish_data, quit, Server, try, done, send,
}
use cpa_monitor.Mailer.Delivery.{rcpt_steps, delivery, in_turn, send-in_turn}

-- Logging in, and everything that tells the server about the message.
abbrev pub is_private : Step → Bool
is_private (authenticate user password) = true
is_private (mail_from address) = true
is_private (rcpt_to address) = true
is_private start_data = true
is_private (write_data message) = true
is_private _ = false

abbrev pub is_tls : Step → Bool
is_tls tls_handshake = true
is_tls start_tls = true
is_tls _ = false

module _ (fails : Server) where
  -- In a log, the last step first: a step to TLS was tried, and the server let it through.
  abbrev pub has_tls : List Step → Bool
  has_tls [] = false
  has_tls (s ∷ log) = (is_tls s && not (fails log s)) || has_tls log

  -- TLS was established before every private step.
  unfoldable pub is_secured : List Step → Bool
  is_secured [] = true
  is_secured (s ∷ log) = (not (is_private s) || has_tls log) && is_secured log

-- The same of steps that are still to be done, the first one first.
keeps_secret : Bool → List Step → Bool
keeps_secret tls [] = true
keeps_secret tls (s ∷ ss) = (not (is_private s) || tls) && keeps_secret (is_tls s || tls) ss

in_turn-is_secured :
    (fails : Server) (ss log : List Step)
    → keeps_secret (has_tls fails log) ss ≡ true
    → is_secured fails log ≡ true
    → is_secured fails (in_turn fails ss log).log ≡ true
unfolding in_turn done try keeps_secret is_secured
in_turn-is_secured fails [] log h k = k
in_turn-is_secured fails (s ∷ ss) log h k = elim (Bool-cases (fails log s)) [
  | inl t ↦ rw (t, try) (unfold is_secured in ground (arith, h, k))
  | inr f ↦ rw (f, try) (in_turn-is_secured fails ss (s ∷ log) (ground arith) (ground arith))
]

keeps_secret-recipients :
    (rs : List Text) (message : Text)
    → keeps_secret true (rcpt_steps rs ++ start_data ∷ write_data message ∷ finish_data ∷ quit ∷ [])
      ≡ true
unfolding keeps_secret rcpt_steps
keeps_secret-recipients [] message = refl
keeps_secret-recipients (r ∷ rs) message = keeps_secret-recipients rs message

keeps_secret-delivery :
    (m : Mailer) (message : Text) → keeps_secret false (delivery m message) ≡ true
unfolding delivery keeps_secret
keeps_secret-delivery m message = go m.options.direct_tls (is_empty m.options.username)
  where
    go :
        (direct anonymous : Bool)
        → keeps_secret false (
            (if direct then tls_handshake ∷ read_greeting ∷ [] else read_greeting ∷ start_tls ∷ [])
            ++ ((if anonymous then [] else authenticate m.options.username m.options.password ∷ [])
                ++ mail_from m.from_address
                  ∷ (rcpt_steps m.recipients
                      ++ start_data ∷ write_data message ∷ finish_data ∷ quit ∷ [])))
          ≡ true
    go true true = keeps_secret-recipients m.recipients message
    go true false = keeps_secret-recipients m.recipients message
    go false true = keeps_secret-recipients m.recipients message
    go false false = keeps_secret-recipients m.recipients message

-- Whatever the server does, the credentials, the addresses and the message are handed over only after
-- a step to TLS, the handshake or STARTTLS, that did not fail.
pub send-is_secured :
    (fails : Server) (m : Mailer) (message : Text)
    → is_secured fails (send fails m message).log ≡ true
unfolding is_secured
send-is_secured fails m message =
    rw (send-in_turn fails m message)
      (in_turn-is_secured fails (delivery m message) [] (keeps_secret-delivery m message) refl)
