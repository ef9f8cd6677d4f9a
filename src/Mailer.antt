-- ===== src/Mailer.antt =====
-- The mailer: `New` of internal/mailer/smtp.go and `parseEnvelope` of internal/mailer/message.go. The
-- host is tested as in internal/config/config.go, by the same code. The TLS settings are the default.
pub mod Exchange
pub mod Delivery
pub mod Secured
pub mod Language
pub mod Html
pub mod Message
pub mod Batch
pub mod Lines
pub mod Reports
use cpa_monitor.Base.{
  Bool, List, Option, Text, [], contains_any_char, false, if◌then◌else◌, inl, inr, is_empty, leb,
  ltb, none, not, pos_part, some, str, text_eq, ℤ, ◌&&◌, ◌==◌, ◌||◌, ◌∷◌, ◌⊎◌,
}
use cpa_monitor.Config.Url.{Nets, valid_smtp_host, has_domain}

-- `Config`.
pub record MailerOptions : Type 0 where
  pub host : Text
  pub port : ℤ
  pub language : Text
  pub username : Text
  pub password : Text
  pub from : Text
  pub to : List Text
  pub start_tls : Bool
  pub direct_tls : Bool
  pub timeout : ℤ

pub record Mailer : Type 0 where
  pub options : MailerOptions
  pub from_address : Text
  pub recipients : List Text

pub data MailerError : Type 0 where
  bad_host bad_port bad_from no_recipients bad_recipient half_credentials bad_credentials
        bad_tls_mode bad_timeout bad_language :
      MailerError

-- The address of one mailbox; none where it is refused.
unfoldable pub mailbox_address : Nets → Text → Option Text
mailbox_address n value =
    if contains_any_char value (13 ∷ 10 ∷ []) then none else elim (n.parse_address value) [
      | none ↦ none
      | some address ↦ if has_domain address then some address else none
    ]

unfoldable pub recipient_addresses : Nets → List Text → Option (List Text)
recipient_addresses n [] = some []
recipient_addresses n (v ∷ vs) = elim (mailbox_address n v) [
  | none ↦ none
  | some a ↦ elim (recipient_addresses n vs) [ none ↦ none | some rest ↦ some (a ∷ rest) ]
]

-- `parseEnvelope`: the addresses of the sender and of the recipients.
unfoldable pub parse_envelope : Nets → Text → List Text → MailerError ⊎ (Text × List Text)
parse_envelope n from to = elim (mailbox_address n from) [
  | none ↦ inl bad_from
  | some address ↦ if is_empty to then inl no_recipients else elim (recipient_addresses n to) [
    | none ↦ inl bad_recipient
    | some rest ↦ inr (address, rest)
  ]
]

-- `containsCredentialControl`.
unfoldable pub contains_credential_control : Text → Bool
contains_credential_control [] = false
contains_credential_control (c ∷ s) =
    c == 0 || (c == 13 || (c == 10 || contains_credential_control s))

-- `validLanguage`.
unfoldable pub valid_language : Text → Bool
valid_language language = text_eq language (str "zh-CN") || text_eq language (str "en")

-- The language, Chinese by default.
unfoldable pub with_language : MailerOptions → MailerOptions
with_language o = if is_empty o.language then record o { language = str "zh-CN" } else o

-- The tests of `New` after the envelope.
unfoldable pub after_envelope :
    MailerOptions → MailerError ⊎ (Text × List Text) → MailerError ⊎ Mailer
after_envelope o (inl e) = inl e
after_envelope o (inr (from, to)) =
    if is_empty o.username && not (is_empty o.password)
      || not (is_empty o.username) && is_empty o.password
    then inl half_credentials
    else if contains_credential_control o.username || contains_credential_control o.password
    then inl bad_credentials
    else if o.start_tls && o.direct_tls || not o.start_tls && not o.direct_tls
    then inl bad_tls_mode
    else if not (ltb 0 (pos_part o.timeout))
    then inl bad_timeout
    else if not (valid_language o.language)
    then inl bad_language
    else inr (record { options = o; from_address = from; recipients = to })

-- `New`, once the language is set.
unfoldable pub new_in_language : Nets → MailerOptions → MailerError ⊎ Mailer
new_in_language n o =
    if not (valid_smtp_host n o.host)
    then inl bad_host
    else if not (leb 1 (pos_part o.port) && leb (pos_part o.port) 65535)
    then inl bad_port
    else after_envelope o (parse_envelope n o.from o.to)

-- `New`.
unfoldable pub new_mailer : Nets → MailerOptions → MailerError ⊎ Mailer
new_mailer n o = new_in_language n (with_language o)
