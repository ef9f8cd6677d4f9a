-- ===== src/App/Parts.antt =====
-- The constructors of internal/app/runtime.go on an accepted configuration.
use cpa_monitor.Base.{
  negsuc, pos, Bool, List, Text, [], ap, arith, equal_fold_ascii, false, inl, inr, int64, is_blank,
  is_empty, is_some, is_space, lower_rune, ltb, none, not, pos_part, refl, some, str, text_eq,
  text_eq_iff, text_mem, trim_left, trim_space, true, ℕ, ℤ, ◌&&◌, ◌*◌, ◌<◌, ◌^◌, ◌∙◌, ◌∷◌, ◌≡◌, ◌≤◌,
  ◌⊎◌,
}
use cpa_monitor.Rule.{Floats}
use cpa_monitor.Config.{Settings}
use cpa_monitor.Config.Url.{
  Url, Nets, url_error, is_http, is_https, is_loopback_host, in_port_range, valid_mailbox,
}
use cpa_monitor.Config.Check
use cpa_monitor.Config.Accepted.{has_space_or_control-line}
use cpa_monitor.Logfile.{options_error, below, parse_level}
use cpa_monitor.Mailer
use cpa_monitor.Mailer.{Mailer, MailerError, MailerOptions, new_mailer}
use cpa_monitor.Dingtalk.{new_dingtalk, known_language}
use cpa_monitor.Cliproxy.Client
use cpa_monitor.Healthreport
use cpa_monitor.Monitor
use cpa_monitor.App.{
  megabytes, mul_int64, writer_options, mailer_options, dingtalk_options, health_options,
  runner_options,
}

-- A result that is a value.
abbrev pub is_made {ℓ} : {E : Type 0} {A : Type ℓ} → E ⊎ A → Bool
is_made (inl e) = false
is_made (inr a) = true

mul_int64-pos : (n : ℕ) → n * 1024 < 2 ^ 63 → mul_int64 (pos n) 1024 ≡ pos (n * 1024)
unfolding mul_int64 int64
mul_int64-pos n h = ground arith

-- The sizes that the configuration accepts are not cut.
pub megabytes-pos : (n : ℕ) → n ≤ Check.max_megabytes → megabytes (pos n) ≡ pos (n * 1024 * 1024)
unfolding megabytes
megabytes-pos n h =
    ap (λ x. mul_int64 x 1024) (mul_int64-pos n (omega arith))
    ∙ mul_int64-pos (n * 1024) (omega arith)

known_level-cases :
    (t : Text)
    → Check.known_level t ≡ true
    → (t ≡ str "debug") ⊎ ((t ≡ str "info") ⊎ ((t ≡ str "warn") ⊎ (t ≡ str "error")))
unfolding Check.known_level text_mem
known_level-cases t h = ground (
  arith,
  text_eq_iff (str "debug") t,
  text_eq_iff (str "info") t,
  text_eq_iff (str "warn") t,
  text_eq_iff (str "error") t,
)

parse_level-known :
    (t : Text)
    → (t ≡ str "debug") ⊎ ((t ≡ str "info") ⊎ ((t ≡ str "warn") ⊎ (t ≡ str "error")))
    → is_some (parse_level t) ≡ true
unfolding parse_level str text_eq trim_space trim_left is_space lower_rune
parse_level-known t (inl e) = rw (e) refl
parse_level-known t (inr (inl e)) = rw (e) refl
parse_level-known t (inr (inr (inl e))) = rw (e) refl
parse_level-known t (inr (inr (inr e))) = rw (e) refl

-- A text that is not empty has a channel's name.
pub valid_channel-cases :
    (t : Text) → Check.valid_channel t ≡ true → (t ≡ str "smtp") ⊎ (t ≡ str "dingtalk")
unfolding Check.valid_channel
valid_channel-cases t h = ground (arith, text_eq_iff t (str "smtp"), text_eq_iff t (str "dingtalk"))

mailbox_address-some :
    (n : Nets) (v : Text) → valid_mailbox n v ≡ true → is_some (Mailer.mailbox_address n v) ≡ true
unfolding valid_mailbox Mailer.mailbox_address
mailbox_address-some n v h = ground arith

recipient_addresses-some :
    (n : Nets) (vs : List Text)
    → Check.all_mailboxes n vs ≡ true
    → is_some (Mailer.recipient_addresses n vs) ≡ true
unfolding Check.all_mailboxes Mailer.recipient_addresses
recipient_addresses-some n [] h = refl
recipient_addresses-some n (v ∷ vs) h =
    ground (arith, mailbox_address-some n v, recipient_addresses-some n vs)

parse_envelope-made :
    (n : Nets) (from : Text) (to : List Text)
    → valid_mailbox n from ≡ true
    → is_empty to ≡ false
    → Check.all_mailboxes n to ≡ true
    → is_made (Mailer.parse_envelope n from to) ≡ true
unfolding Mailer.parse_envelope
parse_envelope-made n from to h k l =
    ground (arith, mailbox_address-some n from, recipient_addresses-some n to)

megabytes_accepted :
    (x : ℤ)
    → ltb 0 (pos_part x) ≡ true
    → ltb Check.max_megabytes (pos_part x) ≡ false
    → megabytes x ≡ pos (pos_part x * 1024 * 1024)
megabytes_accepted (pos n) h k = megabytes-pos n (ground arith)
megabytes_accepted (negsuc n) h k = absurd (ground arith)

pub scheme_present : (s : Text) → is_http s ≡ true ⊎ is_https s ≡ true → is_empty s ≡ false
unfolding is_http is_https equal_fold_ascii text_eq str
scheme_present [] h = ground arith
scheme_present (x ∷ s) h = refl

pub url_error-none :
    (n : Nets) (u : Url)
    → url_error n u ≡ none
    → (is_http u.scheme && not (is_loopback_host n u.hostname)) ≡ false
    → u.force_query ≡ false
    → Client.url_error n u ≡ none
unfolding url_error Client.url_error
url_error-none n u h k l = ground (arith, scheme_present u.scheme)

language_present : (t : Text) → Check.valid_language t ≡ true → is_empty t ≡ false
unfolding Check.valid_language text_eq str
language_present [] h = ground arith
language_present (x ∷ s) h = refl

with_language-eq : (o : MailerOptions) → is_empty o.language ≡ false → Mailer.with_language o ≡ o
unfolding Mailer.with_language
with_language-eq o h = ground (arith, h)

after_envelope-made :
    (o : MailerOptions) (r : MailerError ⊎ (Text × List Text))
    → is_made r ≡ true
    → Check.same (is_empty o.username) (is_empty o.password) ≡ true
    → Mailer.contains_credential_control o.username ≡ false
    → Mailer.contains_credential_control o.password ≡ false
    → Check.same o.start_tls o.direct_tls ≡ false
    → ltb 0 (pos_part o.timeout) ≡ true
    → Check.valid_language o.language ≡ true
    → is_made (Mailer.after_envelope o r) ≡ true
unfolding Mailer.after_envelope Check.valid_language Mailer.valid_language
after_envelope-made o (inl e) m h k l t p v = cc
after_envelope-made o (inr (from, to)) m h k l t p v = ground arith

module _ {F : Type 0} where
  pub new_runner-made :
      (fl : Floats F) (c : Settings F) (p : ℤ)
      → Check.threshold_error fl c ≡ none
      → in_port_range p ≡ true
      → is_made (Monitor.new_runner fl (runner_options c p)) ≡ true
  unfolding Check.threshold_error Check.bad_percent Monitor.bad_percent Monitor.new_runner
      in_port_range
  new_runner-made fl c p h k = ground arith

  pub new_manager-made :
      (c : Settings F) (hostname : Text)
      → Check.alerts_error c ≡ none
      → is_empty c.cliproxy.base_url ≡ false
      → is_empty hostname ≡ false
      → is_made (Healthreport.new_manager (health_options c hostname)) ≡ true
  unfolding Check.alerts_error Healthreport.new_manager
  new_manager-made c hostname h k l = ground arith

  pub new_dingtalk-made :
      (c : Settings F)
      → Check.dingtalk_error c.dingtalk ≡ none
      → is_made (new_dingtalk (dingtalk_options c)) ≡ true
  unfolding Check.dingtalk_error new_dingtalk known_language Check.valid_language
      Check.contains_unsafe_value
  new_dingtalk-made c h = ground (
    arith,
    has_space_or_control-line c.dingtalk.webhook_token,
    has_space_or_control-line c.dingtalk.signing_secret,
  )

  pub parse_level-some :
      (c : Settings F) → Check.logging_error c ≡ none → is_some (parse_level c.logging.level) ≡ true
  unfolding Check.logging_error
  parse_level-some c h =
      ground (arith, known_level-cases c.logging.level, parse_level-known c.logging.level)

  pub options_error-none :
      (c : Settings F)
      → Check.file_error c.logging.file ≡ none
      → options_error (writer_options c) ≡ none
  unfolding Check.file_error options_error below
  options_error-none c h =
      let size = megabytes_accepted c.logging.file.max_size_mb (ground arith) (ground arith) in
      let total =
        megabytes_accepted c.logging.file.max_total_size_mb (ground arith) (ground arith) in
      rw (size, total) (ground arith)

  pub new_client-made :
      (n : Nets) (c : Settings F) {u : Url}
      → ltb 0 (pos_part c.cliproxy.timeout) ≡ true
      → is_blank c.cliproxy.management_key ≡ false
      → Client.valid_header_value c.cliproxy.management_key ≡ true
      → n.parse_url c.cliproxy.base_url ≡ some u
      → Client.url_error n u ≡ none
      → is_made
          (Client.new_client n c.cliproxy.base_url c.cliproxy.management_key c.cliproxy.timeout)
        ≡ true
  unfolding Client.new_client
  new_client-made n c h k l e z = ground (arith, e, z)

  pub new_mailer-made :
      (n : Nets) (c : Settings F)
      → Check.smtp_error n c.smtp ≡ none
      → Mailer.contains_credential_control c.smtp.username ≡ false
      → Mailer.contains_credential_control c.smtp.password ≡ false
      → is_made (new_mailer n (mailer_options c)) ≡ true
  unfolding new_mailer Mailer.new_in_language Check.smtp_error in_port_range
  new_mailer-made n c h k l =
      let language : Check.valid_language c.smtp.language ≡ true = ground arith in
      let envelope =
        parse_envelope-made n c.smtp.from c.smtp.to (ground arith) (ground arith) (ground arith) in
      let made =
        after_envelope-made (mailer_options c) _ envelope (ground arith) k l (ground arith)
          (ground arith) language in
      rw (with_language-eq (mailer_options c) (language_present c.smtp.language language))
        (ground (arith, made))
