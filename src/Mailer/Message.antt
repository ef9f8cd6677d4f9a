-- ===== src/Mailer/Message.antt =====
-- The alert and recovery mails: `BuildMessageInLanguage` and `buildAlternative` of
-- internal/mailer/message.go, and `SendBatch` of internal/mailer/smtp.go.
use cpa_monitor.Base.{
  Bool, List, Option, Text, [], false, if◌then◌else◌, inl, inr, is_blank, join, map, none, not,
  some, str, text_eq, true, ◌&&◌, ◌++◌, ◌==◌, ◌||◌, ◌∷◌, ◌⊎◌,
}
use cpa_monitor.State.{Time, is_zero}
use cpa_monitor.Config.Url.{Nets}
use cpa_monitor.Notification.{Event, BatchError, known_kind}
use cpa_monitor.Notification.Formats.{Formats}
use cpa_monitor.Mailer.{MailerError, parse_envelope, valid_language}
use cpa_monitor.Mailer.Language.{
  contains_header_control, localized_kind, localized_threshold, localized_current, localized_object,
  is_recovery,
}
use cpa_monitor.Mailer.Html.{alert_content, email_shell}

abbrev pub crlf : Text
crlf = 13 ∷ 10 ∷ []

-- Packages mime, quotedprintable, net/mail and time: `mime.QEncoding.Encode`, the encoding of a body,
-- `Address.String` of what `ParseAddress` reads in a text, `time.RFC1123Z` and `UnixNano`.
pub record Mime : Type 0 where
  pub encode_word : Text → Text
  pub encode_body : Text → Text
  pub print_address : Text → Text
  pub rfc1123z : Time → Text
  pub unix_nano : Time → Text

-- The two random texts of a mail: its id, and the end of its boundary.
pub record Randoms : Type 0 where
  pub id : Text
  pub boundary : Text

pub data MailError : Type 0 where
  nil_context language_unknown bad_kind bad_object missing_fields no_random : MailError
  bad_envelope : MailerError → MailError
  batch_refused : BatchError → MailError

-- The first two replacements of `normalizeCRLF`: every line break is a line feed. The flag says that a
-- carriage return was just read.
unfoldable pub line_feeds : Bool → Text → Text
line_feeds returned [] = []
line_feeds returned (c ∷ s) =
    let after_return = line_feeds true s in
    let after_other = line_feeds false s in
    if c == 13
    then 10 ∷ after_return
    else if c == 10 && returned
    then after_other
    else c ∷ after_other

unfoldable pub with_returns : Text → Text
with_returns [] = []
with_returns (c ∷ s) = let rest = with_returns s in if c == 10 then 13 ∷ 10 ∷ rest else c ∷ rest

-- `normalizeCRLF`.
unfoldable pub normalize_crlf : Text → Text
normalize_crlf value = with_returns (line_feeds false value)

-- `writeHeader`.
unfoldable pub header : Text → Text → Text
header name value = name ++ str ": " ++ value ++ crlf

-- `writeBodyField`.
unfoldable pub body_field : Text → Text → Text
body_field name value = name ++ str ": " ++ normalize_crlf value ++ crlf

-- `writePart`.
unfoldable pub part : Mime → Text → Text → Text → Text
part mime boundary content_type body =
    str "--"
    ++ boundary
    ++ crlf
    ++ header (str "Content-Type") content_type
    ++ header (str "Content-Transfer-Encoding") (str "quoted-printable")
    ++ crlf
    ++ mime.encode_body (normalize_crlf body)
    ++ crlf

unfoldable pub whole_mail : Mime → Text → List Text → Time → Text → Text → Text → Randoms → Text
whole_mail mime from to timestamp subject plain html r =
    let boundary = str "cpa-monitor-" ++ r.boundary in
    header (str "From") (mime.print_address from)
    ++ header (str "To") (join (str ", ") (map mime.print_address to))
    ++ header (str "Date") (mime.rfc1123z timestamp)
    ++ header (str "Message-ID")
        (str "<" ++ mime.unix_nano timestamp ++ str "." ++ r.id ++ str "@cpa-monitor.local>")
    ++ header (str "Subject") (mime.encode_word subject)
    ++ header (str "MIME-Version") (str "1.0")
    ++ header (str "Content-Type")
        (str "multipart/alternative; boundary=\"" ++ boundary ++ str "\"")
    ++ crlf
    ++ part mime boundary (str "text/plain; charset=UTF-8") plain
    ++ part mime boundary (str "text/html; charset=UTF-8") html
    ++ str "--"
    ++ boundary
    ++ str "--"
    ++ crlf

-- `buildAlternative`.
unfoldable pub build_alternative :
    Nets → Mime → Text → List Text → Time → Text → Text → Text → Option Randoms → MailError ⊎ Text
build_alternative n mime from to timestamp subject plain html random =
    elim (parse_envelope n from to) [
      | inl e ↦ inl (bad_envelope e)
      | inr envelope ↦ elim random [
        | none ↦ inl no_random
        | some r ↦ inr (whole_mail mime from to timestamp subject plain html r)
      ]
    ]

-- `validateEvent`.
unfoldable pub event_error : Event → Option MailError
event_error e =
    if not (known_kind e.kind)
    then some bad_kind
    else if is_blank e.object || contains_header_control e.object
    then some bad_object
    else if is_blank e.hostname
        || (is_zero e.timestamp
            || (is_blank e.key || (contains_header_control e.key || is_blank e.base_url)))
    then some missing_fields
    else none

-- A label of `alertLabels`: the Chinese one, or the English one.
unfoldable pub label : Text → Text → Text → Text
label language chinese other = if text_eq language (str "zh-CN") then chinese else other

unfoldable pub shown_current : Event → Text → Text
shown_current e language =
    if text_eq language (str "zh-CN") && is_recovery e.kind
    then str "已恢复"
    else localized_current e.current language

module _ {F : Type 0} (fm : Formats F) where
  unfoldable pub plain_text : Event → Text → Text
  plain_text e language =
      body_field (label language (str "事件") (str "Event")) (localized_kind e.kind language)
      ++ body_field (label language (str "主机") (str "Host")) e.hostname
      ++ body_field (label language (str "时间") (str "Timestamp")) (fm.rfc3339 e.timestamp)
      ++ body_field (label language (str "告警键") (str "Alert key")) e.key
      ++ body_field (label language (str "当前值") (str "Current")) (shown_current e language)
      ++ body_field (label language (str "阈值") (str "Threshold"))
          (localized_threshold e.threshold language)
      ++ label language (str "技术详情") (str "Details")
      ++ str ":"
      ++ crlf
      ++ normalize_crlf e.details
      ++ crlf
      ++ body_field (label language (str "CLIProxyAPI 地址") (str "CLIProxyAPI base URL")) e.base_url

  -- `renderAlertHTML`, with the colors that `BuildMessageInLanguage` gives it.
  unfoldable pub alert_html : Event → Text → Text
  alert_html e language =
      let kind = localized_kind e.kind language in
      email_shell (kind ++ str " · CPA Monitor")
        (alert_content (if is_recovery e.kind then str "#166534" else str "#b42318")
          (if is_recovery e.kind then str "#dcfce7" else str "#fee4e2") kind
          (localized_object e language)
          ((label language (str "主机") (str "Host"), e.hostname)
            ∷ (label language (str "时间") (str "Timestamp"), fm.rfc3339 e.timestamp)
            ∷ (label language (str "告警键") (str "Alert key"), e.key)
            ∷ (label language (str "当前值") (str "Current"), shown_current e language)
            ∷ (
              label language (str "阈值") (str "Threshold"),
              localized_threshold e.threshold language,
            )
            ∷ (label language (str "CLIProxyAPI 地址") (str "CLIProxyAPI base URL"), e.base_url)
            ∷ [])
          (label language (str "技术详情") (str "Details")) e.details)
        language

  unfoldable pub mail_subject : Event → Text → Text
  mail_subject e language =
      str "[CPA Monitor] "
      ++ (if text_eq language (str "zh-CN")
          then localized_kind e.kind language ++ str "：" ++ localized_object e language
          else localized_kind e.kind (str "en") ++ str " " ++ e.object)

  module _ (n : Nets) (mime : Mime) (random : Option Randoms) where
    -- `BuildMessageInLanguage`.
    unfoldable pub build_message : Text → List Text → Event → Text → MailError ⊎ Text
    build_message from to e language =
        if not (valid_language language) then inl language_unknown else elim (event_error e) [
          | some err ↦ inl err
          | none ↦
              build_alternative n mime from to e.timestamp (mail_subject e language)
                (plain_text e language) (alert_html e language) random
        ]
