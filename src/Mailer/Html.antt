-- ===== src/Mailer/Html.antt =====
-- The HTML of an alert or recovery mail: `emailShell`, `detailTable` and `renderAlertHTML` of
-- internal/mailer/message.go, and `html.EscapeString`.
use mathlib.Core.List.{flat_map}
use cpa_monitor.Base.{List, Text, [], if◌then◌else◌, str, ℕ, ◌++◌, ◌==◌, ◌∷◌}
use cpa_monitor.Mailer.Language.{english}

unfoldable pub html_rune : ℕ → Text
html_rune c =
    if c == b'&'
    then str "&amp;"
    else if c == 39
    then str "&#39;"
    else if c == b'<'
    then str "&lt;"
    else if c == b'>'
    then str "&gt;"
    else if c == 34
    then str "&#34;"
    else c ∷ []

-- `html.EscapeString`.
unfoldable pub html_escape : Text → Text
html_escape s = flat_map html_rune s

unfoldable pub shell_footer : Text → Text
shell_footer language =
    if english language
    then str
        "Automated infrastructure status from CPA Monitor. A plain-text version is included for compatibility."
    else str "此邮件由 CPA Monitor 自动发送，同时附带纯文本版本以兼容不同邮件客户端。"

-- `emailShell`; the language is one of the two that `validLanguage` accepts.
unfoldable pub email_shell : Text → Text → Text → Text
email_shell preheader content language =
    str "<!doctype html><html lang=\""
    ++ language
    ++ str
        "\"><head><meta charset=\"UTF-8\"><meta name=\"viewport\" content=\"width=device-width,initial-scale=1\"><title>CPA Monitor</title></head>"
    ++ str
        "<body style=\"margin:0;padding:0;background:#f4f7fb;color:#172033;font-family:-apple-system,BlinkMacSystemFont,'Segoe UI',Arial,sans-serif\">"
    ++ str "<div style=\"display:none;max-height:0;overflow:hidden;opacity:0\">"
    ++ html_escape preheader
    ++ str "</div>"
    ++ str
        "<table role=\"presentation\" width=\"100%\" cellspacing=\"0\" cellpadding=\"0\"><tr><td align=\"center\" style=\"padding:24px 12px\">"
    ++ str
        "<table role=\"presentation\" width=\"100%\" cellspacing=\"0\" cellpadding=\"0\" style=\"max-width:640px;background:#fff;border:1px solid #dbe3ef;border-radius:14px;box-shadow:0 8px 24px rgba(16,24,40,.06)\">"
    ++ str
        "<tr><td style=\"padding:18px 24px;border-bottom:1px solid #e7edf5;font-size:14px;font-weight:700;letter-spacing:.04em;color:#1d4ed8\">CPA MONITOR</td></tr>"
    ++ str "<tr><td style=\"padding:26px 24px\">"
    ++ content
    ++ str "</td></tr>"
    ++ str
        "<tr><td style=\"padding:16px 24px;border-top:1px solid #e7edf5;font-size:12px;line-height:1.5;color:#667085\">"
    ++ shell_footer language
    ++ str "</td></tr>"
    ++ str "</table></td></tr></table></body></html>"

-- A row of `detailTable`, with the border above it.
unfoldable pub detail_row : Text → Text × Text → Text
detail_row border r =
    str "<tr><td valign=\"top\" style=\""
    ++ border
    ++ str "padding:10px 12px;width:35%;font-size:13px;font-weight:600;color:#475467\">"
    ++ html_escape r.0
    ++ str "</td><td valign=\"top\" style=\""
    ++ border
    ++ str "padding:10px 12px;font-size:13px;word-break:break-word;color:#172033\">"
    ++ html_escape r.1
    ++ str "</td></tr>"

unfoldable pub detail_rows : Text → List (Text × Text) → Text
detail_rows border [] = []
detail_rows border (r ∷ rs) =
    detail_row border r ++ detail_rows (str "border-top:1px solid #e7edf5;") rs

-- `detailTable`.
unfoldable pub detail_table : List (Text × Text) → Text
detail_table rows =
    str
      "<table role=\"presentation\" width=\"100%\" cellspacing=\"0\" cellpadding=\"0\" style=\"border:1px solid #dbe3ef;border-radius:10px;border-collapse:separate;overflow:hidden\">"
    ++ detail_rows [] rows
    ++ str "</table>"

-- The content of `renderAlertHTML`, with the label of the details.
unfoldable pub alert_content : Text → Text → Text → Text → List (Text × Text) → Text → Text → Text
alert_content color background kind object rows label details =
    (10 ∷ [])
    ++ str
        "<table role=\"presentation\" width=\"100%\" cellspacing=\"0\" cellpadding=\"0\" style=\"border-collapse:separate;border-spacing:0 12px\">"
    ++ (10 ∷ [])
    ++ str "<tr><td><span style=\"display:inline-block;padding:7px 12px;border:1px solid "
    ++ color
    ++ str ";border-radius:999px;background:"
    ++ background
    ++ str ";color:"
    ++ color
    ++ str ";font-size:12px;font-weight:700;letter-spacing:.08em\">"
    ++ html_escape kind
    ++ str "</span></td></tr>"
    ++ (10 ∷ [])
    ++ str "<tr><td style=\"font-size:24px;line-height:1.3;font-weight:700;color:#172033\">"
    ++ html_escape object
    ++ str "</td></tr>"
    ++ (10 ∷ [])
    ++ str "</table>"
    ++ (10 ∷ [])
    ++ detail_table rows
    ++ (10 ∷ [])
    ++ str
        "<div style=\"margin-top:16px;padding:16px;border:1px solid #dbe3ef;border-radius:10px;background:#f8fafc\">"
    ++ (10 ∷ [])
    ++ str
        "<div style=\"font-size:12px;font-weight:700;letter-spacing:.06em;color:#475467;text-transform:uppercase\">"
    ++ html_escape label
    ++ str "</div>"
    ++ (10 ∷ [])
    ++ str
        "<pre style=\"margin:8px 0 0;white-space:pre-wrap;word-break:break-word;font:14px/1.55 ui-monospace,SFMono-Regular,Consolas,monospace;color:#344054\">"
    ++ html_escape details
    ++ str "</pre>"
    ++ (10 ∷ [])
    ++ str "</div>"
