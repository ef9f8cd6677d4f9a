-- ===== src/Notification/Formats.antt =====
-- What the senders of internal/dingtalk and internal/mailer use of float64 and of `time.Time` to write
-- a message, beside the comparisons: package math, strconv, time and fmt of Go.
use cpa_monitor.Base.{negsuc, pos, Bool, Option, Text, decimal, str, suc, ℕ, ℤ, ◌++◌, ◌∷◌}
use cpa_monitor.State.{Time}

-- `fixed` is `fmt.Sprintf("%.1f", x)`, `round` is `int(math.Round(x))`, and `parse_float` is
-- `strconv.ParseFloat(s, 64)` without its error. The layouts are "2006-01-02 15:04:05 UTC",
-- "2006-01-02 15:04 UTC" and `time.RFC3339` in UTC, and "01-02 15:04" and "15:04" in Beijing.
pub record Formats (F : Type 0) : Type 0 where
  pub of_int : ℤ → F
  pub eq : F → F → Bool
  pub minus : F → F → F
  pub times : F → F → F
  pub over : F → F → F
  pub round : F → ℤ
  pub fixed : F → Text
  pub parse_float : Text → Option F
  pub utc_seconds : Time → Text
  pub utc_minutes : Time → Text
  pub rfc3339 : Time → Text
  pub beijing_minutes : Time → Text
  pub beijing_clock : Time → Text
  pub beijing_date : Time → ℕ × ℕ × ℕ

-- `%d` of an int64.
unfoldable pub format_int : ℤ → Text
format_int (pos n) = decimal n
format_int (negsuc n) = b'-' ∷ decimal (suc n)

-- `fmt.Sprintf("%.1f%%", x)`, as in the messages.
unfoldable pub percent : {F : Type 0} → Formats F → F → Text
percent fm x = fm.fixed x ++ str "%"
