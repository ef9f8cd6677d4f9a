-- ===== src/Mailer/Lines.antt =====
-- The line breaks of a mail: `normalizeCRLF` of internal/mailer/message.go.
use cpa_monitor.Base.{
  Bool, Text, [], arith, false, if◌then◌else◌, not, refl, true, ◌&&◌, ◌==◌, ◌∷◌, ◌≡◌,
}
use cpa_monitor.Mailer.Message.{line_feeds, with_returns, normalize_crlf}

-- Every carriage return stands before a line feed, and every line feed behind one; the flag says that a
-- carriage return was just read.
unfoldable pub has_crlf : Bool → Text → Bool
has_crlf returned [] = not returned
has_crlf returned (c ∷ s) =
    let after_return = has_crlf true s in
    let after_other = has_crlf false s in
    if returned
    then c == 10 && after_other
    else if c == 13
    then after_return
    else not (c == 10) && after_other

line_feeds-returns : (r : Bool) (s : Text) → has_crlf false (with_returns (line_feeds r s)) ≡ true
unfolding line_feeds with_returns has_crlf
line_feeds-returns r [] = refl
line_feeds-returns r (c ∷ s) = ground (arith, line_feeds-returns true s, line_feeds-returns false s)

-- Whatever the line breaks of a text, in what `normalizeCRLF` makes of it carriage returns and line
-- feeds come only in pairs.
normalize_crlf-has_crlf : (value : Text) → has_crlf false (normalize_crlf value) ≡ true
unfolding normalize_crlf
normalize_crlf-has_crlf value = line_feeds-returns false value
