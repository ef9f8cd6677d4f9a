-- ===== src/Config/Url.antt =====
-- URLs, hosts and mailboxes of internal/config/config.go. What net/url, net and net/mail make of a
-- text is a parameter.
use cpa_monitor.Base.{
  Bool, List, Option, Text, [], atoi, contains_any_char, count_char, cut_last, drop,
  equal_fold_ascii, false, if◌then◌else◌, inl, inr, is_control, is_empty, is_none, is_some,
  is_space, leb, length, ltb, none, not, pos_part, some, split, starts_with, str, text_eq,
  trim_space, trim_suffix, true, ℕ, ℤ, ◌&&◌, ◌==◌, ◌||◌, ◌∷◌, ◌⊎◌,
}

-- `*url.URL`, as far as it is read, with `Hostname()`, `Port()` and `User != nil`.
pub record Url : Type 0 where
  pub scheme : Text
  pub host : Text
  pub hostname : Text
  pub port : Text
  pub has_user : Bool
  pub raw_query : Text
  pub force_query : Bool
  pub fragment : Text

-- `url.Parse`; `net.ParseIP`, with `IsLoopback`; the address of `mail.ParseAddress`.
pub record Nets : Type 0 where
  pub parse_url : Text → Option Url
  pub parse_ip : Text → Option Bool
  pub parse_address : Text → Option Text

pub data UrlError : Type 0 where
  surrounding_space invalid_url bad_scheme empty_host user_information query_or_fragment : UrlError
  bad_ipv6 empty_port bad_suffix unbracketed_ipv6 bad_port : UrlError

unfoldable pub is_http : Text → Bool
is_http scheme = equal_fold_ascii scheme (str "http")

unfoldable pub is_https : Text → Bool
is_https scheme = equal_fold_ascii scheme (str "https")

unfoldable pub ends_with_char : ℕ → Text → Bool
ends_with_char c s = not (text_eq (trim_suffix c s) s)

-- What follows the bracket of an IPv6 host.
unfoldable pub suffix_error : Text → Option UrlError
suffix_error suffix =
    if is_empty suffix
    then none
    else if text_eq suffix (b':' ∷ [])
    then some empty_port
    else if not (starts_with suffix (b':' ∷ []))
    then some bad_suffix
    else none

-- `validateURLAuthority`.
unfoldable pub authority_error : Nets → Text → Option UrlError
authority_error n authority =
    if starts_with authority (b'[' ∷ [])
    then (elim (cut_last b']' authority) [
      | none ↦ some bad_ipv6
      | some (before, suffix) ↦
          if is_none (n.parse_ip (drop 1 before)) then some bad_ipv6 else suffix_error suffix
    ])
    else if ltb 1 (count_char b':' authority)
    then some unbracketed_ipv6
    else if ends_with_char b':' authority
    then some empty_port
    else none

-- A port from 1 to 65535.
unfoldable pub in_port_range : ℤ → Bool
in_port_range p = leb 1 (pos_part p) && leb (pos_part p) 65535

unfoldable pub is_port : Text → Bool
is_port text = elim (atoi text) [ none ↦ false | some p ↦ in_port_range p ]

unfoldable pub port_error : Text → Option UrlError
port_error text = if not (is_empty text) && not (is_port text) then some bad_port else none

-- The tests of `parseBaseURL` on a parsed URL.
unfoldable pub url_error : Nets → Url → Option UrlError
url_error n u =
    if not (is_http u.scheme) && not (is_https u.scheme)
    then some bad_scheme
    else if is_empty u.host || is_empty u.hostname
    then some empty_host
    else if u.has_user
    then some user_information
    else if not (is_empty u.raw_query) || not (is_empty u.fragment)
    then some query_or_fragment
    else elim (authority_error n u.host) [ some e ↦ some e | none ↦ port_error u.port ]

unfoldable pub accepted_url : Nets → Url → UrlError ⊎ Url
accepted_url n u = elim (url_error n u) [ some e ↦ inl e | none ↦ inr u ]

-- `parseBaseURL`.
unfoldable pub parse_base_url : Nets → Text → UrlError ⊎ Url
parse_base_url n raw =
    if is_empty raw || not (text_eq raw (trim_space raw))
    then inl surrounding_space
    else elim (n.parse_url raw) [ none ↦ inl invalid_url | some u ↦ accepted_url n u ]

-- `isLoopbackHost`.
unfoldable pub is_loopback_host : Nets → Text → Bool
is_loopback_host n host =
    if equal_fold_ascii (trim_suffix b'.' host) (str "localhost")
    then true
    else elim (n.parse_ip host) [ none ↦ false | some loopback ↦ loopback ]

unfoldable pub is_label_char : ℕ → Bool
is_label_char c =
    (leb b'a' c && leb c b'z')
    || ((leb b'A' c && leb c b'Z') || ((leb b'0' c && leb c b'9') || c == b'-'))

unfoldable pub all_label_chars : Text → Bool
all_label_chars [] = true
all_label_chars (c ∷ s) = is_label_char c && all_label_chars s

-- One label of a host. Its length counts only where it is ASCII, and so bytes.
unfoldable pub is_label : Text → Bool
is_label label =
    not (is_empty label)
    && (leb (length label) 63
        && (not (starts_with label (b'-' ∷ []))
            && (not (ends_with_char b'-' label) && all_label_chars label)))

unfoldable pub all_labels : List Text → Bool
all_labels [] = true
all_labels (l ∷ ls) = is_label l && all_labels ls

unfoldable pub has_space_or_control : Text → Bool
has_space_or_control [] = false
has_space_or_control (c ∷ s) = is_space c || (is_control c || has_space_or_control s)

-- `validSMTPHost`.
unfoldable pub valid_smtp_host : Nets → Text → Bool
valid_smtp_host n host =
    let name = trim_suffix b'.' host in
    if is_empty host || (not (text_eq host (trim_space host)) || ltb 253 (length host))
    then false
    else if has_space_or_control host
    then false
    else if is_some (n.parse_ip host)
    then true
    else if contains_any_char host (str ":/[]")
    then false
    else if is_empty name
    then false
    else all_labels (split b'.' name)

-- The last `@` of an address stands between two texts.
unfoldable pub has_domain : Text → Bool
has_domain address = elim (cut_last b'@' address) [
  | none ↦ false
  | some (local, domain) ↦ not (is_empty local) && not (is_empty domain)
]

-- `validMailbox`.
unfoldable pub valid_mailbox : Nets → Text → Bool
valid_mailbox n value =
    if is_empty value || contains_any_char value (13 ∷ 10 ∷ [])
    then false
    else elim (n.parse_address value) [ none ↦ false | some address ↦ has_domain address ]
