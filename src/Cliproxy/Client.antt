-- ===== src/Cliproxy/Client.antt =====
-- `New` of internal/cliproxy/client.go: what the client accepts.
use cpa_monitor.Base.{
  Bool, Option, Text, [], false, if◌then◌else◌, inl, inr, is_blank, is_empty, leb, lower_rune, ltb,
  map, none, not, pos_part, some, true, ℕ, ℤ, ◌&&◌, ◌==◌, ◌||◌, ◌∷◌, ◌⊎◌,
}
use cpa_monitor.Config.Url.{Url, Nets, is_http, is_https, is_loopback_host}

pub data ClientError : Type 0 where
  empty_key bad_key bad_timeout invalid_url not_absolute bad_scheme plain_http user_information
        query_or_fragment :
      ClientError

pub record Client : Type 0 where
  pub base_url : Url
  pub management_key : Text
  pub timeout : ℕ

-- `validHeaderValue`. A character above ASCII has only bytes above 127.
unfoldable pub valid_header_value : Text → Bool
valid_header_value [] = true
valid_header_value (c ∷ s) = if leb c 31 || c == 127 then false else valid_header_value s

-- The tests of `New` on the parsed URL.
unfoldable pub url_error : Nets → Url → Option ClientError
url_error n u =
    if is_empty u.scheme || is_empty u.hostname
    then some not_absolute
    else if not (is_http u.scheme) && not (is_https u.scheme)
    then some bad_scheme
    else if is_http u.scheme && not (is_loopback_host n u.hostname)
    then some plain_http
    else if u.has_user
    then some user_information
    else if not (is_empty u.raw_query) || (u.force_query || not (is_empty u.fragment))
    then some query_or_fragment
    else none

-- `New`.
unfoldable pub new_client : Nets → Text → Text → ℤ → ClientError ⊎ Client
new_client n base_url management_key timeout =
    if is_blank management_key
    then inl empty_key
    else if not (valid_header_value management_key)
    then inl bad_key
    else if not (ltb 0 (pos_part timeout))
    then inl bad_timeout
    else elim (n.parse_url base_url) [
      | none ↦ inl invalid_url
      | some u ↦ elim (url_error n u) [
        | some e ↦ inl e
        | none ↦ inr (record {
          base_url = record u { scheme = map lower_rune u.scheme };
          management_key = management_key;
          timeout = pos_part timeout;
        })
      ]
    ]
