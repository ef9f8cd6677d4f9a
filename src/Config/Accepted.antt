-- ===== src/Config/Accepted.antt =====
-- What an accepted configuration has: the stages of `Validate` of internal/config/config.go one by one.
use cpa_monitor.Base.{
  Bool-cases, Option, Option-cases, Text, [], arith, atoi, char_mem, contains_any_char, false, inl,
  inr, is_control, is_space, none, refl, some, true, ℤ, ◌∷◌, ◌≡◌, ◌⊎◌,
}
use cpa_monitor.Rule.{Floats}
use cpa_monitor.Config.{Settings}
use cpa_monitor.Config.Url.{
  UrlError, Url, Nets, parse_base_url, url_error, accepted_url, in_port_range, has_space_or_control,
}
use cpa_monitor.Config.Check

pub first_of-none :
    (a b : Option Check.ConfigError) → Check.first_of a b ≡ none → (a ≡ none) × (b ≡ none)
unfolding Check.first_of
first_of-none none b h = (refl, h)
first_of-none (some e) b h = cc

module _ {F : Type 0} (fl : Floats F) (n : Nets) (c : Settings F) where
  pub record IsAccepted : Type 0 where
    pub thresholds : Check.threshold_error fl c ≡ none
    pub url : Check.base_url_error n (parse_base_url n c.cliproxy.base_url) ≡ none
    pub service : Check.service_error n c ≡ none
    pub alerts : Check.alerts_error c ≡ none
    pub channels : Check.channel_error n c ≡ none
    pub logging : Check.logging_error c ≡ none

  pub validate-IsAccepted : Check.validate fl n c ≡ none → IsAccepted
  unfolding Check.validate
  validate-IsAccepted h =
      let (t, h1) = first_of-none _ _ h in
      let (u, h2) = first_of-none _ _ h1 in
      let (s, h3) = first_of-none _ _ h2 in
      let (a, h4) = first_of-none _ _ h3 in
      let (ch, l) = first_of-none _ _ h4 in
      record { thresholds = t; url = u; service = s; alerts = a; channels = ch; logging = l }

  checked_port-range : (x : ℤ) {p : ℤ} → Check.checked_port x ≡ some p → in_port_range p ≡ true
  unfolding Check.checked_port
  checked_port-range x {p} h = elim (Bool-cases (in_port_range x)) [
    | inl e ↦ let same : some x ≡ some p = rw (← h, e) refl in ground (arith, same, e)
    | inr e ↦ ground (arith, e)
  ]

  atoi_port-range :
      (o : Option ℤ) {p : ℤ}
      → (elim o [ none ↦ none | some x ↦ Check.checked_port x ]) ≡ some p
      → in_port_range p ≡ true
  atoi_port-range none h = cc
  atoi_port-range (some x) h = checked_port-range x h

  url_port-range : (u : Url) {p : ℤ} → Check.url_port u ≡ some p → in_port_range p ≡ true
  unfolding Check.url_port in_port_range
  url_port-range u {p} h = ground (arith, atoi_port-range (atoi u.port) {p = p})

  parsed_port-range :
      (r : UrlError ⊎ Url) {p : ℤ}
      → (elim r [ inl e ↦ none | inr u ↦ Check.url_port u ]) ≡ some p
      → in_port_range p ≡ true
  parsed_port-range (inl e) h = cc
  parsed_port-range (inr u) h = url_port-range u h

  -- A service port is a port.
  pub service_port-range : {p : ℤ} → Check.service_port n c ≡ some p → in_port_range p ≡ true
  unfolding Check.service_port
  service_port-range {p} h = ground (
    arith,
    checked_port-range c.cliproxy.service_port {p = p},
    parsed_port-range (parse_base_url n c.cliproxy.base_url) {p = p},
  )

accepted_url-inr :
    (n : Nets) (v : Url) {u : Url} → accepted_url n v ≡ inr u → (v ≡ u) × (url_error n v ≡ none)
unfolding accepted_url
accepted_url-inr n v h = elim (Option-cases (url_error n v)) [
  | inl e ↦ (ground (arith, e), e)
  | inr (x, e) ↦ absurd (ground (arith, e))
]

-- The URL that a configuration is accepted with.
pub parse_base_url-inr :
    (n : Nets) (raw : Text) {u : Url}
    → parse_base_url n raw ≡ inr u
    → (n.parse_url raw ≡ some u) × (url_error n u ≡ none)
unfolding parse_base_url
parse_base_url-inr n raw {u} h = elim (Option-cases (n.parse_url raw)) [
  | inl e ↦ absurd (ground (arith, e))
  | inr (v, e) ↦
      let (same, clean) = accepted_url-inr n v {u = u} (ground (arith, e)) in
      (rw (same) at e, rw (same) at clean)
]

pub has_space_or_control-line :
    (s : Text) → has_space_or_control s ≡ false → contains_any_char s (13 ∷ 10 ∷ []) ≡ false
unfolding has_space_or_control contains_any_char char_mem is_control is_space
has_space_or_control-line [] h = refl
has_space_or_control-line (x ∷ s) h = ground (arith, has_space_or_control-line s)
