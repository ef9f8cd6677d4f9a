-- ===== src/App/Ready.antt =====
-- `buildRuntime` of internal/app/runtime.go on an accepted configuration.
use cpa_monitor.Base.{
  Bool, Bool-cases, List, Option, Text, [], arith, false, inl, inr, is_empty, is_some, none, not,
  refl, some, text_eq, text_eq_iff, true, ℤ, ◌&&◌, ◌∷◌, ◌≡◌, ◌⊎◌,
}
use cpa_monitor.Rule.{Floats}
use cpa_monitor.Config.{Settings, uses_channel}
use cpa_monitor.Config.Url.{Url, Nets, UrlError, parse_base_url, is_http, is_loopback_host}
use cpa_monitor.Config.Check
use cpa_monitor.Config.Accepted.{IsAccepted, parse_base_url-inr}
use cpa_monitor.Logfile.{WriterOptions}
use cpa_monitor.Cliproxy.Client
use cpa_monitor.Notification.Router.{
  NamedSender, Transport, Router, make_transport, add_fallback, new_router,
}
use cpa_monitor.App.{Outside, Channel, writer_options, build_log, channel_at}
use cpa_monitor.App.Build.{named_sender, build_alert_router, router_or_error, health_sender}
use cpa_monitor.App.Parts.{is_made, new_client-made, url_error-none, options_error-none}
use cpa_monitor.App.Start.{transport_made}

pub some-value : {A : Type 0} (o : Option A) → is_some o ≡ true → (a : A) × (o ≡ some a)
some-value none h = cc
some-value (some a) h = (a, refl)

pub made-value : {E A : Type 0} (r : E ⊎ A) → is_made r ≡ true → (a : A) × (r ≡ inr a)
made-value (inl e) h = cc
made-value (inr a) h = (a, refl)

-- The name of the fallback, empty where there is none.
abbrev pub fallback_name : {W : Type 0} → Router W → Text
fallback_name r = elim r.fallback [ none ↦ [] | some f ↦ f.name ]

uses_primary : {F : Type 0} (c : Settings F) → uses_channel c c.alerts.primary_channel ≡ true
unfolding uses_channel
uses_primary c = ground (arith, text_eq_iff c.alerts.primary_channel c.alerts.primary_channel)

uses_fallback : {F : Type 0} (c : Settings F) → uses_channel c c.alerts.fallback_channel ≡ true
unfolding uses_channel
uses_fallback c = ground (arith, text_eq_iff c.alerts.fallback_channel c.alerts.fallback_channel)

empty_text : (t : Text) → is_empty t ≡ true → [] ≡ t
empty_text [] h = refl
empty_text (c ∷ t) h = absurd (ground (arith, h))

mapped_some :
    {A B : Type 0} (f : A → B) (x : Option A)
    → is_some x ≡ true
    → is_some (elim x [ none ↦ none | some a ↦ some (f a) ]) ≡ true
mapped_some f none h = cc
mapped_some f (some a) h = refl

module _ {W : Type 0} where
  new_router_bare :
      (x : NamedSender W) {p : Transport W}
      → make_transport x ≡ some p
      → new_router x none ≡ inl (record { primary = p; fallback = none })
  unfolding new_router add_fallback
  new_router_bare x h = rw (h, new_router) refl

  add_fallback_lem :
      (p : Transport W) (y : NamedSender W) {f : Transport W}
      → make_transport y ≡ some f
      → text_eq f.name p.name ≡ false
      → add_fallback p (some y) ≡ inl (record { primary = p; fallback = some f })
  unfolding add_fallback
  add_fallback_lem p y h k = rw (h, k, add_fallback) refl

  new_router_both :
      (x y : NamedSender W) {p f : Transport W}
      → make_transport x ≡ some p
      → make_transport y ≡ some f
      → text_eq f.name p.name ≡ false
      → new_router x (some y) ≡ inl (record { primary = p; fallback = some f })
  unfolding new_router
  new_router_both x y {p} {f} h k d = rw (h, new_router) (add_fallback_lem p y {f = f} k d)

module _ {F W : Type 0} (o : Outside W) (c : Settings F) (ts : List (Text × Channel)) where
  abbrev HasRoutes : Type 0
  HasRoutes =
      (r : Router W) × (build_alert_router o c ts ≡ inr r)
      × (r.primary.name ≡ c.alerts.primary_channel)
      × (fallback_name r ≡ c.alerts.fallback_channel)

  router_bare :
      (p : Transport W)
      → make_transport (named_sender o ts c.alerts.primary_channel) ≡ some p
      → p.name ≡ c.alerts.primary_channel
      → is_empty c.alerts.fallback_channel ≡ true
      → HasRoutes
  unfolding build_alert_router router_or_error
  router_bare p h named bare = (
    record { primary = p; fallback = none },
    rw (bare, new_router_bare _ h, build_alert_router) refl,
    named,
    empty_text _ bare,
  )

  router_both :
      (p f : Transport W)
      → make_transport (named_sender o ts c.alerts.primary_channel) ≡ some p
      → p.name ≡ c.alerts.primary_channel
      → make_transport (named_sender o ts c.alerts.fallback_channel) ≡ some f
      → f.name ≡ c.alerts.fallback_channel
      → is_empty c.alerts.fallback_channel ≡ false
      → text_eq c.alerts.fallback_channel c.alerts.primary_channel ≡ false
      → HasRoutes
  unfolding build_alert_router router_or_error
  router_both p f h named k named' there other = (
    record { primary = p; fallback = some f },
    rw (there, build_alert_router, new_router_both _ _ h k (rw (named, named') other)) refl,
    named,
    named',
  )

  module _
      (held : (name : Text)
        → Check.valid_channel name ≡ true
        → uses_channel c name ≡ true
        → is_some (channel_at name ts) ≡ true)
      (checked : Check.alerts_error c ≡ none) where
    sender_made :
        (name : Text)
        → Check.valid_channel name ≡ true
        → uses_channel c name ≡ true
        → (t : Transport W) × (make_transport (named_sender o ts name) ≡ some t) × (t.name ≡ name)
    sender_made name v u =
        transport_made name _ v (mapped_some o.alert_sender (channel_at name ts) (held name v u))

    pub router_made : HasRoutes
    unfolding Check.alerts_error
    router_made =
        let (p, made, named) =
          sender_made c.alerts.primary_channel (ground (arith, checked)) (uses_primary c) in
        elim (Bool-cases (is_empty c.alerts.fallback_channel)) [
          | inl bare ↦ router_bare p made named bare
          | inr there ↦
              let (f, made', named') =
                sender_made c.alerts.fallback_channel (ground (arith, checked, there))
                  (uses_fallback c) in
              router_both p f made named made' named' there (ground (arith, checked))
        ]

    primary_held : is_some (channel_at c.alerts.primary_channel ts) ≡ true
    unfolding Check.alerts_error
    primary_held = held c.alerts.primary_channel (ground (arith, checked)) (uses_primary c)

    health_held : is_some (health_sender c ts) ≡ true
    unfolding health_sender
    health_held = ground (arith, primary_held)

    pub health_sender_made : (x : Channel) × (health_sender c ts ≡ some x)
    health_sender_made = some-value (health_sender c ts) health_held

base_url_accepted :
    (n : Nets) (r : UrlError ⊎ Url)
    → Check.base_url_error n r ≡ none
    → (v : Url) × (r ≡ inr v) × ((is_http v.scheme && not (is_loopback_host n v.hostname)) ≡ false)
unfolding Check.base_url_error
base_url_accepted n (inl e) h = cc
base_url_accepted n (inr v) h = (v, refl, ground (arith, h))

same_some : {A : Type 0} {x y : A} (o : Option A) → o ≡ some x → o ≡ some y → x ≡ y
same_some none h k = cc
same_some (some a) h k = cc

module _ {F : Type 0} (n : Nets) (c : Settings F) where
  pub port_made : Check.service_error n c ≡ none → (p : ℤ) × (Check.service_port n c ≡ some p)
  unfolding Check.service_error
  port_made h = some-value (Check.service_port n c) (ground (arith, h))

  pub log_made :
      (opens : WriterOptions → Bool)
      → Check.logging_error c ≡ none
      → opens (writer_options c) ≡ true
      → (l : Option WriterOptions) × (build_log opens c ≡ inr l)
  unfolding Check.logging_error build_log
  log_made opens h k = elim (Bool-cases c.logging.file.enabled) [
    | inr off ↦ (none, rw (off) refl)
    | inl on ↦
        (some (writer_options c), rw (on, options_error-none c (ground (arith, h, on)), k) refl)
  ]

  pub client_made :
      (fl : Floats F) {u : Url}
      → IsAccepted fl n c
      → Client.valid_header_value c.cliproxy.management_key ≡ true
      → n.parse_url c.cliproxy.base_url ≡ some u
      → u.force_query ≡ false
      → is_made
          (Client.new_client n c.cliproxy.base_url c.cliproxy.management_key c.cliproxy.timeout)
        ≡ true
  unfolding Check.service_error Check.threshold_error
  client_made fl a k e q =
      let (v, parsed, local) = base_url_accepted n (parse_base_url n c.cliproxy.base_url) a.url in
      let (known, clean) = parse_base_url-inr n c.cliproxy.base_url parsed in
      let bare : v.force_query ≡ false =
        rw (same_some (n.parse_url c.cliproxy.base_url) known e) q in
      let thresholds = a.thresholds in
      let service = a.service in
      new_client-made n c (ground (arith, thresholds)) (ground (arith, service)) k known
        (url_error-none n v clean local bare)

  pub base_url_present : (fl : Floats F) → IsAccepted fl n c → is_empty c.cliproxy.base_url ≡ false
  unfolding parse_base_url
  base_url_present fl a =
      let (v, parsed, local) = base_url_accepted n (parse_base_url n c.cliproxy.base_url) a.url in
      ground (arith, parsed)
