-- ===== src/App/Start.antt =====
-- `buildTransports`, `buildAlertRouter` and `buildRuntime` of internal/app/runtime.go on an accepted
-- configuration.
use cpa_monitor.Base.{
  Bool-cases, List, Option, Text, [], arith, false, inl, inr, is_blank, is_some, is_space, none,
  refl, some, str, text_eq, text_eq_iff, text_mem, trim_left, trim_space, true, ◌∷◌, ◌≡◌, ◌⊎◌,
}
use cpa_monitor.Config.{Settings, uses_channel}
use cpa_monitor.Config.Url.{Nets}
use cpa_monitor.Config.Check
use cpa_monitor.Config.Accepted.{first_of-none}
use cpa_monitor.Mailer
use cpa_monitor.Notification.Router.{Transport, make_transport, Sender}
use cpa_monitor.App.{
  Channel, BuildError, ◌>>=◌, wrapped, required, build_channel, build_used, build_transports,
  channel_at, bad_dingtalk, bad_mailer, dingtalk, dingtalk_options, mailer_options, smtp,
}
use cpa_monitor.App.Parts.{is_made, valid_channel-cases, new_dingtalk-made, new_mailer-made}
use cpa_monitor.Dingtalk.{new_dingtalk}

>>=-made :
    {A B : Type 0} (r : BuildError ⊎ A) (f : A → BuildError ⊎ B)
    → is_made r ≡ true
    → ((a : A) → r ≡ inr a → is_made (f a) ≡ true)
    → is_made (r >>= f) ≡ true
>>=-made (inl e) f h k = cc
>>=-made (inr a) f h k = k a refl

required-made :
    {A : Type 0} (e : BuildError) (o : Option A) → is_some o ≡ true → is_made (required e o) ≡ true
required-made e none h = cc
required-made e (some a) h = refl

required-inr :
    {A : Type 0} (e : BuildError) (o : Option A) {a : A} → required e o ≡ inr a → o ≡ some a
required-inr e none h = cc
required-inr e (some x) h = cc

wrapped-made :
    {E A : Type 0} (name : E → BuildError) (r : E ⊎ A)
    → is_made r ≡ true
    → is_made (wrapped name r) ≡ true
wrapped-made name (inl e) h = cc
wrapped-made name (inr a) h = refl

-- The names of the channels are trimmed.
channel_name : (t : Text) → Check.valid_channel t ≡ true → (is_blank t ≡ false) × (trim_space t ≡ t)
unfolding is_blank trim_space trim_left is_space str
channel_name t h = elim (valid_channel-cases t h) [
  | inl e ↦ rw (e) (refl, refl)
  | inr e ↦ rw (e) (refl, refl)
]

made-value : {A : Type 0} (r : BuildError ⊎ A) → is_made r ≡ true → (a : A) × (r ≡ inr a)
made-value (inl e) h = cc
made-value (inr a) h = (a, refl)

-- The loop of `buildTransports` runs over the channels there are.
valid_channel-mem :
    (name : Text)
    → Check.valid_channel name ≡ true
    → text_mem name (str "smtp" ∷ str "dingtalk" ∷ []) ≡ true
unfolding text_mem
valid_channel-mem name v = elim (valid_channel-cases name v) [
  | inl e ↦ ground (arith, text_eq_iff (str "smtp") name, e)
  | inr e ↦ ground (arith, text_eq_iff (str "dingtalk") name, e)
]

mem-valid_channel :
    (name : Text)
    → text_mem name (str "smtp" ∷ str "dingtalk" ∷ []) ≡ true
    → Check.valid_channel name ≡ true
unfolding text_mem Check.valid_channel
mem-valid_channel name m = ground (
  arith,
  text_eq_iff (str "smtp") name,
  text_eq_iff (str "dingtalk") name,
  text_eq_iff name (str "smtp"),
  text_eq_iff name (str "dingtalk"),
)

module _ {F : Type 0} (n : Nets) (c : Settings F) where
  smtp_made :
      Check.channel_error n c ≡ none
      → uses_channel c (str "smtp") ≡ true
      → Mailer.contains_credential_control c.smtp.username ≡ false
      → Mailer.contains_credential_control c.smtp.password ≡ false
      → is_made (build_channel n c (str "smtp")) ≡ true
  unfolding build_channel Check.channel_error text_eq str
  smtp_made h u k l =
      let (checked, rest) = first_of-none _ _ h in
      let made = wrapped-made bad_mailer _ (new_mailer-made n c (ground (arith, checked, u)) k l) in
      >>=-made (wrapped bad_mailer (Mailer.new_mailer n (mailer_options c))) (λ m. inr (smtp m))
        made (λ m e. refl)

  dingtalk_made :
      Check.channel_error n c ≡ none
      → uses_channel c (str "dingtalk") ≡ true
      → is_made (build_channel n c (str "dingtalk")) ≡ true
  unfolding build_channel Check.channel_error text_eq str
  dingtalk_made h u =
      let (rest, checked) = first_of-none _ _ h in
      let made = wrapped-made bad_dingtalk _ (new_dingtalk-made c (ground (arith, checked, u))) in
      >>=-made (wrapped bad_dingtalk (new_dingtalk (dingtalk_options c))) (λ m. inr (dingtalk m))
        made (λ m e. refl)

  -- Every channel of the list that is used is built.
  abbrev IsBuilt : List Text → Type 0
  IsBuilt channels =
      (name : Text)
      → text_mem name channels ≡ true
      → uses_channel c name ≡ true
      → is_made (build_channel n c name) ≡ true

  abbrev Holds : List Text → List (Text × Channel) → Type 0
  Holds channels ts =
      (name : Text)
      → text_mem name channels ≡ true
      → uses_channel c name ≡ true
      → is_some (channel_at name ts) ≡ true

  Holds-cons :
      (channel : Text) (x : Channel) (channels : List Text) (ts : List (Text × Channel))
      → Holds channels ts
      → Holds (channel ∷ channels) ((channel, x) ∷ ts)
  unfolding text_mem channel_at
  Holds-cons channel x channels ts h name m u = ground (arith, h name)

  Holds-skip :
      (channel : Text) (channels : List Text) (ts : List (Text × Channel))
      → uses_channel c channel ≡ false
      → Holds channels ts
      → Holds (channel ∷ channels) ts
  unfolding text_mem
  Holds-skip channel channels ts e h name m u = elim (Bool-cases (text_eq channel name)) [
    | inl same ↦ let k = text_eq_iff channel name in absurd (ground (arith, k, same, e, u))
    | inr other ↦ h name (ground (arith, other)) u
  ]

  build_used-Holds :
      (channels : List Text)
      → IsBuilt channels
      → (ts : List (Text × Channel)) × (build_used n c channels ≡ inr ts) × Holds channels ts
  unfolding build_used text_mem
  build_used-Holds [] h = ([], refl, λ name m u. absurd (ground (arith, m)))
  build_used-Holds (channel ∷ channels) h =
      let (ts, e, held) = build_used-Holds channels (λ name m u. h name (ground (arith, m)) u) in
      elim (Bool-cases (uses_channel c channel)) [
        | inr unused ↦ (ts, ground (arith, unused, e), Holds-skip channel channels ts unused held)
        | inl used ↦
            let (x, made) =
              made-value (build_channel n c channel)
                (h channel (ground (arith, text_eq_iff channel channel)) used) in
            (
              (channel, x) ∷ ts,
              ground (arith, used, made, e),
              Holds-cons channel x channels ts held,
            )
      ]

  -- Both transports, where they are used.
  pub transports_made :
      Check.channel_error n c ≡ none
      → Mailer.contains_credential_control c.smtp.username ≡ false
      → Mailer.contains_credential_control c.smtp.password ≡ false
      → (ts : List (Text × Channel)) × (build_transports n c ≡ inr ts)
        × ((name : Text)
            → Check.valid_channel name ≡ true
            → uses_channel c name ≡ true
            → is_some (channel_at name ts) ≡ true)
  unfolding build_transports text_mem
  transports_made h k l =
      let built : IsBuilt (str "smtp" ∷ str "dingtalk" ∷ []) = λ name m u.
        elim (valid_channel-cases name (mem-valid_channel name m)) [
          | inl e ↦ rw (e) (smtp_made h (rw (e) at u) k l)
          | inr e ↦ rw (e) (dingtalk_made h (rw (e) at u))
        ] in
      let (ts, made, held) = build_used-Holds (str "smtp" ∷ str "dingtalk" ∷ []) built in
      (ts, made, λ name v u. held name (valid_channel-mem name v) u)

pub transport_made :
    {W : Type 0} (name : Text) (send : Option (Sender W))
    → Check.valid_channel name ≡ true
    → is_some send ≡ true
    → (t : Transport W) × (make_transport (record { name = name; sender = send }) ≡ some t)
      × (t.name ≡ name)
unfolding make_transport
transport_made name none v h = cc
transport_made name (some s) v h =
    let (visible, trimmed) = channel_name name v in
    (record { name = trim_space name; send = s }, rw (visible) refl, trimmed)
