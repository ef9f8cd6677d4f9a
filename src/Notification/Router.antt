-- ===== src/Notification/Router.antt =====
-- The primary and fallback transports: internal/notification/router.go. A sender acts on a world
-- `W`, which stands for the network and everything else outside the program.
use cpa_monitor.Base.{
  text_eq_iff, Option-cases, Bool, Option, Text, arith, if◌then◌else◌, inl, inr, is_blank, none,
  some, text_eq, trim_space, ◌≡◌, ◌≢◌, ◌⊎◌,
}
use cpa_monitor.Notification.{Batch}

-- What `errors.Is` and the log can tell of a failed delivery: who failed, in order.
pub data SendError : Type 0 where
  not_initialized : SendError
  transport : Text → SendError
  through : Text → SendError → SendError
  both : SendError → SendError → SendError

pub data RouterError : Type 0 where
  primary_required fallback_invalid fallback_same : RouterError

module _ (W : Type 0) where
  abbrev pub Sender : Type 0
  Sender = Batch → W → Option SendError × W

  -- A nil sender is `none`.
  pub record NamedSender : Type 0 where
    pub name : Text
    pub sender : Option Sender

  -- A transport that is there.
  pub record Transport : Type 0 where
    pub name : Text
    pub send : Sender

  pub record Router : Type 0 where
    pub primary : Transport
    pub fallback : Option Transport

module _ {W : Type 0} where
  unfoldable pub make_transport : NamedSender W → Option (Transport W)
  make_transport n = if is_blank n.name then none else elim n.sender [
    | none ↦ none
    | some s ↦ some (record { name = trim_space n.name; send = s })
  ]

  unfoldable pub add_fallback : Transport W → Option (NamedSender W) → Router W ⊎ RouterError
  add_fallback p none = inl (record { primary = p; fallback = none })
  add_fallback p (some n) = elim (make_transport n) [
    | none ↦ inr fallback_invalid
    | some f ↦
        if text_eq f.name p.name
        then inr fallback_same
        else inl (record { primary = p; fallback = some f })
  ]

  -- `NewRouter`.
  unfoldable pub new_router : NamedSender W → Option (NamedSender W) → Router W ⊎ RouterError
  new_router primary fallback = elim (make_transport primary) [
    | none ↦ inr primary_required
    | some p ↦ add_fallback p fallback
  ]

  unfoldable pub use_fallback :
      Router W → SendError → Batch → Transport W → W → Option SendError × W
  use_fallback r e b f w =
      let (result, w') = f.send b w in
      elim result [
        | none ↦ (none, w')
        | some e' ↦ (some (both (through r.primary.name e) (through f.name e')), w')
      ]

  unfoldable pub after_primary :
      Router W → Batch → Option SendError → (W → Bool) → W → Option SendError × W
  after_primary r b none cancelled w = (none, w)
  after_primary r b (some e) cancelled w = elim r.fallback [
    | none ↦ (some (through r.primary.name e), w)
    | some f ↦ if cancelled w then (some (through r.primary.name e), w) else use_fallback r e b f w
  ]

  -- `SendBatch`; `cancelled` is `ctx.Err() != nil`, read in the world in which it is asked.
  unfoldable pub send_batch : Router W → (W → Bool) → Sender W
  send_batch r cancelled b w =
      let (result, w') = r.primary.send b w in after_primary r b result cancelled w'

  add_fallback-names :
      (p : Transport W) (f : Option (NamedSender W)) {r : Router W} {g : Transport W}
      → add_fallback p f ≡ inl r
      → r.fallback ≡ some g
      → g.name ≢ r.primary.name
  unfolding add_fallback
  add_fallback-names p none h k = cc
  add_fallback-names p (some n) {r} {g} h k = elim (Option-cases (make_transport n)) [
    | inl e ↦ absurd (ground (arith, e))
    | inr (t, e) ↦ ground (arith, e, text_eq_iff t.name p.name, text_eq_iff g.name r.primary.name)
  ]

  -- If `NewRouter` succeeds and the router has a fallback, its name is not the primary's.
  new_router-names :
      (p : NamedSender W) (f : Option (NamedSender W)) {r : Router W} {g : Transport W}
      → new_router p f ≡ inl r
      → r.fallback ≡ some g
      → g.name ≢ r.primary.name
  unfolding new_router
  new_router-names p f {r} {g} h k = elim (Option-cases (make_transport p)) [
    | inl e ↦ absurd (ground (arith, e))
    | inr (t, e) ↦ add_fallback-names t f {r = r} (ground (arith, e)) k
  ]
