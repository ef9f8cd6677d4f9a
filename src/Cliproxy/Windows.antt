-- ===== src/Cliproxy/Windows.antt =====
-- The windows that `parseCodexQuota` of internal/cliproxy/quota.go gives.
use cpa_monitor.Base.{
  All, Bool, List, Option, Option-cases, Text, [], arith, false, if◌then◌else◌, inl, inr, is_empty,
  length, none, not, refl, some, subst, suc, true, ℕ, ◌||◌, ◌∷◌, ◌≡◌, ◌≤◌, ◌⊎◌,
}
use cpa_monitor.Rule.{Floats}
use cpa_monitor.Cliproxy.{Decoders}
use cpa_monitor.Notification.Health.{bad_used}
use cpa_monitor.Cliproxy.Quota.{
  no_rate_limit, Numbers, WindowKind, primary, secondary, CodexWindow, CodexQuota, WindowWire,
  RateLimitWire, UsageWire, QuotaError, first_of, finite_number, flexible_number, converted_percent,
  convert_codex_window, add_window, codex_windows, quota_of, parse_codex_quota, limit_is_reached,
  negative_value, plan_type_of,
}

module _ {F : Type 0} (fl : Floats F) where
  -- A number that is set is finite.
  abbrev pub is_finite : Option F → Bool
  is_finite none = true
  is_finite (some x) = not (fl.is_nan x || fl.is_inf x)

  abbrev pub IsFiniteWindow : Option (WindowWire F) → Type 0
  IsFiniteWindow none = Unit
  IsFiniteWindow (some w) =
      (is_finite w.used_percent ≡ true) × (is_finite w.used_percent_camel ≡ true)

  abbrev pub IsFiniteLimit : Option (RateLimitWire F) → Type 0
  IsFiniteLimit none = Unit
  IsFiniteLimit (some r) =
      IsFiniteWindow r.primary_window
      × IsFiniteWindow r.primary_window_camel
      × IsFiniteWindow r.secondary_window
      × IsFiniteWindow r.secondary_window_camel

  first_of-IsFiniteWindow :
      (a b : Option (WindowWire F))
      → IsFiniteWindow a
      → IsFiniteWindow b
      → IsFiniteWindow (first_of a b)
  unfolding first_of
  first_of-IsFiniteWindow none b x y = y
  first_of-IsFiniteWindow (some a) b x y = x

  first_of-IsFiniteLimit :
      (a b : Option (RateLimitWire F))
      → IsFiniteLimit a
      → IsFiniteLimit b
      → IsFiniteLimit (first_of a b)
  unfolding first_of
  first_of-IsFiniteLimit none b x y = y
  first_of-IsFiniteLimit (some a) b x y = x

  -- Windows whose used percentages are unknown or from 0 to 100.
  abbrev pub InRange : List (CodexWindow F) → Type 0
  InRange = All (λ w. bad_used fl w.used_percent ≡ false)

  abbrev Fits : ℕ → QuotaError ⊎ List (CodexWindow F) → Type 0
  Fits n (inl e) = Unit
  Fits n (inr ws) = (length ws ≤ n) × InRange ws

  module _ (nu : Numbers F) where
    finite_number-finite :
        (text : Text) (n : Option F) → finite_number fl nu text ≡ some n → is_finite n ≡ true
    unfolding finite_number
    finite_number-finite text n h = ground arith

    -- What `flexibleNumber` reads is finite, whatever the JSON value.
    flexible_number-finite :
        (d : Decoders) (raw : Text) (n : Option F)
        → flexible_number fl nu d raw ≡ some n
        → is_finite n ≡ true
    unfolding flexible_number
    flexible_number-finite d [] n h = ground arith
    flexible_number-finite d (c ∷ s) n h = elim (Option-cases (d.unquote (c ∷ s))) [
      | inl e ↦ ground (arith, finite_number-finite (c ∷ s) n)
      | inr (text, e) ↦ ground (arith, finite_number-finite (c ∷ s) n, finite_number-finite text n)
    ]

    converted_percent-bad_used :
        (a b u : Option F) (limited : Bool)
        → bad_used fl (some fl.hundred) ≡ false
        → is_finite a ≡ true
        → is_finite b ≡ true
        → converted_percent fl nu (first_of a b) limited ≡ some u
        → bad_used fl u ≡ false
    unfolding converted_percent first_of bad_used
    converted_percent-bad_used none none u limited h x y e = ground arith
    converted_percent-bad_used none (some b) u limited h x y e = ground arith
    converted_percent-bad_used (some a) b u limited h x y e = ground arith

    Converted : QuotaError ⊎ CodexWindow F → Type 0
    Converted (inl e) = Unit
    Converted (inr w) = bad_used fl w.used_percent ≡ false

    convert_codex_window-Converted :
        (w : WindowWire F) (k : WindowKind) (limited : Bool)
        → bad_used fl (some fl.hundred) ≡ false
        → IsFiniteWindow (some w)
        → Converted (convert_codex_window fl nu w k limited)
    unfolding Converted convert_codex_window
    convert_codex_window-Converted w k limited h x =
        elim (Option-cases
          (converted_percent fl nu (first_of w.used_percent w.used_percent_camel) limited)) [
            | inl e ↦ rw (e, convert_codex_window) tt
            | inr (u, e) ↦
                let fine =
                  converted_percent-bad_used w.used_percent w.used_percent_camel u limited h x.0 x.1
                    e in
                rw (e, convert_codex_window) (go _ _ fine)
          ]
      where
        go :
            (b : Bool) (v : CodexWindow F)
            → bad_used fl v.used_percent ≡ false
            → Converted (if b then inl (negative_value k) else inr v)
        go true v g = tt
        go false v g = g

    add_window-Fits :
        (o : Option (WindowWire F)) (k : WindowKind) (limited : Bool) (n : ℕ)
        (rest : QuotaError ⊎ List (CodexWindow F))
        → bad_used fl (some fl.hundred) ≡ false
        → IsFiniteWindow o
        → Fits n rest
        → Fits (suc n) (add_window fl nu o k limited rest)
    unfolding add_window Converted
    add_window-Fits none k limited n rest h x fit = more rest fit
      where
        more : (rest : QuotaError ⊎ List (CodexWindow F)) → Fits n rest → Fits (suc n) rest
        more (inl e) f = tt
        more (inr ws) f = (omega (arith, f.0), f.1)
    add_window-Fits (some w) k limited n rest h x fit =
        go (convert_codex_window fl nu w k limited) rest
          (convert_codex_window-Converted w k limited h x) fit
      where
        go :
            (c : QuotaError ⊎ CodexWindow F) (rest : QuotaError ⊎ List (CodexWindow F))
            → Converted c
            → Fits n rest
            → Fits (suc n) (elim c [
              | inl e ↦ inl e
              | inr w ↦ elim rest [ inl e ↦ inl e | inr ws ↦ inr (w ∷ ws) ]
            ])
        go (inl e) rest g f = tt
        go (inr w) (inl e) g f = tt
        go (inr w) (inr ws) g f = (omega (arith, f.0), (g, f.1))

    codex_windows-Fits :
        (r : RateLimitWire F)
        → bad_used fl (some fl.hundred) ≡ false
        → IsFiniteLimit (some r)
        → Fits 2 (codex_windows fl nu r)
    unfolding codex_windows
    codex_windows-Fits r h x =
        add_window-Fits _ primary (limit_is_reached fl nu r) 1 _ h
          (first_of-IsFiniteWindow r.primary_window r.primary_window_camel x.0 x.1)
          (add_window-Fits _ secondary (limit_is_reached fl nu r) 0 (inr []) h
            (first_of-IsFiniteWindow r.secondary_window r.secondary_window_camel x.2 x.3)
            (omega arith, tt))

    quota_of-Fits :
        (plan : Text) (ws : QuotaError ⊎ List (CodexWindow F)) (q : CodexQuota F)
        → Fits 2 ws
        → quota_of fl nu plan ws ≡ inr q
        → (is_empty q.windows ≡ false) × (length q.windows ≤ 2) × InRange q.windows
    unfolding quota_of
    quota_of-Fits plan (inl e) q f h = cc
    quota_of-Fits plan (inr []) q f h = cc
    quota_of-Fits plan (inr (w ∷ ws)) q f h =
        let same : w ∷ ws ≡ q.windows = ground arith in
        subst (λ vs. (is_empty vs ≡ false) × (length vs ≤ 2) × InRange vs) same (refl, f.0, f.1)

    -- A quota that is read from a response has one window or two, and each of them has a used
    -- percentage that a report accepts: if the numbers of the response are finite, as
    -- `flexibleNumber` makes sure, and 100 is such a percentage itself.
    pub parse_codex_quota-InRange :
        (wire : UsageWire F) (q : CodexQuota F)
        → bad_used fl (some fl.hundred) ≡ false
        → IsFiniteLimit wire.rate_limit
        → IsFiniteLimit wire.rate_limit_camel
        → parse_codex_quota fl nu (some wire) ≡ inr q
        → (is_empty q.windows ≡ false) × (length q.windows ≤ 2) × InRange q.windows
    unfolding parse_codex_quota
    parse_codex_quota-InRange wire q h x y e =
        go (first_of wire.rate_limit wire.rate_limit_camel)
          (first_of-IsFiniteLimit wire.rate_limit wire.rate_limit_camel x y) e
      where
        go :
            (o : Option (RateLimitWire F))
            → IsFiniteLimit o
            → (elim o [
              | none ↦ inl no_rate_limit
              | some r ↦ quota_of fl nu (plan_type_of fl nu wire) (codex_windows fl nu r)
            ])
              ≡ inr q
            → (is_empty q.windows ≡ false) × (length q.windows ≤ 2) × InRange q.windows
        go none f e = cc
        go (some r) f e = quota_of-Fits (plan_type_of fl nu wire) _ q (codex_windows-Fits r h f) e
