-- ===== src/Healthreport/Coherent.antt =====
-- The report that internal/healthreport/manager.go makes of a snapshot of internal/monitor/runner.go:
-- what both senders test of it.
use cpa_monitor.Base.{
  List, int_ltb, int_eq, is_negative, is_empty, pos, Option-cases, Text, [], arith, false, inl, inr,
  is_blank, length, refl, suc, true, ℕ, ◌∷◌, ◌≡◌, ◌≤◌, ◌⊎◌,
}
use cpa_monitor.State.{is_zero}
use cpa_monitor.Rule.{Floats}
use cpa_monitor.Collector.{DiskBatch, TcpUsage}
use cpa_monitor.Cliproxy.{AuthFile, Decoders}
use cpa_monitor.Monitor
use cpa_monitor.Monitor.{
  Runner, World, enabled_account_usages, accounts_of, account_count_of, snapshot,
}
use cpa_monitor.Monitor.Cycle.{succeeded}
use cpa_monitor.Notification.Health.{HealthReport, validate_version_info}
use cpa_monitor.Healthreport.{
  Outside, Manager, VersionStatus, version_candidate, add_version, base_report, health_report,
  reported_usages,
}

length-enabled :
    (d : Decoders) (i : ℕ) (fs : List AuthFile) → length (enabled_account_usages d i fs) ≤ length fs
unfolding enabled_account_usages
length-enabled d i [] = omega arith
length-enabled d i (f ∷ fs) = ground (arith, length-enabled d (suc i) fs)

-- The host, the times and the base URL are set, and the counts of accounts agree.
abbrev pub IsCoherent : {F : Type 0} → HealthReport F → Type 0
IsCoherent r =
    (is_blank r.hostname ≡ false)
    × (is_zero r.timestamp ≡ false)
    × (is_zero r.next_scheduled_at ≡ false)
    × (is_blank r.base_url ≡ false)
    × (is_negative r.account_count ≡ false)
    × (is_negative r.enabled_account_count ≡ false)
    × (int_ltb r.account_count r.enabled_account_count ≡ false)
    × (int_eq r.enabled_account_count (pos (length r.account_usages)) ≡ true)
    × ((r.account_usage_available ≡ true)
        ⊎ ((int_eq r.account_count (pos 0) ≡ true)
            × (int_eq r.enabled_account_count (pos 0) ≡ true)
            × (is_empty r.account_usages ≡ true)))

module _ {F : Type 0} (fl : Floats F) (o : Outside F) where
  -- What does not depend on the version stays when the version is added.
  pub add_version-keeps {κ} :
      (P : HealthReport F → Type κ)
      → ((r : HealthReport F) (status : VersionStatus) → P r → P (version_candidate fl o r status))
      → (r : HealthReport F) → P r
      → P (add_version fl o r)
  unfolding add_version
  add_version-keeps P keeps r p = elim (Option-cases o.version_status) [
    | inl absent ↦ rw (absent, add_version) p
    | inr (inl err, failed) ↦ rw (failed, add_version) p
    | inr (inr status, found) ↦
        elim (Option-cases (validate_version_info (version_candidate fl o r status))) [
          | inl ok ↦ rw (found, ok, add_version) (keeps r status p)
          | inr (e, bad) ↦ rw (found, bad, add_version) p
        ]
  ]

  length-reported :
      (i : ℕ) (us : List Monitor.AccountUsage) → length (reported_usages fl o i us) ≡ length us
  unfolding reported_usages
  length-reported i [] = refl
  length-reported i (u ∷ us) = omega (arith, length-reported (suc i) us)

  module _ (cfg : Runner F) (w : World F) (m : Manager) where
    base_report-IsCoherent :
        (x : F) (d : DiskBatch F) (t : TcpUsage) (files : Text ⊎ List AuthFile)
        → is_blank m.hostname ≡ false
        → is_blank m.base_url ≡ false
        → is_zero o.now ≡ false
        → IsCoherent (base_report fl o m (snapshot fl cfg w x d t files (succeeded files)))
    unfolding base_report snapshot accounts_of account_count_of succeeded int_ltb int_eq
        reported_usages enabled_account_usages
    base_report-IsCoherent x d t (inl err) host base time =
        (host, time, ground arith, base, refl, refl, refl, refl, inr (refl, refl, refl))
    base_report-IsCoherent x d t (inr files) host base time = (
      host,
      time,
      ground arith,
      base,
      refl,
      refl,
      (let fewer = length-enabled w.decoders 1 files in ground (arith, fewer)),
      (let same = length-reported 0 (enabled_account_usages w.decoders 1 files) in
          ground (arith, same)),
      inl refl,
    )

    pub health_report-IsCoherent :
        (x : F) (d : DiskBatch F) (t : TcpUsage) (files : Text ⊎ List AuthFile)
        → is_blank m.hostname ≡ false
        → is_blank m.base_url ≡ false
        → is_zero o.now ≡ false
        → IsCoherent (health_report fl o m (snapshot fl cfg w x d t files (succeeded files)))
    unfolding health_report version_candidate
    health_report-IsCoherent x d t files host base time =
        add_version-keeps IsCoherent (λ r status p. p) _
          (base_report-IsCoherent x d t files host base time)
