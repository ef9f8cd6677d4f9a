-- ===== src/Healthreport/Content.antt =====
-- What `ReportHealthy` of internal/healthreport/manager.go hands to the sender.
use cpa_monitor.Base.{
  All, Bool-cases, List, Option-cases, Text, [], arith, equal_fold, false, inl, inr, is_blank,
  is_blank-cons, is_negative, is_space, none, refl, str, suc, trim_left, trim_space, true, ℕ, ◌∷◌,
  ◌≡◌, ◌⊎◌,
}
use cpa_monitor.Rule.{Floats}
use cpa_monitor.Monitor.{HealthSnapshot}
use cpa_monitor.Monitor
use cpa_monitor.Notification.Health.{
  AccountUsage, HealthReport, validate_account_usage, validate_version_info, windows_error,
}
use cpa_monitor.Healthreport.{
  Outside, Manager, CodexQuota, releases_url, quota_candidate, checked_quota, add_quota,
  reported_usage, reported_usages, version_candidate, add_version, base_report, health_report,
}

-- An account with a label, and counters that are not negative.
abbrev pub IsCounted : Monitor.AccountUsage → Type 0
IsCounted u =
    (is_blank u.label ≡ false)
    × (is_negative u.success ≡ false)
    × (is_negative u.failed ≡ false)
    × (is_negative u.recent_success ≡ false)
    × (is_negative u.recent_failed ≡ false)

nothing_blank : is_blank [] ≡ true
unfolding is_blank trim_space trim_left
nothing_blank = refl

module _ {F : Type 0} (fl : Floats F) (o : Outside F) where
  abbrev IsFine : AccountUsage F → Type 0
  IsFine u = validate_account_usage fl u ≡ none

  checked_quota-valid :
      (t : AccountUsage F) (q : Text ⊎ CodexQuota F) → IsFine t → IsFine (checked_quota fl o t q)
  unfolding checked_quota
  checked_quota-valid t (inl e) v = v
  checked_quota-valid t (inr q) v =
      elim (Option-cases (validate_account_usage fl (quota_candidate fl o t q))) [
        | inl ok ↦ rw (ok, checked_quota) ok
        | inr (e, bad) ↦ rw (bad, checked_quota) v
      ]

  plain_usage-valid : (u : Monitor.AccountUsage) → IsCounted u → IsFine (reported_usage fl o u)
  unfolding reported_usage validate_account_usage windows_error
  plain_usage-valid u c = ground (arith, nothing_blank, c.0, c.1, c.2, c.3, c.4)

  supported_usage-valid :
      (u : Monitor.AccountUsage)
      → IsCounted u
      → IsFine (record (reported_usage fl o u) { quota_supported = true })
  unfolding reported_usage validate_account_usage windows_error
  supported_usage-valid u c = ground (arith, c.0, c.1, c.2, c.3, c.4)

  add_quota-valid :
      (i : ℕ) (u : Monitor.AccountUsage)
      → IsCounted u
      → IsFine (add_quota fl o i u (reported_usage fl o u))
  unfolding add_quota
  add_quota-valid i u c = elim (Bool-cases (equal_fold (trim_space u.provider) (str "codex"))) [
    | inr other ↦ rw (other, add_quota) (plain_usage-valid u c)
    | inl codex ↦ elim (Option-cases o.codex_quota) [
      | inl absent ↦ rw (codex, absent, add_quota) (supported_usage-valid u c)
      | inr (fetch, present) ↦
          rw (codex, present, add_quota)
            (checked_quota-valid (record (reported_usage fl o u) { quota_supported = true })
              (fetch i u.auth_index u.account_id) (supported_usage-valid u c))
    ]
  ]

  reported_usages-valid :
      (i : ℕ) (us : List Monitor.AccountUsage)
      → All IsCounted us
      → All IsFine (reported_usages fl o i us)
  unfolding reported_usages
  reported_usages-valid i [] a = tt
  reported_usages-valid i (u ∷ us) a =
      (add_quota-valid i u a.0, reported_usages-valid (suc i) us a.1)

  add_version-valid :
      (r : HealthReport F)
      → validate_version_info r ≡ none
      → (validate_version_info (add_version fl o r) ≡ none)
        × ((add_version fl o r).account_usages ≡ r.account_usages)
  unfolding add_version version_candidate
  add_version-valid r v = elim (Option-cases o.version_status) [
    | inl absent ↦ rw (absent, add_version) (v, refl)
    | inr (inl err, failed) ↦ rw (failed, add_version) (v, refl)
    | inr (inr status, found) ↦
        elim (Option-cases (validate_version_info (version_candidate fl o r status))) [
          | inl ok ↦ rw (found, ok, add_version) (ok, refl)
          | inr (e, bad) ↦ rw (found, bad, add_version) (v, refl)
        ]
  ]

releases_visible : is_blank releases_url ≡ false
unfolding str is_space
releases_visible = is_blank-cons _ _ refl

-- The report that is sent has a valid version block, whatever the fetcher gave; and every account in
-- it is valid, whatever quota was fetched, if the snapshot's accounts have labels and counters that
-- are not negative.
pub health_report-valid :
    {F : Type 0} (fl : Floats F) (o : Outside F) (m : Manager) (s : HealthSnapshot F)
    → All IsCounted s.account_usages
    → let r = health_report fl o m s in
      (validate_version_info r ≡ none)
      × All (λ u. validate_account_usage fl u ≡ none) r.account_usages
unfolding health_report base_report validate_version_info
health_report-valid fl o m s a =
    let (v, same) =
      add_version-valid fl o (base_report fl o m s)
        (ground (arith, releases_visible, nothing_blank)) in
    (v, rw same (reported_usages-valid fl o 0 s.account_usages a))
