-- ===== src/Dingtalk/Reports.antt =====
-- The reports of internal/monitor/runner.go and internal/healthreport/manager.go, as `healthPayload` of
-- internal/dingtalk/message.go takes them.
use cpa_monitor.Base.{All, List, Text, [], arith, false, inr, is_blank, none, refl, ◌∷◌, ◌≡◌, ◌⊎◌}
use cpa_monitor.State.{is_zero}
use cpa_monitor.Rule.{Floats}
use cpa_monitor.Collector.{DiskBatch, TcpUsage}
use cpa_monitor.Cliproxy.{AuthFile}
use cpa_monitor.Monitor.{Runner, World, accounts_of, snapshot}
use cpa_monitor.Monitor.Cycle.{succeeded}
use cpa_monitor.Notification.Health.{
  AccountUsage, HealthReport, validate_account_usage, validate_version_info,
}
use cpa_monitor.Notification.Formats.{Formats}
use cpa_monitor.Healthreport.{Outside, Manager, health_report}
use cpa_monitor.Healthreport.Content.{IsCounted, health_report-valid}
use cpa_monitor.Healthreport.Coherent.{IsCoherent, health_report-IsCoherent}
use cpa_monitor.Dingtalk.{DingtalkOptions, DingtalkClient, new_dingtalk}
use cpa_monitor.Dingtalk.Alert.{Payload}
use cpa_monitor.Dingtalk.Health.{report_refusal, usages_refused, health_payload}
use cpa_monitor.Dingtalk.Bounds.{HasSize, new_dingtalk-accepted, accepted_report}

module _ {F : Type 0} (fl : Floats F) where
  usages_refused-none :
      (us : List (AccountUsage F))
      → All (λ u. validate_account_usage fl u ≡ none) us
      → usages_refused fl us ≡ false
  unfolding usages_refused
  usages_refused-none [] a = refl
  usages_refused-none (u ∷ us) a = rw a.0 (usages_refused-none us a.1)

  coherent_report :
      (r : HealthReport F)
      → IsCoherent r
      → All (λ u. validate_account_usage fl u ≡ none) r.account_usages
      → validate_version_info r ≡ none
      → report_refusal fl r ≡ none
  unfolding report_refusal
  coherent_report r i fine version = ground (arith, usages_refused-none r.account_usages fine)

  module _ (cfg : Runner F) (w : World F) (o : Outside F) (m : Manager) (fm : Formats F) where
    -- The report of a cycle's snapshot, whatever the accounts, the quotas and the version that were
    -- fetched, becomes a message within the sizes that the robot takes, for a client that `New` has
    -- made: if the host and the base URL are not blank, the clock is set, and the snapshot's accounts
    -- have labels and counters that are not negative.
    pub health_payload-HasSize :
        (x : F) (d : DiskBatch F) (t : TcpUsage) (files : Text ⊎ List AuthFile)
        (opts : DingtalkOptions) (c : DingtalkClient)
        → new_dingtalk opts ≡ inr c
        → is_blank m.hostname ≡ false
        → is_blank m.base_url ≡ false
        → is_zero o.now ≡ false
        → All IsCounted (accounts_of fl cfg w files)
        → let r = health_report fl o m (snapshot fl cfg w x d t files (succeeded files)) in
          (p : Payload) × (health_payload fl fm r c.language c.at ≡ inr p) × HasSize p
    health_payload-HasSize x d t files opts c h host base time counted =
        let s = snapshot fl cfg w x d t files (succeeded files) in
        let r = health_report fl o m s in
        let (version, fine) = health_report-valid fl o m s (unfold snapshot in counted) in
        let i = health_report-IsCoherent fl o cfg w m x d t files host base time in
        accepted_report fl fm r c.language c.at (new_dingtalk-accepted opts c h).0
          (coherent_report r i fine version)
