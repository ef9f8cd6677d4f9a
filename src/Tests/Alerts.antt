-- ===== src/Tests/Alerts.antt =====
-- Theorems on the alert manager at concrete inputs.
use cpa_monitor.Base.{
  All, List, Text, [], false, find, has, insert, is_blank, is_blank-cons, is_empty, is_space, keep,
  none, not, put, put_all, refl, remove, some, sort, str, text_eq, text_mem, trim_left, trim_space,
  true, ◌&&◌, ◌||◌, ◌↔◌, ◌∷◌, ◌≡◌,
}
use cpa_monitor.State.{
  validate_record, new, validate_health_report_state, document, get, put_record, by_scope,
}
use cpa_monitor.State.View.{IsValid, new-IsValid}
use cpa_monitor.State.Persist.{save, save_bytes}
use cpa_monitor.Notification.{alert}
use cpa_monitor.Rule.{condition_key, health}
use cpa_monitor.Rule.Checked.{health-IsWellFormed}
use cpa_monitor.Alerter.{
  Manager, reconcile, validate, conditions_error, delivery_groups, activate_one, activate, attempt,
  after_alert, alert_group, alert_groups, recovery_groups, by_key, active_by_key, new_conditions,
  recovered, deliver, finish, alert_batch, event_keys,
}
use cpa_monitor.Alerter.Message.{record_from_condition}
use cpa_monitor.Alerter.Plan.{IsAccepted, validate-IsAccepted, IsWellFormed-IsAccepted}
use cpa_monitor.Alerter.Groups.{active_in, delivered}
use cpa_monitor.Alerter.Outcome.{
  cleared, reconcile_converges, reconcile-active, reconcile_incomplete,
}
use cpa_monitor.Alerter.Sends.{Attempts, IsSound, HasVisibleKey, reconcile-IsSound}
use cpa_monitor.Alerter.Saved.{IsSynced, on_disk, Turn, reconcile_all, reconcile-IsSynced}
use cpa_monitor.Tests.{world, desk, down, busy, unknown}

abbrev down_key : Text
down_key = str "health:cliproxy_down"

desk_visible : (is_blank desk.hostname ≡ false) × (is_blank desk.base_url ≡ false)
unfolding str is_space
desk_visible = (is_blank-cons _ _ refl, is_blank-cons _ _ refl)

down-IsAccepted : IsAccepted desk down
down-IsAccepted =
    IsWellFormed-IsAccepted desk down desk_visible.0 desk_visible.1
      (health-IsWellFormed (some (str "refused")))

desk-IsValid : IsValid desk.store
desk-IsValid = new-IsValid (str "state")

busy-IsValid : IsValid busy.store
unfolding validate_record validate_health_report_state find str
busy-IsValid = record { distinct = (refl, tt); checked = (refl, tt); health_checked = refl }

unknown-IsAccepted : IsAccepted busy unknown
unfolding str is_space
unknown-IsAccepted = record {
  hostname = desk_visible.0;
  base_url = desk_visible.1;
  scope = is_blank-cons _ _ refl;
  fit = tt;
  distinct = tt;
}

validate-IsAccepted_example : (validate desk down ≡ none) ↔ IsAccepted desk down
validate-IsAccepted_example = validate-IsAccepted desk down

down_succeeds : (down.complete ≡ true) × (is_empty (reconcile world desk false down).0 ≡ true)
unfolding health reconcile validate conditions_error finish deliver new_conditions recovered by_key
    active_by_key by_scope new keep put_all put find sort insert delivery_groups alert_groups
    alert_group recovery_groups attempt after_alert activate activate_one put_record validate_record
    record_from_condition save save_bytes str is_blank trim_space trim_left is_space text_eq
    text_mem remove document alert_batch event_keys
down_succeeds = (refl, refl)

reconcile_converges_example :
    active_in down.scope down_key (reconcile world desk false down).1.store
    ≡ has condition_key down_key down.conditions
reconcile_converges_example =
    reconcile_converges world desk down down_key desk-IsValid down-IsAccepted down_succeeds.0
      down_succeeds.1

reconcile-active_example :
    let (errors, m', log) = reconcile world desk false down in
    (active_in down.scope down_key m'.store ≡ (
      (active_in down.scope down_key desk.store || delivered alert down_key log)
      && not (cleared desk down down_key log)))
    × (delivered alert down_key log ≡ false
        → cleared desk down down_key log ≡ false
        → get down_key m'.store ≡ get down_key desk.store)
    × (delivered alert down_key log ≡ true
        → (has condition_key down_key down.conditions ≡ true)
          × (active_in down.scope down_key desk.store ≡ false))
    × (cleared desk down down_key log ≡ true
        → (down.complete ≡ true)
          × (active_in down.scope down_key desk.store ≡ true)
          × (has condition_key down_key down.conditions ≡ false))
reconcile-active_example = reconcile-active world desk down down_key desk-IsValid down-IsAccepted

memory_active : active_in unknown.scope (str "resource:memory") busy.store ≡ true
unfolding get find str text_eq
memory_active = refl

reconcile_incomplete_example :
    get (str "resource:memory") (reconcile world busy false unknown).1.store
    ≡ get (str "resource:memory") busy.store
reconcile_incomplete_example =
    reconcile_incomplete world busy unknown (str "resource:memory") busy-IsValid unknown-IsAccepted
      refl memory_active

desk_keys : All HasVisibleKey desk.store.records
unfolding new
desk_keys = tt

reconcile-IsSound_example : Attempts IsSound (reconcile world desk false down).2
reconcile-IsSound_example =
    reconcile-IsSound world desk down desk-IsValid down-IsAccepted desk_keys (λ l. refl)

-- A manager as it is made.
abbrev new_desk : Manager
new_desk = record desk { dirty = false }

abbrev turns : List Turn
turns = (world, false, unknown) ∷ (world, true, down) ∷ []

reconcile-IsSynced_example :
    let (n, disk) = reconcile_all new_desk none turns in
    let (errors, n', log) = reconcile world n false down in
    IsSynced new_desk.store n' (on_disk disk log) × (is_empty errors ≡ true → n'.dirty ≡ false)
reconcile-IsSynced_example = reconcile-IsSynced new_desk turns world false down refl
