-- ===== src/Rule/Mounts.antt =====
-- The form of the batches of `Disks` in internal/rule/rule.go.
use cpa_monitor.Base.{
  All, All-put, All-sort, Bool, Distinct, Distinct-put, Distinct-sort, List, Text, [], arith, false,
  find, if◌then◌else◌, is_empty, map, none, put, refl, true, ◌&&◌, ◌∷◌, ◌≡◌,
}
use cpa_monitor.Collector.{DiskUsage, DiskBatch, DiskError}
use cpa_monitor.Rule.{scope_disk, Condition, condition_key, disk_error, Floats, sorted_conditions}
use cpa_monitor.Rule.Disks.{
  Ranked, ranked_key, disk_key, disk_condition, add_disk, add_disks, disks,
}
use cpa_monitor.Rule.Checked.{Fits, IsWellFormed, disk_visible, scopes_visible}

-- The conditions of the map of both.
abbrev conditions_of : {F : Type 0} → List (Ranked F) → List Condition
conditions_of m = map (λ r. r.condition) m

module _ {F : Type 0} where
  abbrev AllFit : List (Ranked F) → Type 0
  AllFit m = All (λ r. Fits scope_disk r.condition) m

  conditions_of-AllFit : (m : List (Ranked F)) → AllFit m → All (Fits scope_disk) (conditions_of m)
  conditions_of-AllFit [] a = tt
  conditions_of-AllFit (r ∷ m) a = (a.0, conditions_of-AllFit m a.1)

  find-conditions_of :
      (k : Text) (m : List (Ranked F))
      → find ranked_key k m ≡ none
      → find condition_key k (conditions_of m) ≡ none
  unfolding find
  find-conditions_of k [] h = refl
  find-conditions_of k (r ∷ m) h = ground (arith, h, find-conditions_of k m)

  conditions_of-Distinct :
      (m : List (Ranked F)) → Distinct ranked_key m → Distinct condition_key (conditions_of m)
  conditions_of-Distinct [] d = tt
  conditions_of-Distinct (r ∷ m) d =
      (find-conditions_of r.condition.key m d.0, conditions_of-Distinct m d.1)

  module _ (fl : Floats F) (threshold : F) where
    disk_condition-Fits : (d : DiskUsage F) → Fits scope_disk (disk_condition fl d threshold)
    unfolding disk_condition disk_key
    disk_condition-Fits d = record { key = disk_visible d.mount_point; scoped = refl }

    if_put :
        (t u : Bool) (m : List (Ranked F)) (r : Ranked F) (P : List (Ranked F) → Type 0)
        → P m
        → P (put ranked_key r m)
        → P (if t then m else if u then m else put ranked_key r m)
    if_put true u m r P p q = p
    if_put false true m r P p q = p
    if_put false false m r P p q = q

    add_disk-AllFit :
        (d : DiskUsage F) (m : List (Ranked F)) → AllFit m → AllFit (add_disk fl threshold d m)
    unfolding add_disk
    add_disk-AllFit d m a =
        if_put _ _ m
          (record { condition = disk_condition fl d threshold; percent = d.used_percent }) AllFit a
          (All-put ranked_key (λ r. Fits scope_disk r.condition) _ m (disk_condition-Fits d) a)

    add_disk-Distinct :
        (d : DiskUsage F) (m : List (Ranked F))
        → Distinct ranked_key m
        → Distinct ranked_key (add_disk fl threshold d m)
    unfolding add_disk
    add_disk-Distinct d m a =
        if_put _ _ m
          (record { condition = disk_condition fl d threshold; percent = d.used_percent })
          (λ n. Distinct ranked_key n) a (Distinct-put ranked_key _ m a)

    add_disks-AllFit :
        (ds : List (DiskUsage F)) (m : List (Ranked F))
        → AllFit m
        → Distinct ranked_key m
        → AllFit (add_disks fl threshold ds m) × Distinct ranked_key (add_disks fl threshold ds m)
    unfolding add_disks
    add_disks-AllFit [] m a e = (a, e)
    add_disks-AllFit (d ∷ ds) m a e =
        add_disks-AllFit ds (add_disk fl threshold d m) (add_disk-AllFit d m a)
          (add_disk-Distinct d m e)

    no_errors :
        (complete : Bool) (es : List DiskError)
        → (complete && is_empty es) ≡ true
        → is_empty (map disk_error es) ≡ true
    no_errors complete [] h = refl
    no_errors complete (e ∷ es) h = ground (arith, h)

-- Whatever the collector gave, repeated mounts included, the batch of `Disks` has a visible scope;
-- its conditions have that scope, visible keys and distinct keys; and if it is complete, it has no
-- error.
pub disks-IsWellFormed :
    {F : Type 0} (fl : Floats F) (input : DiskBatch F) (threshold : F)
    → IsWellFormed (disks fl input threshold)
unfolding disks sorted_conditions
disks-IsWellFormed fl input threshold =
    let (fit, distinct) = add_disks-AllFit fl threshold input.disks [] tt tt in
    let m = add_disks fl threshold input.disks [] in
    record {
      scope = scopes_visible.2;
      fit = All-sort condition_key (Fits scope_disk) (conditions_of m) (conditions_of-AllFit m fit);
      distinct = Distinct-sort condition_key (conditions_of m) (conditions_of-Distinct m distinct);
      flagged = no_errors fl threshold input.complete input.errors;
    }
