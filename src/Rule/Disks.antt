-- ===== src/Rule/Disks.antt =====
-- `Disks` of internal/rule/rule.go. Its two maps, from a key to the condition and to its percentage,
-- have the same keys, and are one map of both here.
use cpa_monitor.Base.{
  Bool, List, Option, Text, [], decimal, false, find, if◌then◌else◌, is_empty, map, none, not, put,
  some, str, ◌&&◌, ◌++◌, ◌∷◌,
}
use cpa_monitor.Collector.{DiskUsage, DiskBatch}
use cpa_monitor.Rule.{scope_disk, Condition, disk_error, Batch, Floats, sorted_conditions}

pub record Ranked (F : Type 0) : Type 0 where
  pub condition : Condition
  pub percent : F

abbrev pub ranked_key : {F : Type 0} → Ranked F → Text
ranked_key r = r.condition.key

unfoldable pub disk_key : Text → Text
disk_key mount = str "resource:disk:" ++ mount

module _ {F : Type 0} (fl : Floats F) where
  open fl use {ge, format_percent}

  unfoldable pub disk_condition : DiskUsage F → F → Condition
  disk_condition d threshold =
      let current = format_percent d.used_percent in
      record {
        key = disk_key d.mount_point;
        scope = scope_disk;
        summary = str "disk " ++ (d.mount_point ++ (str " usage " ++ current));
        current = current;
        threshold = format_percent threshold;
        details =
            (str "kind", str "disk")
            ∷ (str "mount_point", d.mount_point)
            ∷ (str "filesystem_type", d.filesystem_type)
            ∷ (str "total_bytes", decimal d.total_bytes)
            ∷ (str "used_bytes", decimal d.used_bytes)
            ∷ (str "used_percent", current)
            ∷ [];
      }

  -- `oldPercent, exists := ...; exists && oldPercent >= d.UsedPercent`.
  unfoldable pub outranked : Option (Ranked F) → F → Bool
  outranked none p = false
  outranked (some r) p = ge r.percent p

  -- One round of the loop.
  unfoldable pub add_disk : F → DiskUsage F → List (Ranked F) → List (Ranked F)
  add_disk threshold d m =
      if not (ge d.used_percent threshold)
      then m
      else if outranked (find ranked_key (disk_key d.mount_point) m) d.used_percent
      then m
      else put ranked_key
          (record { condition = disk_condition d threshold; percent = d.used_percent }) m

  unfoldable pub add_disks : F → List (DiskUsage F) → List (Ranked F) → List (Ranked F)
  add_disks threshold [] m = m
  add_disks threshold (d ∷ ds) m = add_disks threshold ds (add_disk threshold d m)

  unfoldable pub disks : DiskBatch F → F → Batch
  disks input threshold = record {
    scope = scope_disk;
    complete = input.complete && is_empty input.errors;
    conditions = sorted_conditions (map (λ r. r.condition) (add_disks threshold input.disks []));
    errors = map disk_error input.errors;
  }
