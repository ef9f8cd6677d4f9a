-- ===== src/Collector/Disks.antt =====
-- `diskUsage` and `CollectDisks` of internal/collector/disk.go, and the loop `collectDisks` of
-- internal/collector/proc.go. `percent used total` is `float64(used) / float64(total) * 100`.
use cpa_monitor.Base.{
  decimal, Bool, List, Text, [], false, if◌then◌else◌, inl, inr, ltb, not, str, true, ℕ, ◌%◌, ◌&&◌,
  ◌*◌, ◌++◌, ◌-◌, ◌/◌, ◌==◌, ◌^◌, ◌∷◌, ◌⊎◌,
}
use cpa_monitor.Collector.{Mount, DiskUsage, DiskBatch}
use cpa_monitor.Collector.Mounts.{normalize_mounts}

pub record StatFsInfo : Type 0 where
  pub blocks : ℕ
  pub blocks_free : ℕ
  pub block_size : ℕ

-- The high and the low 64 bits of a product: `bits.Mul64`.
abbrev pub mul64 : ℕ → ℕ → ℕ × ℕ
mul64 a b = (a * b / 2 ^ 64, (a * b) % 2 ^ 64)

module _ {F : Type 0} (percent : ℕ → ℕ → F) where
  -- `diskUsage`.
  unfoldable pub disk_usage : Mount → StatFsInfo → Text ⊎ DiskUsage F
  disk_usage mount info =
      let (total_high, total) = mul64 info.blocks info.block_size in
      let used_blocks = info.blocks - info.blocks_free in
      let (used_high, used) = mul64 used_blocks info.block_size in
      if info.blocks == 0
      then inl (str "statfs reports zero blocks")
      else if info.block_size == 0
      then inl (str "statfs reports zero block size")
      else if ltb info.blocks info.blocks_free
      then inl (
          str "statfs free blocks "
          ++ (decimal info.blocks_free ++ (str " exceed total blocks " ++ decimal info.blocks)))
      else if not (total_high == 0)
      then inl (str "statfs total bytes overflow uint64")
      else if not (used_high == 0)
      then inl (str "statfs used bytes overflow uint64")
      else inr (record {
        mount_point = mount.mount_point;
        filesystem_type = mount.filesystem_type;
        total_bytes = total;
        used_bytes = used;
        used_percent = percent used_blocks info.blocks;
      })

  -- The usage of a mount whose statfs call has answered.
  unfoldable pub measured : Mount → Text ⊎ StatFsInfo → Text ⊎ DiskUsage F
  measured mount (inl err) = inl err
  measured mount (inr info) = disk_usage mount info

  unfoldable pub add_usage : Mount → Text ⊎ DiskUsage F → DiskBatch F → DiskBatch F
  add_usage mount (inr usage) b = record b { disks = b.disks ++ usage ∷ [] }
  add_usage mount (inl err) b = record b {
    complete = false;
    errors = b.errors ++ (record { mount_point = mount.mount_point; cause = err }) ∷ [];
  }

  unfoldable pub failed_usage : Text ⊎ DiskUsage F → Bool
  failed_usage (inl err) = true
  failed_usage (inr usage) = false

  -- The loop over the mounts. `answer` is what statfs answers for the mount point, and `stopped`
  -- whether the context has ended when this mount is done: the loop then ends at a failed mount.
  unfoldable pub collect_from :
      (Text → Text ⊎ StatFsInfo) → (Text → Bool) → List Mount → DiskBatch F → DiskBatch F
  collect_from answer stopped [] b = b
  collect_from answer stopped (m ∷ ms) b =
      let usage = measured m (answer m.mount_point) in
      let rest = collect_from answer stopped ms (add_usage m usage b) in
      if failed_usage usage && stopped m.mount_point then add_usage m usage b else rest

  -- `collectDisks` of the collector.
  unfoldable pub collect_disks :
      (Text → Text ⊎ StatFsInfo) → (Text → Bool) → List Mount → DiskBatch F
  collect_disks answer stopped mounts =
      collect_from answer stopped (normalize_mounts mounts)
        (record { disks = []; complete = true; errors = [] })
