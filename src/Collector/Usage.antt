-- ===== src/Collector/Usage.antt =====
-- The batch that `collectDisks` of internal/collector/proc.go gives.
use cpa_monitor.Base.{
  All, All-append, Bool, Bool-cases, List, Text, [], arith, false, inl, inr, is_empty, length,
  length-append, refl, suc, sym, true, ℕ, ◌&&◌, ◌++◌, ◌+◌, ◌<◌, ◌^◌, ◌∷◌, ◌≡◌, ◌≤◌, ◌⊎◌,
}
use cpa_monitor.Collector.{Mount, DiskUsage, DiskBatch}
use cpa_monitor.Collector.Mounts.{normalize_mounts}
use cpa_monitor.Collector.Disks.{
  StatFsInfo, disk_usage, measured, add_usage, failed_usage, collect_from, collect_disks,
}
use cpa_monitor.Collector.Bounds.{disk_usage-bounds}

-- A disk whose bytes in use are at most its bytes, a uint64 above 0.
pub record IsMeasured {F : Type 0} (u : DiskUsage F) : Type 0 where
  pub used : u.used_bytes ≤ u.total_bytes
  pub present : 0 < u.total_bytes
  pub bounded : u.total_bytes < 2 ^ 64

-- A batch says that it is complete where it has no error, and its disks are measured.
pub record IsSound {F : Type 0} (b : DiskBatch F) : Type 0 where
  pub flagged : b.complete ≡ is_empty b.errors
  pub disks : All IsMeasured b.disks

abbrev size : {F : Type 0} → DiskBatch F → ℕ
size b = length b.disks + length b.errors

is_empty-append : {A : Type 0} (xs : List A) (x : A) → is_empty (xs ++ x ∷ []) ≡ false
is_empty-append [] x = refl
is_empty-append (y ∷ ys) x = refl

module _ {F : Type 0} (percent : ℕ → ℕ → F) where
  disk_usage-IsMeasured :
      (m : Mount) (i : StatFsInfo) {u : DiskUsage F} → disk_usage percent m i ≡ inr u → IsMeasured u
  disk_usage-IsMeasured m i h =
      let (total, used, kept, present, bounded) = disk_usage-bounds percent m i h in
      record { used = kept; present = present; bounded = bounded }

  measured-IsMeasured :
      (m : Mount) (r : Text ⊎ StatFsInfo) {u : DiskUsage F}
      → measured percent m r ≡ inr u
      → IsMeasured u
  unfolding measured
  measured-IsMeasured m (inl e) h = cc
  measured-IsMeasured m (inr i) h = disk_usage-IsMeasured m i h

  add_usage-IsSound :
      (m : Mount) (r : Text ⊎ DiskUsage F) (b : DiskBatch F)
      → ((u : DiskUsage F) → r ≡ inr u → IsMeasured u)
      → IsSound b
      → IsSound (add_usage percent m r b)
  unfolding add_usage
  add_usage-IsSound m (inl e) b h s = record {
    flagged = sym (is_empty-append b.errors _);
    disks = s.disks;
  }
  add_usage-IsSound m (inr u) b h s = record {
    flagged = s.flagged;
    disks = All-append IsMeasured b.disks (u ∷ []) s.disks (h u refl, tt);
  }

  add_usage-size :
      (m : Mount) (r : Text ⊎ DiskUsage F) (b : DiskBatch F)
      → size (add_usage percent m r b) ≡ suc (size b)
  unfolding add_usage
  add_usage-size m (inl e) b =
      ground
        (arith, length-append b.errors ((record { mount_point = m.mount_point; cause = e }) ∷ []))
  add_usage-size m (inr u) b = ground (arith, length-append b.disks (u ∷ []))

  module _ (answer : Text → Text ⊎ StatFsInfo) (stopped : Text → Bool) where
    collect_from-IsSound :
        (ms : List Mount) (b : DiskBatch F)
        → IsSound b
        → IsSound (collect_from percent answer stopped ms b)
    unfolding collect_from
    collect_from-IsSound [] b s = s
    collect_from-IsSound (m ∷ ms) b s =
        let usage = measured percent m (answer m.mount_point) in
        let next =
          add_usage-IsSound m usage b (λ u h. measured-IsMeasured m (answer m.mount_point) h) s in
        elim (Bool-cases (failed_usage percent usage && stopped m.mount_point)) [
          | inl e ↦ rw (e) next
          | inr e ↦ rw (e) (collect_from-IsSound ms (add_usage percent m usage b) next)
        ]

    -- Whatever the mounts answer and whenever the context ends, the batch is flagged as complete just
    -- where it has no error, and every disk in it has a size above 0 and below 2^64 and at most that much
    -- in use.
    collect_disks-IsSound :
        (mounts : List Mount) → IsSound (collect_disks percent answer stopped mounts)
    unfolding collect_disks
    collect_disks-IsSound mounts =
        collect_from-IsSound (normalize_mounts mounts) _ (record { flagged = refl; disks = tt })

    collect_from-size :
        ((path : Text) → stopped path ≡ false)
        → (ms : List Mount) (b : DiskBatch F)
        → size (collect_from percent answer stopped ms b) ≡ length ms + size b
    unfolding collect_from
    collect_from-size h [] b = ground arith
    collect_from-size h (m ∷ ms) b =
        let usage = measured percent m (answer m.mount_point) in
        ground (
          arith,
          h m.mount_point,
          add_usage-size m usage b,
          collect_from-size h ms (add_usage percent m usage b),
        )

    -- While the context goes on, each mount that is kept gives one disk or one error.
    pub collect_disks-size :
        ((path : Text) → stopped path ≡ false)
        → (mounts : List Mount)
        → size (collect_disks percent answer stopped mounts) ≡ length (normalize_mounts mounts)
    unfolding collect_disks
    collect_disks-size h mounts =
        let e =
          collect_from-size h (normalize_mounts mounts)
            (record { disks = []; complete = true; errors = [] }) in
        ground (arith, e)
