-- ===== src/Collector/Proc.antt =====
-- The collector of internal/collector/proc.go: `Memory`, `Disks` and `TCP`. A value of `Host` is what
-- the context and the file system answer during one call: `stopped i` is what the `i`-th question for
-- the context's error gives, from 0. The collector and its parts are never nil here.
use cpa_monitor.Base.{
  Bool, List, Option, Text, [], false, if◌then◌else◌, inl, inr, is_empty, none, some, str, ℕ, ℤ,
  ◌+◌, ◌⊎◌,
}
use cpa_monitor.Collector
use cpa_monitor.Collector.{MemoryUsage, DiskBatch, TcpUsage, Scan}
use cpa_monitor.Collector.Memory.{MemoryError, parse_mem_info}
use cpa_monitor.Collector.Mounts.{MountError, parse_mount_info}
use cpa_monitor.Collector.Tables.{TcpError, parse_tcp}
use cpa_monitor.Collector.Disks.{StatFsInfo, collect_disks}

pub data ProcError : Type 0 where
  context_ended : ProcError
  open_failed : Text → ProcError
  bad_mem_info : MemoryError → ProcError
  bad_mount_info : MountError → ProcError
  bad_table : Text → TcpError → ProcError
  disks_failed : ProcError

-- `open_file` gives the scanned file, or none; `stat_fs` is what `statFSForMount` returns for a path,
-- and `stopped_at` whether the context has ended after it.
pub record Host : Type 0 where
  pub stopped : ℕ → Bool
  pub open_file : Text → Option Scan
  pub stat_fs : Text → Text ⊎ StatFsInfo
  pub stopped_at : Text → Bool

abbrev pub mem_info_path : Text
mem_info_path = str "proc/meminfo"

abbrev pub mount_info_path : Text
mount_info_path = str "proc/self/mountinfo"

abbrev pub tcp4_path : Text
tcp4_path = str "proc/net/tcp"

abbrev pub tcp6_path : Text
tcp6_path = str "proc/net/tcp6"

-- The result, unless the context has ended in the meantime.
unfoldable pub unless_ended {ℓ} : {A : Type ℓ} → Bool → ProcError ⊎ A → ProcError ⊎ A
unless_ended stopped r = if stopped then inl context_ended else r

module _ {F : Type 0} (percent : ℕ → ℕ → F) where
  unfoldable pub parsed_memory : Bool → MemoryError ⊎ MemoryUsage F → ProcError ⊎ MemoryUsage F
  parsed_memory stopped (inl e) = inl (bad_mem_info e)
  parsed_memory stopped (inr usage) = unless_ended stopped (inr usage)

  -- `Memory`.
  unfoldable pub read_memory : Host → ProcError ⊎ MemoryUsage F
  read_memory h = unless_ended (h.stopped 0) (elim (h.open_file mem_info_path) [
    | none ↦ inl (open_failed mem_info_path)
    | some s ↦ parsed_memory (h.stopped 1) (parse_mem_info percent s)
  ])

  abbrev pub no_disks : DiskBatch F
  no_disks = record { disks = []; complete = false; errors = [] }

  -- The batch, with `batch.Err()`.
  unfoldable pub with_error : DiskBatch F → DiskBatch F × Option ProcError
  with_error b = (b, if is_empty b.errors then none else some disks_failed)

  unfoldable pub parsed_mounts :
      Host → MountError ⊎ List Collector.Mount → DiskBatch F × Option ProcError
  parsed_mounts h (inl e) = (no_disks, some (bad_mount_info e))
  parsed_mounts h (inr mounts) =
      if h.stopped 1
      then (no_disks, some context_ended)
      else with_error (collect_disks percent h.stat_fs h.stopped_at mounts)

  -- `Disks`.
  unfoldable pub read_disks : Host → DiskBatch F × Option ProcError
  read_disks h =
      if h.stopped 0 then (no_disks, some context_ended) else elim (h.open_file mount_info_path) [
        | none ↦ (no_disks, some (open_failed mount_info_path))
        | some s ↦ parsed_mounts h (parse_mount_info s)
      ]

unfoldable pub parsed_table : Text → TcpError ⊎ TcpUsage → ProcError ⊎ TcpUsage
parsed_table path (inl e) = inl (bad_table path e)
parsed_table path (inr usage) = inr usage

-- `readTCP`.
unfoldable pub read_table : Host → Text → ℤ → ProcError ⊎ TcpUsage
read_table h path service = elim (h.open_file path) [
  | none ↦ inl (open_failed path)
  | some s ↦ parsed_table path (parse_tcp s service)
]

unfoldable pub both_tables : Bool → TcpUsage → ProcError ⊎ TcpUsage → ProcError ⊎ TcpUsage
both_tables stopped v4 (inl e) = inl e
both_tables stopped v4 (inr v6) = unless_ended stopped (
    inr (record {
      total_connections = v4.total_connections + v6.total_connections;
      service_port_connections = v4.service_port_connections + v6.service_port_connections;
    }))

unfoldable pub after_table : Host → ℤ → ProcError ⊎ TcpUsage → ProcError ⊎ TcpUsage
after_table h service (inl e) = inl e
after_table h service (inr v4) =
    unless_ended (h.stopped 1) (both_tables (h.stopped 2) v4 (read_table h tcp6_path service))

-- `TCP`.
unfoldable pub read_tcp : Host → ℤ → ProcError ⊎ TcpUsage
read_tcp h service =
    unless_ended (h.stopped 0) (after_table h service (read_table h tcp4_path service))
