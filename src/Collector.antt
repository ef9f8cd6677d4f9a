-- ===== src/Collector.antt =====
-- Host facts: internal/collector/types.go.
-- Percentages are of a type `F`.
pub mod Memory
pub mod Mounts
pub mod Tables
pub mod Disks
pub mod Proc
pub mod Calls
pub mod Bounds
pub mod Escapes
pub mod Batches
pub mod Usage
pub mod Shared
use cpa_monitor.Base.{Bool, List, Text, ℕ}

pub record MemoryUsage (F : Type 0) : Type 0 where
  pub total_bytes : ℕ
  pub available_bytes : ℕ
  pub used_bytes : ℕ
  pub used_percent : F

pub record Mount : Type 0 where
  pub mount_point : Text
  pub filesystem_type : Text

pub record DiskUsage (F : Type 0) : Type 0 where
  pub mount_point : Text
  pub filesystem_type : Text
  pub total_bytes : ℕ
  pub used_bytes : ℕ
  pub used_percent : F

-- The mount, which is empty where no mount is concerned, and the underlying error.
pub record DiskError : Type 0 where
  pub mount_point : Text
  pub cause : Text

pub record DiskBatch (F : Type 0) : Type 0 where
  pub disks : List (DiskUsage F)
  pub complete : Bool
  pub errors : List DiskError

pub record TcpUsage : Type 0 where
  pub total_connections : ℕ
  pub service_port_connections : ℕ

-- What a `bufio.Scanner` makes of a reader: the lines that it gives, and whether it then fails.
pub record Scan : Type 0 where
  pub lines : List Text
  pub failed : Bool
