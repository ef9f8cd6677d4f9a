-- ===== src/Monitor/Facts.antt =====
-- The batch of each check, as the cycle of internal/monitor/runner.go makes it.
use cpa_monitor.Base.{
  List, Option, Text, [], arith, false, if◌then◌else◌, inl, inr, is_blank, is_empty, map, none,
  refl, some, ◌∷◌, ◌≡◌, ◌⊎◌,
}
use cpa_monitor.Collector.{MemoryUsage, DiskBatch, TcpUsage, DiskError}
use cpa_monitor.Cliproxy.{AuthFile}
use cpa_monitor.Rule.{
  Floats, EntryError, disk_error, scope_health, scope_memory, scope_disk, scope_network, scope_auth,
  Batch, health, memory, tcp,
}
use cpa_monitor.Rule.Disks.{disks}
use cpa_monitor.Rule.Mounts.{disks-IsWellFormed}
use cpa_monitor.Rule.Checked.{
  IsWellFormed, scopes_visible, health-IsWellFormed, memory-IsWellFormed, tcp-IsWellFormed,
  auth-IsWellFormed, auth_scope,
}
use cpa_monitor.Monitor.{
  Runner, World, incomplete_batch, memory_batch, tcp_batch, auth_batch, collected_disks,
  disk_errors,
}
use cpa_monitor.Monitor.Cycle.{given_error}

incomplete_batch-IsWellFormed :
    (scope err : Text) → is_blank scope ≡ false → IsWellFormed (incomplete_batch scope err)
unfolding incomplete_batch
incomplete_batch-IsWellFormed scope err v = record {
  scope = v;
  fit = tt;
  distinct = tt;
  flagged = λ e. cc;
}

-- A batch of one scope; it has errors exactly when some are noted.
pub record IsFor (s : Text) (b : Batch) (noted : List EntryError) : Type 0 where
  pub well : IsWellFormed b
  pub scope : b.scope ≡ s
  pub errors : is_empty noted ≡ is_empty b.errors

pub health-IsFor : (answer : Option Text) → IsFor scope_health (health answer) []
unfolding health
health-IsFor none = record { well = health-IsWellFormed none; scope = refl; errors = refl }
health-IsFor (some e) = record { well = health-IsWellFormed (some e); scope = refl; errors = refl }

module _ {F : Type 0} (fl : Floats F) (cfg : Runner F) (w : World F) where
  pub memory-IsFor :
      (x : Text ⊎ MemoryUsage F) → IsFor scope_memory (memory_batch fl cfg w x) (given_error x)
  unfolding memory_batch incomplete_batch given_error memory
  memory-IsFor (inl err) = record {
    well = incomplete_batch-IsWellFormed scope_memory err scopes_visible.1;
    scope = refl;
    errors = refl;
  }
  memory-IsFor (inr usage) = record {
    well = memory-IsWellFormed fl usage cfg.memory_percent;
    scope = ground arith;
    errors = ground arith;
  }

  pub disk-IsFor :
      (x : DiskBatch F × Option Text)
      → IsFor scope_disk
          (disks fl (collected_disks fl cfg w x) cfg.disk_percent)
          (disk_errors fl cfg w x)
  unfolding collected_disks disk_errors disks
  disk-IsFor (d, none) = record {
    well = disks-IsWellFormed fl d cfg.disk_percent;
    scope = refl;
    errors = refl;
  }
  disk-IsFor (d, some err) = record {
    well = disks-IsWellFormed fl (collected_disks fl cfg w (d, some err)) cfg.disk_percent;
    scope = refl;
    errors = has_errors d.errors (record { mount_point = []; cause = err });
  }
    where
      has_errors :
          (es : List DiskError) (e : DiskError)
          → false ≡ is_empty (map disk_error (if is_empty es then e ∷ [] else es))
      has_errors [] e = refl
      has_errors (x ∷ es) e = refl

  pub tcp-IsFor : (x : Text ⊎ TcpUsage) → IsFor scope_network (tcp_batch fl cfg w x) (given_error x)
  unfolding tcp_batch incomplete_batch given_error tcp
  tcp-IsFor (inl err) = record {
    well = incomplete_batch-IsWellFormed scope_network err scopes_visible.3;
    scope = refl;
    errors = refl;
  }
  tcp-IsFor (inr usage) = record {
    well =
        tcp-IsWellFormed usage cfg.service_port cfg.total_tcp_connections
          cfg.service_port_connections;
    scope = refl;
    errors = refl;
  }

  pub auth-IsFor :
      (x : Text ⊎ List AuthFile)
      → IsFor scope_auth (auth_batch fl cfg w x) (auth_batch fl cfg w x).errors
  unfolding auth_batch incomplete_batch
  auth-IsFor (inl err) = record {
    well = incomplete_batch-IsWellFormed scope_auth err scopes_visible.4;
    scope = refl;
    errors = refl;
  }
  auth-IsFor (inr files) = record {
    well = auth-IsWellFormed files;
    scope = auth_scope files;
    errors = refl;
  }
