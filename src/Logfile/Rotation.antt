-- ===== src/Logfile/Rotation.antt =====
-- `enforceTotal`, `cleanupExisting` and `rotate` of internal/logfile/writer.go. Sizes are int64s that
-- do not overflow.
use cpa_monitor.Base.{
  Bool, List, Text, [], decimal, if◌then◌else◌, inl, inr, leb, ltb, not, suc, zero, ℕ, ◌+◌, ◌-◌,
  ◌==◌, ◌||◌, ◌∷◌,
}
use cpa_monitor.Logfile.Directory.{
  LogName, active_log, backup, Directory, Call, open_log, secure_log, stat_log, over_total, Io,
  ◌>>=◌, ◌>>◌, done, Backup, Limits, call, backups, file_size, remove_if_exists, rename_if_exists,
  trim_file, with_size, size_of,
}

-- What the first loop of `enforceTotal` has: the total, and the managed files from the last to the
-- first.
pub record Gathered : Type 0 where
  pub total : ℕ
  pub managed : List Text

abbrev pub unmanaged : Limits → Backup → Bool
unmanaged l b = ltb l.max_files b.index || not b.canonical

-- `w.backupPath(index)`.
abbrev pub backup_at : ℕ → LogName
backup_at index = backup (decimal index)

module _ (fails : Call → Directory → Bool) (l : Limits) where
  -- The first loop of `enforceTotal`.
  unfoldable pub gather : List Backup → Gathered → Io Gathered
  gather [] g = λ d. (inr g, d)
  gather (b ∷ bs) g =
      if unmanaged l b
      then remove_if_exists fails (backup b.suffix) >> gather bs g
      else file_size fails (backup b.suffix)
        >>= (λ size. gather bs (record { total = g.total + size; managed = b.suffix ∷ g.managed }))

  -- The second loop, from the last file on: the total that is left.
  unfoldable pub evict : List Text → ℕ → Io ℕ
  evict [] total = λ d. (inr total, d)
  evict (s ∷ ss) total =
      if leb total l.max_total
      then (λ d. (inr total, d))
      else file_size fails (backup s)
        >>= (λ size. remove_if_exists fails (backup s) >> evict ss (total - size))

  unfoldable pub check_total : ℕ → Io Unit
  check_total total d = if ltb l.max_total total then (inl over_total, d) else (inr tt, d)

  -- `enforceTotal`.
  unfoldable pub enforce_total : Io Unit
  enforce_total = do
    active ← file_size fails active_log
    found ← backups fails
    g ← gather found (record { total = active; managed = [] })
    total ← evict g.managed g.total
    check_total total

  -- The loop of `cleanupExisting`.
  unfoldable pub clean_backups : List Backup → Io Unit
  clean_backups [] = done
  clean_backups (b ∷ bs) =
      (if unmanaged l b
        then remove_if_exists fails (backup b.suffix)
        else trim_file fails (backup b.suffix) l.max_size)
      >> clean_backups bs

  -- `cleanupExisting`.
  unfoldable pub cleanup_existing : Io Unit
  cleanup_existing = do
    found ← backups fails
    _ ← clean_backups found
    _ ← trim_file fails active_log l.max_size
    enforce_total

  -- The loop of `rotate`, from the index on down to 1.
  unfoldable pub shift_backups : ℕ → Io Unit
  shift_backups zero = done
  shift_backups (suc i) =
      rename_if_exists fails (backup_at (suc i)) (backup_at (suc (suc i))) >> shift_backups i

  -- The log is moved to the first backup, or removed where there are none.
  unfoldable pub move_log : Io Unit
  move_log =
      if l.max_files == 0
      then remove_if_exists fails active_log
      else (remove_if_exists fails (backup_at l.max_files) >> shift_backups (l.max_files - 1))
        >> rename_if_exists fails active_log (backup_at 1)

  -- `open`: the size of the log, which is created where it is missing. A failed call after the first
  -- leaves the created file.
  unfoldable pub open_active : Io ℕ
  open_active = do
    _ ← call fails open_log (λ d. (tt, with_size active_log (size_of active_log d) d))
    _ ← call fails secure_log (λ d. (tt, d))
    call fails stat_log (λ d. (size_of active_log d, d))
