-- ===== src/State/Atomic.antt =====
-- `atomicWrite` of internal/state/file.go: the calls of the operating system in their order, each
-- of which may fail, on the target file and the temporary file beside it.
use cpa_monitor.Base.{
  Bool, Option, Text, [], arith, false, if◌then◌else◌, is_empty, none, some, take, true, ℕ, ◌&&◌,
  ◌≡◌,
}

pub data Call : Type 0 where
  stat_dir make_dirs chmod_dir create_temp chmod_temp write_temp sync_temp close_temp : Call
  rename_temp chmod_target open_dir sync_dir remove_temp : Call

-- What the operating system does during one run.
pub record Faults : Type 0 where
  pub fails : Call → Bool
  pub dir_missing : Bool
  -- How much a failing write of the temporary file has written.
  pub written : ℕ

pub record Disk : Type 0 where
  pub target : Option Text
  pub temp : Option Text

pub data WriteError : Type 0 where
  path_required : WriteError
  failed : Call → WriteError

-- From the creation of the temporary file on.
unfoldable pub write_body : Text → Faults → Disk → Option WriteError × Disk
write_body contents f d =
    let made = record d { temp = some [] } in
    let full = record d { temp = some contents } in
    let moved = record d { target = some contents; temp = none } in
    if f.fails create_temp
    then (some (failed create_temp), d)
    else if f.fails chmod_temp
    then (some (failed chmod_temp), made)
    else if f.fails write_temp
    then (some (failed write_temp), record d { temp = some (take f.written contents) })
    else if f.fails sync_temp
    then (some (failed sync_temp), full)
    else if f.fails close_temp
    then (some (failed close_temp), full)
    else if f.fails rename_temp
    then (some (failed rename_temp), full)
    else if f.fails chmod_target
    then (some (failed chmod_target), moved)
    else if f.fails open_dir
    then (some (failed open_dir), moved)
    else if f.fails sync_dir
    then (some (failed sync_dir), moved)
    else (none, moved)

-- The deferred `os.Remove(tempPath)`, whose own error is dropped.
unfoldable pub clean_up : Faults → Disk → Disk
clean_up f d = if f.fails remove_temp then d else record d { temp = none }

-- The deferred clean-up runs only once the temporary file was created.
unfoldable pub atomic_write : Text → Text → Faults → Disk → Option WriteError × Disk
atomic_write path contents f d =
    if is_empty path
    then (some path_required, d)
    else if f.fails stat_dir
    then (some (failed stat_dir), d)
    else if f.fails make_dirs
    then (some (failed make_dirs), d)
    else if f.dir_missing && f.fails chmod_dir
    then (some (failed chmod_dir), d)
    else if f.fails create_temp
    then (some (failed create_temp), d)
    else (let (e, d') = write_body contents f d in (e, clean_up f d'))

-- Whether the temporary file has taken the target's place.
abbrev pub renamed : Option WriteError → Bool
renamed none = true
renamed (some (failed chmod_target)) = true
renamed (some (failed open_dir)) = true
renamed (some (failed sync_dir)) = true
renamed (some path_required) = false
renamed (some (failed _)) = false

write_body-target :
    (contents : Text) (f : Faults) (d : Disk)
    → (write_body contents f d).1.target
      ≡ (if renamed (write_body contents f d).0 then some contents else d.target)
unfolding write_body
write_body-target contents f d = ground arith

-- Whichever calls fail, the target holds its old contents or all of the new ones, never a part; and
-- which of the two, the returned error tells: the new ones on success and on the three errors that
-- come after the rename, the old ones on every other.
pub atomic_write-target :
    (path contents : Text) (f : Faults) (d : Disk)
    → (atomic_write path contents f d).1.target
      ≡ (if renamed (atomic_write path contents f d).0 then some contents else d.target)
unfolding atomic_write clean_up
atomic_write-target path contents f d = ground (arith, write_body-target contents f d)
