-- ===== src/Collector/Mounts.antt =====
-- `ParseMountInfo` of internal/collector/mountinfo.go, and `normalizeMounts` of
-- internal/collector/disk.go.
use cpa_monitor.Base.{
  Bool, List, Option, Text, [], fields, has, if◌then◌else◌, inl, inr, is_empty, leb, length, ltb,
  none, put, some, sort, str, suc, text_eq, text_mem, trim_space, zero, ℕ, ◌&&◌, ◌+◌, ◌==◌, ◌||◌,
  ◌∷◌, ◌⊎◌,
}
use cpa_monitor.Collector.{Scan, Mount}

-- The map `skippedFilesystemTypes`.
unfoldable pub skipped_filesystem_types : List Text
skipped_filesystem_types =
    str "proc"
    ∷ str "sysfs"
    ∷ str "tmpfs"
    ∷ str "devtmpfs"
    ∷ str "devpts"
    ∷ str "cgroup"
    ∷ str "cgroup2"
    ∷ str "overlay"
    ∷ str "squashfs"
    ∷ str "securityfs"
    ∷ str "debugfs"
    ∷ str "tracefs"
    ∷ str "fusectl"
    ∷ str "mqueue"
    ∷ str "pstore"
    ∷ str "autofs"
    ∷ str "binfmt_misc"
    ∷ str "bpf"
    ∷ str "configfs"
    ∷ str "hugetlbfs"
    ∷ str "nsfs"
    ∷ []

-- `ShouldSkipFilesystem`.
unfoldable pub should_skip_filesystem : Text → Bool
should_skip_filesystem t = text_mem t skipped_filesystem_types

abbrev pub mount_key : Mount → Text
mount_key m = m.mount_point

-- The character that an escape stands for.
unfoldable pub unescape : ℕ → ℕ → ℕ → Option ℕ
unescape a b c =
    if a == b'0' && (b == b'4' && c == b'0')
    then some b' '
    else if a == b'0' && (b == b'1' && c == b'1')
    then some 9
    else if a == b'0' && (b == b'1' && c == b'2')
    then some 10
    else if a == b'1' && (b == b'3' && c == b'4')
    then some b'\\'
    else none

-- A decoded character before a decoded rest.
unfoldable pub onto_decoded : Option ℕ → Option Text → Option Text
onto_decoded none rest = none
onto_decoded (some c) none = none
onto_decoded (some c) (some t) = some (c ∷ t)

-- `decodeMountInfoField`; none is its error.
unfoldable pub decode_field : Text → Option Text
decode_field [] = some []
decode_field (c ∷ []) = if c == b'\\' then none else some (c ∷ [])
decode_field (c ∷ x ∷ []) =
    let rest = decode_field (x ∷ []) in if c == b'\\' then none else onto_decoded (some c) rest
decode_field (c ∷ x ∷ y ∷ []) =
    let rest = decode_field (x ∷ y ∷ []) in if c == b'\\' then none else onto_decoded (some c) rest
decode_field (c ∷ x ∷ y ∷ z ∷ s) =
    let after = decode_field s in
    let rest = decode_field (x ∷ y ∷ z ∷ s) in
    if c == b'\\' then onto_decoded (unescape x y z) after else onto_decoded (some c) rest

pub data MountError : Type 0 where
  bad_separator bad_escape empty_mount_point empty_filesystem_type mount_read_failed :
      ℕ → MountError

-- The position of the first field `-`, from the `i`-th on.
unfoldable pub separator_from : ℕ → List Text → Option ℕ
separator_from i [] = none
separator_from i (f ∷ fs) =
    let rest = separator_from (suc i) fs in if text_eq f (str "-") then some i else rest

-- `fields[i]`; the source has tested that it is there.
unfoldable pub field_at : ℕ → List Text → Text
field_at i [] = []
field_at zero (f ∷ fs) = f
field_at (suc i) (f ∷ fs) = field_at i fs

-- `if _, duplicate := m[x.MountPoint]; !duplicate { m[x.MountPoint] = x }`.
unfoldable pub put_new : Mount → List Mount → List Mount
put_new x m = if has mount_key x.mount_point m then m else put mount_key x m

-- A line with the fields, whose separator stands at `s`.
unfoldable pub add_mount : ℕ → ℕ → List Text → List Mount → MountError ⊎ List Mount
add_mount line s fs m = elim (decode_field (field_at 4 fs)) [
  | none ↦ inl (bad_escape line)
  | some point ↦
      let kind = field_at (s + 1) fs in
      if is_empty point
      then inl (empty_mount_point line)
      else if is_empty kind
      then inl (empty_filesystem_type line)
      else if should_skip_filesystem kind
      then inr m
      else inr (put_new (record { mount_point = point; filesystem_type = kind }) m)
]

-- The fields of a line that is not empty.
unfoldable pub read_fields : ℕ → List Text → List Mount → MountError ⊎ List Mount
read_fields line fs m = elim (separator_from 0 fs) [
  | none ↦ inl (bad_separator line)
  | some s ↦
      if ltb s 6 || leb (length fs) (s + 2) then inl (bad_separator line) else add_mount line s fs m
]

-- One round of the loop.
unfoldable pub read_mount : ℕ → Text → List Mount → MountError ⊎ List Mount
read_mount line text m =
    if is_empty (trim_space text) then inr m else read_fields line (fields (trim_space text)) m

-- The loop, from a line on, and the scanner's error after the last line.
unfoldable pub read_mounts :
    Bool → ℕ → List Text → MountError ⊎ List Mount → MountError ⊎ List Mount
read_mounts failed line ls (inl e) = inl e
read_mounts failed line [] (inr m) = if failed then inl (mount_read_failed line) else inr m
read_mounts failed line (l ∷ ls) (inr m) = read_mounts failed (suc line) ls (read_mount line l m)

unfoldable pub sorted_mounts : MountError ⊎ List Mount → MountError ⊎ List Mount
sorted_mounts (inl e) = inl e
sorted_mounts (inr m) = inr (sort mount_key m)

-- `ParseMountInfo`. Its mount points are distinct, so their order decides.
unfoldable pub parse_mount_info : Scan → MountError ⊎ List Mount
parse_mount_info s = sorted_mounts (read_mounts s.failed 1 s.lines (inr []))

-- One round of the loop of `normalizeMounts`.
unfoldable pub keep_mount : Mount → List Mount → List Mount
keep_mount x m =
    if is_empty x.mount_point
      || (is_empty x.filesystem_type || should_skip_filesystem x.filesystem_type)
    then m
    else put_new x m

unfoldable pub keep_mounts : List Mount → List Mount → List Mount
keep_mounts [] m = m
keep_mounts (x ∷ xs) m = keep_mounts xs (keep_mount x m)

-- `normalizeMounts`.
unfoldable pub normalize_mounts : List Mount → List Mount
normalize_mounts mounts = sort mount_key (keep_mounts mounts [])
