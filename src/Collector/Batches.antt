-- ===== src/Collector/Batches.antt =====
-- What `ParseMountInfo`, `normalizeMounts` and `collectDisks` of internal/collector give.
use cpa_monitor.Base.{
  All, All-put, All-sort, Bool, Bool-cases, Distinct, Distinct-put, Distinct-sort, IsSorted, List,
  Option-cases, Text, [], arith, false, fields, has, if◌then◌else◌, inl, inr, is_empty, leb, length,
  ltb, sort, sort-IsSorted, subst, suc, trim_space, true, ℕ, ◌+◌, ◌||◌, ◌∷◌, ◌≡◌, ◌⊎◌,
}
use cpa_monitor.Collector.{Scan, Mount}
use cpa_monitor.Collector.Mounts.{
  MountError, mount_key, should_skip_filesystem, decode_field, field_at, separator_from,
  empty_mount_point, empty_filesystem_type, put_new, add_mount, read_fields, read_mount,
  read_mounts, sorted_mounts, parse_mount_info, keep_mount, keep_mounts, normalize_mounts,
}

-- A mount that the monitor looks at.
pub record IsWatched (m : Mount) : Type 0 where
  pub point : is_empty m.mount_point ≡ false
  pub kind : is_empty m.filesystem_type ≡ false
  pub kept : should_skip_filesystem m.filesystem_type ≡ false

abbrev IsGathered : List Mount → Type 0
IsGathered m = All IsWatched m × Distinct mount_key m

put_new-IsGathered :
    (x : Mount) (m : List Mount) → IsWatched x → IsGathered m → IsGathered (put_new x m)
unfolding put_new
put_new-IsGathered x m w g = elim (Bool-cases (has mount_key x.mount_point m)) [
  | inl e ↦ rw (e) g
  | inr e ↦ rw (e) (All-put mount_key IsWatched x m w g.0, Distinct-put mount_key x m g.1)
]

keep_mount-IsGathered : (x : Mount) (m : List Mount) → IsGathered m → IsGathered (keep_mount x m)
unfolding keep_mount
keep_mount-IsGathered x m g =
    elim (Bool-cases (
      is_empty x.mount_point
      || (is_empty x.filesystem_type || should_skip_filesystem x.filesystem_type))) [
        | inl e ↦ rw (e) g
        | inr e ↦ rw (e) (
            put_new-IsGathered x m
              (record {
                point = ground (arith, e);
                kind = ground (arith, e);
                kept = ground (arith, e);
              })
              g)
      ]

keep_mounts-IsGathered : (xs m : List Mount) → IsGathered m → IsGathered (keep_mounts xs m)
unfolding keep_mounts
keep_mounts-IsGathered [] m g = g
keep_mounts-IsGathered (x ∷ xs) m g =
    keep_mounts-IsGathered xs (keep_mount x m) (keep_mount-IsGathered x m g)

abbrev pub IsListed : List Mount → Type 0
IsListed ms = All IsWatched ms × Distinct mount_key ms × IsSorted mount_key ms

sort-IsListed : (m : List Mount) → IsGathered m → IsListed (sort mount_key m)
sort-IsListed m g = (
  All-sort mount_key IsWatched m g.0,
  Distinct-sort mount_key m g.1,
  sort-IsSorted mount_key m g.1,
)

pub normalize_mounts-IsListed : (mounts : List Mount) → IsListed (normalize_mounts mounts)
unfolding normalize_mounts
normalize_mounts-IsListed mounts = sort-IsListed _ (keep_mounts-IsGathered mounts [] (tt, tt))

abbrev Gathers : MountError ⊎ List Mount → Type 0
Gathers (inl e) = Unit
Gathers (inr m) = IsGathered m

add_decoded :
    (line : ℕ) (kind point : Text) (m : List Mount)
    → IsGathered m
    → Gathers (
        if is_empty point
        then inl (empty_mount_point line)
        else if is_empty kind
        then inl (empty_filesystem_type line)
        else if should_skip_filesystem kind
        then inr m
        else inr (put_new (record { mount_point = point; filesystem_type = kind }) m))
add_decoded line kind point m g = elim (Bool-cases (is_empty point)) [
  | inl e ↦ rw (e) tt
  | inr e1 ↦ elim (Bool-cases (is_empty kind)) [
    | inl e ↦ rw (e1, e) tt
    | inr e2 ↦ elim (Bool-cases (should_skip_filesystem kind)) [
      | inl e ↦ rw (e1, e2, e) g
      | inr e3 ↦
          rw (e1, e2, e3) (put_new-IsGathered _ m (record { point = e1; kind = e2; kept = e3 }) g)
    ]
  ]
]

add_mount-Gathers :
    (line i : ℕ) (fs : List Text) (m : List Mount) → IsGathered m → Gathers (add_mount line i fs m)
unfolding add_mount
add_mount-Gathers line i fs m g = elim (Option-cases (decode_field (field_at 4 fs))) [
  | inl e ↦ rw (e, Gathers) tt
  | inr (point, e) ↦ rw (e, Gathers) (add_decoded line (field_at (i + 1) fs) point m g)
]

read_fields-Gathers :
    (line : ℕ) (fs : List Text) (m : List Mount) → IsGathered m → Gathers (read_fields line fs m)
unfolding read_fields
read_fields-Gathers line fs m g = elim (Option-cases (separator_from 0 fs)) [
  | inl e ↦ rw (e, Gathers) tt
  | inr (i, e) ↦ elim (Bool-cases (ltb i 6 || leb (length fs) (i + 2))) [
    | inl b ↦ rw (e, Gathers, b) tt
    | inr b ↦ rw (e, Gathers, b) (add_mount-Gathers line i fs m g)
  ]
]

read_mount-Gathers :
    (line : ℕ) (t : Text) (m : List Mount) → IsGathered m → Gathers (read_mount line t m)
unfolding read_mount
read_mount-Gathers line t m g = elim (Bool-cases (is_empty (trim_space t))) [
  | inl e ↦ rw (e) g
  | inr e ↦ rw (e) (read_fields-Gathers line (fields (trim_space t)) m g)
]

read_mounts-Gathers :
    (failed : Bool) (line : ℕ) (ls : List Text) (r : MountError ⊎ List Mount)
    → Gathers r
    → Gathers (read_mounts failed line ls r)
unfolding read_mounts
read_mounts-Gathers failed line ls (inl e) g = tt
read_mounts-Gathers true line [] (inr m) g = tt
read_mounts-Gathers false line [] (inr m) g = g
read_mounts-Gathers failed line (l ∷ ls) (inr m) g =
    read_mounts-Gathers failed (suc line) ls (read_mount line l m) (read_mount-Gathers line l m g)

inr-injective : {x y : List Mount} → ◌≡◌ {A = MountError ⊎ List Mount} (inr x) (inr y) → x ≡ y
inr-injective h = cc

sorted_mounts-IsListed :
    (r : MountError ⊎ List Mount) {ms : List Mount}
    → Gathers r
    → sorted_mounts r ≡ inr ms
    → IsListed ms
unfolding sorted_mounts
sorted_mounts-IsListed (inl e) g h = cc
sorted_mounts-IsListed (inr m) {ms} g h = subst IsListed (inr-injective h) (sort-IsListed m g)

-- The mounts that the parser gives are sorted by mount point, which are distinct and not empty, and
-- none has a file system that is empty or skipped.
parse_mount_info-IsListed : (s : Scan) {ms : List Mount} → parse_mount_info s ≡ inr ms → IsListed ms
unfolding parse_mount_info
parse_mount_info-IsListed s h =
    sorted_mounts-IsListed _ (read_mounts-Gathers s.failed 1 s.lines (inr []) (tt, tt)) h
