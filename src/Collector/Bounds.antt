-- ===== src/Collector/Bounds.antt =====
-- The ranges of what `ParseMemInfo`, `diskUsage` and `ParseTCP` of internal/collector give.
use cpa_monitor.Base.{
  Bool, List, Option, Option-cases, Text, [], arith, cut, false, fields, inl, inr, ltb, none, refl,
  some, suc, trim_space, true, ℕ, ◌&&◌, ◌*◌, ◌+◌, ◌-◌, ◌<◌, ◌==◌, ◌^◌, ◌∷◌, ◌≡◌, ◌≤◌, ◌⊎◌,
}
use native.Mathlib.Nat.{mul-le-mul_right, mul-pos}
use cpa_monitor.Collector.{MemoryUsage, Scan, Mount, DiskUsage}
use cpa_monitor.Collector.Memory.{
  MemoryError, ValueAtLine, Values, to_bytes, read_value, keep_total, keep_available, read_named,
  read_line, read_lines, memory_usage, usage_of, parse_mem_info,
}
use cpa_monitor.Collector.Disks.{StatFsInfo, disk_usage}

-- The values of the file are uint64s.
abbrev read_well : MemoryError ⊎ ValueAtLine → Bool
read_well (inl e) = true
read_well (inr v) = ltb v.bytes (2 ^ 64)

abbrev held_well : Option ValueAtLine → Bool
held_well none = true
held_well (some v) = ltb v.bytes (2 ^ 64)

abbrev safe : MemoryError ⊎ Values → Bool
safe (inl e) = true
safe (inr v) = held_well v.total && held_well v.available

read_value-well : (line : ℕ) (fs : List Text) → read_well (read_value line fs) ≡ true
unfolding read_value to_bytes
read_value-well line (value ∷ unit ∷ []) = ground arith
read_value-well line [] = refl
read_value-well line (value ∷ []) = refl
read_value-well line (value ∷ unit ∷ more ∷ rest) = refl

keep_total-safe :
    (v : Values) (r : MemoryError ⊎ ValueAtLine)
    → safe (inr v) ≡ true
    → read_well r ≡ true
    → safe (keep_total v r) ≡ true
unfolding keep_total
keep_total-safe v (inl e) h k = refl
keep_total-safe v (inr x) h k = ground (arith, h, k)

keep_available-safe :
    (v : Values) (r : MemoryError ⊎ ValueAtLine)
    → safe (inr v) ≡ true
    → read_well r ≡ true
    → safe (keep_available v r) ≡ true
unfolding keep_available
keep_available-safe v (inl e) h k = refl
keep_available-safe v (inr x) h k = ground (arith, h, k)

read_named-safe :
    (v : Values) (line : ℕ) (name rest : Text)
    → safe (inr v) ≡ true
    → safe (read_named v line name rest) ≡ true
unfolding read_named
read_named-safe v line name rest h =
    let value = read_value line (fields rest) in
    ground (
      arith,
      h,
      keep_total-safe v value h (read_value-well line (fields rest)),
      keep_available-safe v value h (read_value-well line (fields rest)),
    )

read_line-safe :
    (v : Values) (line : ℕ) (t : Text) → safe (inr v) ≡ true → safe (read_line v line t) ≡ true
unfolding read_line
read_line-safe v line t h = elim (Option-cases (cut b':' (trim_space t))) [
  | inl e ↦ ground (arith, e, h)
  | inr ((name, rest), e) ↦ ground (arith, e, read_named-safe v line (trim_space name) rest h)
]

read_lines-safe :
    (failed : Bool) (line : ℕ) (ls : List Text) (r : MemoryError ⊎ Values)
    → safe r ≡ true
    → safe (read_lines failed line ls r) ≡ true
unfolding read_lines
read_lines-safe failed line ls (inl e) h = refl
read_lines-safe failed line [] (inr v) h = ground (arith, h)
read_lines-safe failed line (l ∷ ls) (inr v) h =
    read_lines-safe failed (suc line) ls (read_line v line l) (read_line-safe v line l h)

product_pos : (a b : ℕ) → (a == 0) ≡ false → (b == 0) ≡ false → 0 < a * b
product_pos a b h k = mul-pos (ground arith) (ground arith)

module _ {F : Type 0} (percent : ℕ → ℕ → F) where
  usage_of-bounds :
      (r : MemoryError ⊎ Values) {u : MemoryUsage F}
      → safe r ≡ true
      → usage_of percent r ≡ inr u
      → (u.used_bytes + u.available_bytes ≡ u.total_bytes)
        × (0 < u.total_bytes)
        × (u.total_bytes < 2 ^ 64)
  unfolding usage_of memory_usage
  usage_of-bounds (inl e) h k = cc
  usage_of-bounds (inr v) {u} h k = ground (arith, h, k)

  -- What is used and what is available make up the total, which is a uint64 above 0.
  parse_mem_info-bounds :
      (s : Scan) {u : MemoryUsage F}
      → parse_mem_info percent s ≡ inr u
      → (u.used_bytes + u.available_bytes ≡ u.total_bytes)
        × (0 < u.total_bytes)
        × (u.total_bytes < 2 ^ 64)
  unfolding parse_mem_info
  parse_mem_info-bounds s h = usage_of-bounds _ (read_lines-safe s.failed 1 s.lines _ refl) h

  pub disk_usage-bounds :
      (m : Mount) (i : StatFsInfo) {u : DiskUsage F}
      → disk_usage percent m i ≡ inr u
      → (u.total_bytes ≡ i.blocks * i.block_size)
        × (u.used_bytes ≡ (i.blocks - i.blocks_free) * i.block_size)
        × (u.used_bytes ≤ u.total_bytes)
        × (0 < u.total_bytes)
        × (u.total_bytes < 2 ^ 64)
  unfolding disk_usage
  disk_usage-bounds m i {u} h =
      let kept : (i.blocks - i.blocks_free) * i.block_size ≤ i.blocks * i.block_size =
        mul-le-mul_right i.block_size (omega arith) in
      ground (arith, h, kept, product_pos i.blocks i.block_size)
