-- ===== src/Collector/Memory.antt =====
-- `ParseMemInfo` of internal/collector/memory.go.
use cpa_monitor.Base.{
  Bool, List, Option, Text, [], cut, fields, if◌then◌else◌, inl, inr, is_some, ltb, none, not,
  parse_uint, some, str, suc, text_eq, trim_space, ℕ, ◌%◌, ◌*◌, ◌-◌, ◌/◌, ◌==◌, ◌^◌, ◌∷◌, ◌⊎◌,
}
use cpa_monitor.Collector.{MemoryUsage, Scan}

-- The errors, with the line that they name.
pub data MemoryError : Type 0 where
  duplicate_value bad_fields bad_unit bad_number number_overflow : ℕ → MemoryError
  read_failed : ℕ → MemoryError
  missing_total missing_available : MemoryError
  zero_total exceeds_total : ℕ → MemoryError

pub record ValueAtLine : Type 0 where
  pub bytes : ℕ
  pub line : ℕ

-- The map `values`, which has these two keys at most.
pub record Values : Type 0 where
  pub total : Option ValueAtLine
  pub available : Option ValueAtLine

-- The kilobytes in bytes, as a uint64.
unfoldable pub to_bytes : ℕ → Text → MemoryError ⊎ ValueAtLine
to_bytes line text = elim (parse_uint 10 64 text) [
  | none ↦ inl (bad_number line)
  | some kilobytes ↦
      if ltb ((2 ^ 64 - 1) / 1024) kilobytes
      then inl (number_overflow line)
      else inr (record { bytes = (kilobytes * 1024) % 2 ^ 64; line = line })
]

-- The fields after the colon.
unfoldable pub read_value : ℕ → List Text → MemoryError ⊎ ValueAtLine
read_value line (value ∷ unit ∷ []) =
    if not (text_eq unit (str "kB")) then inl (bad_unit line) else to_bytes line value
read_value line _ = inl (bad_fields line)

unfoldable pub keep_total : Values → MemoryError ⊎ ValueAtLine → MemoryError ⊎ Values
keep_total v (inl e) = inl e
keep_total v (inr x) = inr (record v { total = some x })

unfoldable pub keep_available : Values → MemoryError ⊎ ValueAtLine → MemoryError ⊎ Values
keep_available v (inl e) = inl e
keep_available v (inr x) = inr (record v { available = some x })

-- A line that names a value, after the name was trimmed.
unfoldable pub read_named : Values → ℕ → Text → Text → MemoryError ⊎ Values
read_named v line name rest =
    if text_eq name (str "MemTotal")
    then (if is_some v.total
        then inl (duplicate_value line)
        else keep_total v (read_value line (fields rest)))
    else if text_eq name (str "MemAvailable")
    then (if is_some v.available
        then inl (duplicate_value line)
        else keep_available v (read_value line (fields rest)))
    else inr v

-- One round of the loop. An empty line has no colon either.
unfoldable pub read_line : Values → ℕ → Text → MemoryError ⊎ Values
read_line v line text = elim (cut b':' (trim_space text)) [
  | none ↦ inr v
  | some (name, rest) ↦ read_named v line (trim_space name) rest
]

-- The loop, from a line on, and the scanner's error after the last line.
unfoldable pub read_lines : Bool → ℕ → List Text → MemoryError ⊎ Values → MemoryError ⊎ Values
read_lines failed line ls (inl e) = inl e
read_lines failed line [] (inr v) = if failed then inl (read_failed line) else inr v
read_lines failed line (l ∷ ls) (inr v) = read_lines failed (suc line) ls (read_line v line l)

module _ {F : Type 0} (percent : ℕ → ℕ → F) where
  -- `percent used total` is `float64(used) / float64(total) * 100`.
  unfoldable pub memory_usage : ValueAtLine → ValueAtLine → MemoryError ⊎ MemoryUsage F
  memory_usage total available =
      if total.bytes == 0
      then inl (zero_total total.line)
      else if ltb total.bytes available.bytes
      then inl (exceeds_total available.line)
      else inr (record {
        total_bytes = total.bytes;
        available_bytes = available.bytes;
        used_bytes = total.bytes - available.bytes;
        used_percent = percent (total.bytes - available.bytes) total.bytes;
      })

  unfoldable pub usage_of : MemoryError ⊎ Values → MemoryError ⊎ MemoryUsage F
  usage_of (inl e) = inl e
  usage_of (inr v) = elim v.total [
    | none ↦ inl missing_total
    | some total ↦ elim v.available [
      | none ↦ inl missing_available
      | some available ↦ memory_usage total available
    ]
  ]

  -- `ParseMemInfo`.
  unfoldable pub parse_mem_info : Scan → MemoryError ⊎ MemoryUsage F
  parse_mem_info s =
      usage_of (read_lines s.failed 1 s.lines (inr (record { total = none; available = none })))
