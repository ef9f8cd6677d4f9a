-- ===== src/Logfile.antt =====
-- The log file: the options of internal/logfile/writer.go and the level of internal/logfile/logger.go.
pub mod Directory
pub mod Rotation
pub mod Writer
pub mod Complete
mod Fresh
pub mod Bounds
pub mod Opened
use cpa_monitor.Base.{
  Bool, Option, Text, false, if◌then◌else◌, is_blank, is_negative, lower_rune, ltb, map, negsuc,
  none, not, pos, pos_part, some, str, text_eq, trim_space, true, ℤ, ◌||◌,
}

-- `Options`; the sizes are int64s.
pub record WriterOptions : Type 0 where
  pub path : Text
  pub max_size_bytes : ℤ
  pub max_files : ℤ
  pub max_total_size_bytes : ℤ

pub data WriterError : Type 0 where
  path_required bad_size bad_files bad_total : WriterError

-- a < b, for integers.
unfoldable pub below : ℤ → ℤ → Bool
below (pos a) (pos b) = ltb a b
below (pos a) (negsuc b) = false
below (negsuc a) (pos b) = true
below (negsuc a) (negsuc b) = ltb b a

-- The tests of `NewWriter` on its options.
unfoldable pub options_error : WriterOptions → Option WriterError
options_error o =
    if is_blank o.path
    then some path_required
    else if not (ltb 0 (pos_part o.max_size_bytes))
    then some bad_size
    else if is_negative o.max_files
    then some bad_files
    else if below o.max_total_size_bytes o.max_size_bytes
    then some bad_total
    else none

pub data Level : Type 0 where
  debug info warn error : Level

-- `parseLevel`.
unfoldable pub parse_level : Text → Option Level
parse_level value =
    let level = map lower_rune (trim_space value) in
    if text_eq level (str "debug")
    then some debug
    else if text_eq level (str "info")
    then some info
    else if text_eq level (str "warn") || text_eq level (str "warning")
    then some warn
    else if text_eq level (str "error")
    then some error
    else none
