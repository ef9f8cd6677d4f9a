-- ===== src/Tests/Logs.antt =====
-- Theorems on the log writer at concrete inputs.
use cpa_monitor.Base.{
  pos, Option, [], arith, atoi, decimal, decimal_from, digit, digits_value, false, find, inr,
  is_blank, is_space, none, parse_uint, put, refl, remove, some, str, text_eq, trim_left,
  trim_space, true, ℕ, ◌∷◌, ◌≡◌, ◌≤◌,
}
use cpa_monitor.Logfile.Directory.{
  trim_file, Directory, Limits, call, backups, backups_of, backup_index, insert_backup, file_size,
  remove_if_exists, rename_if_exists, size_of, without, with_size, exists_in,
}
use cpa_monitor.Logfile.Rotation.{
  clean_backups, cleanup_existing, gather, evict, check_total, enforce_total, shift_backups,
  move_log, open_active,
}
use cpa_monitor.Logfile.Writer.{
  limits, new_writer, opened, Writer, System, reopened, rotate, rotate_closed, make_room, appended,
  enforced, write_chunk, write_round, write_loop, write,
}
use cpa_monitor.Logfile.Complete.{write-returns}
use cpa_monitor.Logfile.Opened.{created, wrote, Used-bound}
use cpa_monitor.Logfile.{WriterOptions, options_error, below}
use cpa_monitor.Logfile.Directory.{LogError, active_log}

-- Nothing fails, and every chunk is taken.
abbrev good : System
good = record { fails = λ c d. false; accepts = λ k d. (k, false) }

abbrev small : Limits
small = record { max_size = 4; max_files = 2; max_total = 6 }

-- A log of three bytes.
abbrev short_log : Writer
short_log = record {
  has_file = true;
  size = 3;
  closed = false;
  directory = record { active = some 3; rotated = [] };
}

within : (k : ℕ) (d : Directory) → (good.accepts k d).0 ≤ k
within k d = omega arith

write-returns_example :
    (e : Option LogError) × (n : ℕ) × (v : Writer) × (write good small 4 short_log ≡ some (e, n, v))
    × (n ≤ 4)
write-returns_example = write-returns good small within 4 short_log

-- The log is moved to the first backup, and the rest is written to a new one.
abbrev long_log : Writer
long_log = record {
  has_file = true;
  size = 2;
  closed = false;
  directory = record { active = some 2; rotated = (record { suffix = str "1"; size = 4 }) ∷ [] };
}

four_written : write good small 3 short_log ≡ some (none, 3, long_log)
unfolding write write_loop write_round write_chunk enforced appended make_room rotate rotate_closed
    reopened move_log shift_backups rename_if_exists remove_if_exists open_active enforce_total
    gather evict check_total file_size backups call backups_of backup_index insert_backup size_of
    without with_size exists_in str decimal decimal_from put remove find text_eq atoi parse_uint
    digits_value digit
four_written = refl

-- The options of the limits above, and the log with three bytes opened.
abbrev small_options : WriterOptions
small_options = record {
  path = str "log";
  max_size_bytes = pos 4;
  max_files = pos 2;
  max_total_size_bytes = pos 6;
}

short_opened : new_writer good.fails true small_options short_log.directory ≡ inr short_log
unfolding new_writer options_error below opened cleanup_existing clean_backups trim_file open_active
    enforce_total gather evict check_total file_size backups call backups_of size_of with_size str
    is_blank trim_space trim_left is_space
short_opened = refl

Used-bound_example : size_of active_log long_log.directory ≤ (limits small_options).max_size
Used-bound_example =
    Used-bound good small_options within
      (wrote 3 (created true short_log.directory short_opened) four_written)
