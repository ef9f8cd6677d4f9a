-- ===== src/Logfile/Writer.antt =====
-- `NewWriter`, `Write`, `Close` and `rotate` of internal/logfile/writer.go on the directory of the log.
-- The lock makes each call one step. `accepts` is how many bytes of a chunk a write
-- takes, and whether it fails.
use cpa_monitor.Base.{
  Bool, Option, false, if◌then◌else◌, inl, inr, leb, ltb, none, not, pos_part, some, suc, true,
  zero, ℕ, ◌&&◌, ◌+◌, ◌-◌, ◌==◌, ◌||◌, ◌⊎◌,
}
use cpa_monitor.Logfile.{WriterOptions, WriterError, options_error}
use cpa_monitor.Logfile.Directory.{
  active_log, Directory, Call, close_log, LogError, call_failed, short_write, file_closed, ◌>>◌,
  Limits, size_of, with_size, write_log,
}
use cpa_monitor.Logfile.Rotation.{cleanup_existing, enforce_total, move_log, open_active}

-- `Writer`, with the directory. `has_file` is `w.file != nil`.
pub record Writer : Type 0 where
  pub has_file : Bool
  pub size : ℕ
  pub closed : Bool
  pub directory : Directory

pub data NewError : Type 0 where
  bad_options : WriterError → NewError
  directory_failed : NewError
  file_failed : LogError → NewError

-- The limits of options that were accepted.
abbrev pub limits : WriterOptions → Limits
limits o = record {
  max_size = pos_part o.max_size_bytes;
  max_files = pos_part o.max_files;
  max_total = pos_part o.max_total_size_bytes;
}

unfoldable pub opened : (LogError ⊎ ℕ) × Directory → NewError ⊎ Writer
opened (inl e, d) = inl (file_failed e)
opened (inr size, d) = inr (record { has_file = true; size = size; closed = false; directory = d })

-- `NewWriter`; `made` says whether the directory is there or can be made.
unfoldable pub new_writer :
    (Call → Directory → Bool) → Bool → WriterOptions → Directory → NewError ⊎ Writer
new_writer fails made o d = elim (options_error o) [
  | some e ↦ inl (bad_options e)
  | none ↦
      if not made
      then inl directory_failed
      else opened ((cleanup_existing fails (limits o) >> open_active fails (limits o)) d)
]

-- An operating system.
pub record System : Type 0 where
  pub fails : Call → Directory → Bool
  pub accepts : ℕ → Directory → ℕ × Bool

module _ (sys : System) (l : Limits) where
  unfoldable pub reopened : Writer → (LogError ⊎ ℕ) × Directory → Option LogError × Writer
  reopened w (inl e, d) = (some e, record w { has_file = false; directory = d })
  reopened w (inr size, d) =
      (none, record { has_file = true; size = size; closed = w.closed; directory = d })

  -- `rotate`, once the file is closed.
  unfoldable pub rotate_closed : Writer → Option LogError × Writer
  rotate_closed w =
      reopened w (
        (move_log sys.fails l >> (enforce_total sys.fails l >> open_active sys.fails l))
          w.directory)

  -- `rotate`.
  unfoldable pub rotate : Writer → Option LogError × Writer
  rotate w =
      if w.has_file && sys.fails close_log w.directory
      then (some (call_failed close_log), w)
      else rotate_closed (record w { has_file = false })

  -- The rotation that a round of `Write` begins with.
  unfoldable pub make_room : Writer → Option LogError × Writer
  make_room w = if leb l.max_size w.size then rotate w else (none, w)

  -- `min`: a chunk of what is left.
  abbrev pub chunk : ℕ → Writer → ℕ
  chunk left w = if ltb (l.max_size - w.size) left then l.max_size - w.size else left

  unfoldable pub appended : ℕ → Writer → Writer
  appended n w = record w {
    size = w.size + n;
    directory = with_size active_log (size_of active_log w.directory + n) w.directory;
  }

  unfoldable pub enforced : Writer → Option LogError × Writer
  enforced w = elim (enforce_total sys.fails l w.directory).0 [
    | inl e ↦ (some e, record w { directory = (enforce_total sys.fails l w.directory).1 })
    | inr t ↦ (none, record w { directory = (enforce_total sys.fails l w.directory).1 })
  ]

  -- A round of `Write` after the rotation: the error, the bytes taken and the writer.
  unfoldable pub write_chunk : ℕ → Writer → Option LogError × ℕ × Writer
  write_chunk left w =
      let (n, failed) = sys.accepts (chunk left w) w.directory in
      if failed
      then (some (call_failed write_log), n, appended n w)
      else if n == 0
      then (some short_write, 0, w)
      else ((enforced (appended n w)).0, n, (enforced (appended n w)).1)

  -- A round of `Write`.
  unfoldable pub write_round : ℕ → Writer → Option LogError × ℕ × Writer
  write_round left w = elim (make_room w).0 [
    | some e ↦ (some e, 0, (make_room w).1)
    | none ↦ write_chunk left (make_room w).1
  ]

  -- The loop of `Write` on fuel: none where it runs out.
  unfoldable pub write_loop : ℕ → ℕ → ℕ → Writer → Option (Option LogError × ℕ × Writer)
  write_loop fuel zero written w = some (none, written, w)
  write_loop zero (suc left) written w = none
  write_loop (suc fuel) (suc left) written w =
      let (e, n, w') = write_round (suc left) w in
      let rest = write_loop fuel (suc left - n) (written + n) w' in
      elim e [ some err ↦ some (some err, written + n, w') | none ↦ rest ]

  -- `Write` of so many bytes; each round takes one at least.
  unfoldable pub write : ℕ → Writer → Option (Option LogError × ℕ × Writer)
  write count w =
      if w.closed || not w.has_file
      then some (some file_closed, 0, w)
      else write_loop count count 0 w

  -- `Close`.
  unfoldable pub close : Writer → Option LogError × Writer
  close w = if w.closed || not w.has_file then (none, record w { closed = true }) else (
    if sys.fails close_log w.directory then some (call_failed close_log) else none,
    record w { closed = true; has_file = false },
  )
