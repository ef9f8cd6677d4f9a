-- ===== src/Logfile/Opened.antt =====
-- `NewWriter` of internal/logfile/writer.go: the log that it opens.
use cpa_monitor.Base.{
  Bool, Option, Option-cases, ap, arith, false, if◌then◌else◌, inl, inr, not, refl, some, subst,
  sym, true, ℕ, ◌∙◌, ◌≡◌, ◌≤◌, ◌⊎◌,
}
use cpa_monitor.Logfile.{WriterOptions, options_error}
use cpa_monitor.Logfile.Directory.{
  active_log, Directory, Call, LogError, ◌>>◌, Limits, call, backups, file_size, trim_file,
  with_size, size_of,
}
use cpa_monitor.Logfile.Rotation.{clean_backups, cleanup_existing, open_active}
use cpa_monitor.Logfile.Writer.{
  Writer, System, directory_failed, limits, opened, new_writer, write, close,
}
use cpa_monitor.Logfile.Bounds.{Fits, write_bound}
use cpa_monitor.Logfile.Fresh.{after-inr, enforce_total-Keeps, open_active-Gone, open_active-size}

module _ (fails : Call → Directory → Bool) (l : Limits) where
  trimmed :
      (d : Directory)
      → (trim_file fails active_log l.max_size d).0 ≡ inr tt
      → size_of active_log (trim_file fails active_log l.max_size d).1 ≤ l.max_size
  unfolding trim_file file_size call with_size size_of
  trimmed d h = ground (arith, h)

  -- The loop over the backups, then the log, then the total.
  cleaned :
      (d : Directory) {t : Unit}
      → (cleanup_existing fails l d).0 ≡ inr t
      → size_of active_log (cleanup_existing fails l d).1 ≤ l.max_size
  unfolding cleanup_existing
  cleaned d h =
      let (found, q1, e1) = after-inr _ (backups fails d) h in
      let d1 = (backups fails d).1 in
      let h1 = ap (λ r. r.0) (sym e1) ∙ h in
      let (a, q2, e2) = after-inr _ (clean_backups fails l found d1) h1 in
      let d2 = (clean_backups fails l found d1).1 in
      let h2 = ap (λ r. r.0) (sym e2) ∙ h1 in
      let (b, q3, e3) = after-inr _ (trim_file fails active_log l.max_size d2) h2 in
      let kept = enforce_total-Keeps l.max_size fails l _ (trimmed d2 q3) in
      subst (λ r. size_of active_log r.1 ≤ l.max_size) (sym (e1 ∙ (e2 ∙ e3))) kept

  started :
      (d : Directory) {n : ℕ}
      → ((cleanup_existing fails l >> open_active fails l) d).0 ≡ inr n
      → (n ≤ l.max_size)
        × (size_of active_log ((cleanup_existing fails l >> open_active fails l) d).1 ≡ n)
  started d h =
      let (a, q, e) = after-inr (λ a. open_active fails l) (cleanup_existing fails l d) h in
      let h1 = ap (λ r. r.0) (sym e) ∙ h in
      (
        open_active-Gone fails l l.max_size _ (cleaned d q) h1,
        ap (λ r. size_of active_log r.1) e ∙ open_active-size fails l _ h1,
      )

opened_size :
    (m : ℕ) (r : (LogError ⊎ ℕ) × Directory) {w : Writer}
    → ((n : ℕ) → r.0 ≡ inr n → (n ≤ m) × (size_of active_log r.1 ≡ n))
    → opened r ≡ inr w
    → (size_of active_log w.directory ≤ w.size) × (w.size ≤ m)
unfolding opened
opened_size m (inl e, d) k h = cc
opened_size m (inr n, d) {w} k h =
    let (small, same) = k n refl in
    let made : record { has_file = true; size = n; closed = false; directory = d } ≡ w = cc in
    subst (λ w. (size_of active_log w.directory ≤ w.size) × (w.size ≤ m)) made (omega arith, small)

new_writer_bound :
    (fails : Call → Directory → Bool) (made : Bool) (o : WriterOptions) (d : Directory) {w : Writer}
    → new_writer fails made o d ≡ inr w
    → (size_of active_log w.directory ≤ w.size) × (w.size ≤ (limits o).max_size)
unfolding new_writer
new_writer_bound fails made o d {w} h = elim (Option-cases (options_error o)) [
  | inr (x, e) ↦ absurd (ground (arith, h, e))
  | inl e ↦
      opened_size (limits o).max_size _ (λ n q. started fails (limits o) d q)
        (accepted made (ground (arith, h, e)))
]
  where
    accepted :
        (made : Bool)
        → ((if not made
              then inl directory_failed
              else opened ((cleanup_existing fails (limits o) >> open_active fails (limits o)) d))
            ≡ inr w)
        → opened ((cleanup_existing fails (limits o) >> open_active fails (limits o)) d) ≡ inr w
    accepted true h = h
    accepted false h = cc

-- The writers that come from `NewWriter` by any sequence of `Write` and `Close`, whatever they return.
pub data Used (sys : System) (o : WriterOptions) : Writer → Type 0 where
  created :
      (made : Bool) (d : Directory) {w : Writer}
      → new_writer sys.fails made o d ≡ inr w
      → Used sys o w
  wrote :
      (count : ℕ) {w v : Writer} {e : Option LogError} {n : ℕ}
      → Used sys o w
      → write sys (limits o) count w ≡ some (e, n, v)
      → Used sys o v
  closed : {w : Writer} → Used sys o w → Used sys o (close sys (limits o) w).1

close-Fits : (sys : System) (l : Limits) (w : Writer) → Fits sys l w → Fits sys l (close sys l w).1
unfolding close
close-Fits sys l w f = ground (arith, f)

module _ (sys : System) (o : WriterOptions)
    (within : (k : ℕ) (d : Directory) → (sys.accepts k d).0 ≤ k) where
  Used-Fits : {w : Writer} → Used sys o w → Fits sys (limits o) w
  Used-Fits (created made d h) = new_writer_bound sys.fails made o d h
  Used-Fits (wrote count {w} {v} {e} {n} u h) =
      write_bound sys (limits o) within count w (Used-Fits u) h
  Used-Fits (closed {w} u) = close-Fits sys (limits o) w (Used-Fits u)

  -- The log file stays within its limit, from `NewWriter` on and through any sequence of `Write` and `Close`,
  -- whatever the file was before and whatever fails, where a write of the operating system takes no more
  -- than it is given.
  pub Used-bound :
      {w : Writer} → Used sys o w → size_of active_log w.directory ≤ (limits o).max_size
  Used-bound u = let f = Used-Fits u in omega arith
