-- ===== src/Logfile/Bounds.antt =====
-- The size of the active log of internal/logfile/writer.go.
use cpa_monitor.Base.{
  Bool-cases, Option, Option-cases, arith, false, inl, inr, none, not, refl, some, subst, suc, sym,
  zero, ℕ, ◌&&◌, ◌+◌, ◌<◌, ◌==◌, ◌||◌, ◌∙◌, ◌≡◌, ◌≤◌, ◌⊎◌,
}
use cpa_monitor.Logfile.Directory.{
  active_log, close_log, Directory, LogError, Limits, size_of, with_size,
}
use cpa_monitor.Logfile.Writer.{
  Writer, System, chunk, reopened, rotate_closed, rotate, make_room, appended, enforced,
  write_chunk, write_round, write_loop, write,
}
use cpa_monitor.Logfile.Fresh.{rotated_fresh, rotated_size, rotation-Keeps, enforce_total-Keeps}
use cpa_monitor.Logfile.Complete.{loop_stops, loop_goes, write_open, write_shut}

result_writer :
    {e f : Option LogError} {n m : ℕ} {v w : Writer}
    → ◌≡◌ {A = Option (Option LogError × ℕ × Writer)} (some (e, n, v)) (some (f, m, w))
    → v ≡ w
result_writer h = cc

module _ (sys : System) (l : Limits) where
  -- The file is no longer than the writer's count, and the count is within the limit.
  abbrev pub Fits : Writer → Type 0
  Fits w = (size_of active_log w.directory ≤ w.size) × (w.size ≤ l.max_size)

  reopened_new :
      (w : Writer) (r : (LogError ⊎ ℕ) × Directory)
      → ((n : ℕ) → r.0 ≡ inr n → n ≡ 0)
      → (reopened sys l w r).0 ≡ none
      → (reopened sys l w r).1.size ≡ 0
  unfolding reopened
  reopened_new w (inl e, d) z h = cc
  reopened_new w (inr n, d) z h = z n refl

  reopened-Fits :
      (w : Writer) (r : (LogError ⊎ ℕ) × Directory)
      → ((n : ℕ) → r.0 ≡ inr n → (n ≡ 0) × (size_of active_log r.1 ≡ n))
      → size_of active_log r.1 ≤ w.size
      → w.size ≤ l.max_size
      → Fits (reopened sys l w r).1
  unfolding reopened
  reopened-Fits w (inl e, d) z kept f = (kept, f)
  reopened-Fits w (inr n, d) z kept f = let (q, same) = z n refl in (omega arith, omega arith)

  rotate_new : (w : Writer) → (rotate sys l w).0 ≡ none → (rotate sys l w).1.size ≡ 0
  unfolding rotate rotate_closed
  rotate_new w h = elim (Bool-cases (w.has_file && sys.fails close_log w.directory)) [
    | inl e ↦ absurd (ground (arith, e, h))
    | inr e ↦
        rw (e, rotate)
          (reopened_new _ _ (λ n q. rotated_fresh sys.fails l w.directory q) (rw (e, rotate) at h))
  ]

  rotate-Fits : (w : Writer) → Fits w → Fits (rotate sys l w).1
  unfolding rotate rotate_closed
  rotate-Fits w f = elim (Bool-cases (w.has_file && sys.fails close_log w.directory)) [
    | inl e ↦ rw (e, rotate) f
    | inr e ↦
        rw (e, rotate)
          (reopened-Fits (record w { has_file = false }) _
            (λ n q.
              (rotated_fresh sys.fails l w.directory q, rotated_size sys.fails l w.directory q))
            (rotation-Keeps w.size sys.fails l w.directory f.0) f.1)
  ]

  -- A round that begins without an error has room in its file.
  pub make_room_left :
      (w : Writer)
      → 0 < l.max_size
      → (make_room sys l w).0 ≡ none
      → (make_room sys l w).1.size < l.max_size
  unfolding make_room
  make_room_left w p h = ground (arith, p, h, rotate_new w)

  make_room-Fits : (w : Writer) → Fits w → Fits (make_room sys l w).1
  unfolding make_room
  make_room-Fits w f = ground (arith, f, rotate-Fits w f)

  enforced-Fits : (w : Writer) → Fits w → Fits (enforced sys l w).1
  unfolding enforced
  enforced-Fits w f =
      let kept = enforce_total-Keeps w.size sys.fails l w.directory f.0 in ground (arith, f, kept)

  appended-Fits :
      (n : ℕ) (w : Writer) → w.size + n ≤ l.max_size → Fits w → Fits (appended sys l n w)
  unfolding appended with_size size_of
  appended-Fits n w b f = (omega arith, b)

  module _ (within : (k : ℕ) (d : Directory) → (sys.accepts k d).0 ≤ k) where
    write_chunk-Fits : (left : ℕ) (w : Writer) → Fits w → Fits (write_chunk sys l left w).2
    unfolding write_chunk
    write_chunk-Fits left w f =
        let n = (sys.accepts (chunk sys l left w) w.directory).0 in
        let taken = within (chunk sys l left w) w.directory in
        let room : w.size + n ≤ l.max_size = ground (arith, f.1, taken) in
        let added = appended-Fits n w room f in
        let kept = enforced-Fits (appended sys l n w) added in
        elim (Bool-cases (sys.accepts (chunk sys l left w) w.directory).1) [
          | inl failed ↦ rw (failed) added
          | inr fine ↦ elim (Bool-cases (n == 0)) [
            | inl short ↦ rw (fine, short) f
            | inr more ↦ rw (fine, more) kept
          ]
        ]

    write_round-Fits : (left : ℕ) (w : Writer) → Fits w → Fits (write_round sys l left w).2
    unfolding write_round
    write_round-Fits left w f = elim (Option-cases (make_room sys l w).0) [
      | inl e ↦
          rw (e, write_round) (write_chunk-Fits left (make_room sys l w).1 (make_room-Fits w f))
      | inr (x, e) ↦ rw (e, write_round) (make_room-Fits w f)
    ]

    abbrev FitsAfter : Option (Option LogError × ℕ × Writer) → Type 0
    FitsAfter r = (e : Option LogError) (n : ℕ) (v : Writer) → r ≡ some (e, n, v) → Fits v

    loop_over :
        (fuel written : ℕ) (w : Writer)
        → write_loop sys l fuel zero written w ≡ some (none, written, w)
    unfolding write_loop
    loop_over fuel written w = refl

    write_loop-FitsAfter :
        (fuel left written : ℕ) (w : Writer)
        → Fits w
        → FitsAfter (write_loop sys l fuel left written w)
    write_loop-FitsAfter fuel zero written w f e n v h =
        subst Fits (result_writer (sym (loop_over fuel written w) ∙ h)) f
    write_loop-FitsAfter zero (suc left) written w f e n v h =
        absurd (unfold write_loop in ground (arith, h))
    write_loop-FitsAfter (suc fuel) (suc left) written w f e n v h =
        let kept = write_round-Fits (suc left) w f in
        elim (Option-cases (write_round sys l (suc left) w).0) [
          | inr (x, q) ↦
              subst Fits (result_writer (sym (loop_stops sys l within fuel left written w q) ∙ h))
                kept
          | inl q ↦
              write_loop-FitsAfter fuel _ _ _ kept e n v
                (sym (loop_goes sys l within fuel left written w q) ∙ h)
        ]

    pub write_bound :
        (count : ℕ) (w : Writer) {e : Option LogError} {n : ℕ} {v : Writer}
        → Fits w
        → write sys l count w ≡ some (e, n, v)
        → Fits v
    write_bound count w {e} {n} {v} f h = elim (Bool-cases (w.closed || not w.has_file)) [
      | inl shut ↦ subst Fits (result_writer (sym (write_shut sys l within count w shut) ∙ h)) f
      | inr ready ↦
          write_loop-FitsAfter count count 0 w f e n v
            (sym (write_open sys l within count w ready) ∙ h)
    ]
