-- ===== src/Logfile/Complete.antt =====
-- The loop of `Write` of internal/logfile/writer.go, for a writer that may fail at any call.
use cpa_monitor.Base.{
  Bool-cases, Option, Option-cases, arith, false, inl, inr, none, not, refl, some, suc, true, zero,
  ℕ, ◌+◌, ◌-◌, ◌<◌, ◌||◌, ◌∙◌, ◌≡◌, ◌≤◌,
}
use cpa_monitor.Logfile.Directory.{Directory, LogError, file_closed, Limits}
use cpa_monitor.Logfile.Writer.{
  Writer, System, chunk, make_room, write_chunk, write_round, write_loop, write,
}

module _ (sys : System) (l : Limits)
    (within : (k : ℕ) (d : Directory) → (sys.accepts k d).0 ≤ k) where
  -- A round takes no more than what is left, and a byte at least where it has no error.
  write_chunk-taken :
      (left : ℕ) (w : Writer)
      → ((write_chunk sys l left w).1 ≤ left)
        × ((write_chunk sys l left w).0 ≡ none → 0 < (write_chunk sys l left w).1)
  unfolding write_chunk
  write_chunk-taken left w = ground (arith, within (chunk sys l left w) w.directory)

  write_round-taken :
      (left : ℕ) (w : Writer)
      → ((write_round sys l left w).1 ≤ left)
        × ((write_round sys l left w).0 ≡ none → 0 < (write_round sys l left w).1)
  unfolding write_round
  write_round-taken left w = elim (Option-cases (make_room sys l w).0) [
    | inl e ↦ rw (e, write_round) (write_chunk-taken left (make_room sys l w).1)
    | inr (x, e) ↦ rw (e, write_round) (ground arith, λ h. absurd (ground (arith, h)))
  ]

  -- The result of a loop that began with so many bytes written and left.
  abbrev IsDone : ℕ → ℕ → Option (Option LogError × ℕ × Writer) → Type 0
  IsDone written left r =
      (e : Option LogError) × (n : ℕ) × (w : Writer) × (r ≡ some (e, n, w))
      × (n ≤ written + left)
      × (e ≡ none → n ≡ written + left)

  module _ (fuel left written : ℕ) (w : Writer) where
    pub loop_stops :
        {x : LogError}
        → (write_round sys l (suc left) w).0 ≡ some x
        → write_loop sys l (suc fuel) (suc left) written w
          ≡ some (
            some x,
            written + (write_round sys l (suc left) w).1,
            (write_round sys l (suc left) w).2,
          )
    unfolding write_loop
    loop_stops e = rw (e, write_loop) refl

    pub loop_goes :
        (write_round sys l (suc left) w).0 ≡ none
        → write_loop sys l (suc fuel) (suc left) written w
          ≡ write_loop sys l fuel
              (suc left - (write_round sys l (suc left) w).1)
              (written + (write_round sys l (suc left) w).1)
              (write_round sys l (suc left) w).2
    unfolding write_loop
    loop_goes e = rw (e, write_loop) refl

  write_loop-IsDone :
      (fuel left written : ℕ) (w : Writer)
      → left ≤ fuel
      → IsDone written left (write_loop sys l fuel left written w)
  write_loop-IsDone fuel zero written w h =
      unfold write_loop in (none, written, w, refl, omega arith, λ e. omega arith)
  write_loop-IsDone zero (suc left) written w h = absurd (omega arith)
  write_loop-IsDone (suc fuel) (suc left) written w h =
      let (kept, moved) = write_round-taken (suc left) w in
      elim (Option-cases (write_round sys l (suc left) w).0) [
        | inr (x, e) ↦ (
          some x,
          _,
          _,
          loop_stops fuel left written w e,
          omega arith,
          λ k. absurd (ground (arith, k)),
        )
        | inl e ↦
            let more = moved e in
            let (x, n, v, r, bound, whole) =
              write_loop-IsDone fuel (suc left - (write_round sys l (suc left) w).1)
                (written + (write_round sys l (suc left) w).1) (write_round sys l (suc left) w).2
                (omega arith) in
            (
              x,
              n,
              v,
              loop_goes fuel left written w e ∙ r,
              omega arith,
              λ k. let all = whole k in omega arith,
            )
      ]

  pub write_open :
      (count : ℕ) (w : Writer)
      → (w.closed || not w.has_file) ≡ false
      → write sys l count w ≡ write_loop sys l count count 0 w
  unfolding write
  write_open count w h = ground (arith, h)

  pub write_shut :
      (count : ℕ) (w : Writer)
      → (w.closed || not w.has_file) ≡ true
      → write sys l count w ≡ some (some file_closed, 0, w)
  unfolding write
  write_shut count w h = ground (arith, h)

  -- `Write` ends, where a write of the operating system takes no more than it is given: whatever fails,
  -- it returns, and the count that it returns is at most the length of its argument.
  pub write-returns :
      (count : ℕ) (w : Writer)
      → (e : Option LogError) × (n : ℕ) × (v : Writer) × (write sys l count w ≡ some (e, n, v))
        × (n ≤ count)
  write-returns count w = elim (Bool-cases (w.closed || not w.has_file)) [
    | inl shut ↦ (some file_closed, 0, w, write_shut count w shut, omega arith)
    | inr ready ↦
        let (e, n, v, r, bound, whole) = write_loop-IsDone count count 0 w (omega arith) in
        (e, n, v, write_open count w ready ∙ r, omega arith)
  ]
