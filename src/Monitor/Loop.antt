-- ===== src/Monitor/Loop.antt =====
-- The loops of internal/monitor/loop.go. A value of `Round` is what the daemon's loop meets in one
-- round; a list of rounds that all go on is a run that has not ended yet.
use cpa_monitor.Base.{
  pos, Bool, List, Option, [], ap, arith, false, if◌then◌else◌, none, not, pos_part, some, suc, ℕ,
  ℤ, ◌&&◌, ◌+◌, ◌==◌, ◌∷◌, ◌≡◌,
}

-- `RunSingle`, with the context's state, and the cycle's error.
unfoldable pub run_single {ℓ} : {E : Type ℓ} → Bool → E → Option E → Option E
run_single stopped context_error cycle = if stopped then some context_error else cycle

-- What `select` takes: the context's end, a tick, or the end of a closed channel.
pub data Wake : Type 0 where
  context_done ticked ticker_closed : Wake

-- `ctx.Err() != nil` before the `select`, what it takes, and `ctx.Err() != nil` after a tick.
pub record Round : Type 0 where
  pub stopped_before : Bool
  pub wake : Wake
  pub stopped_after : Bool

pub data End : Type 0 where
  still_running graceful_stop ticker_stopped bad_interval : End

-- The loop, with the cycles run so far: the cycles run, and how it ended.
unfoldable pub daemon_loop : List Round → ℕ → ℕ × End
daemon_loop [] cycles = (cycles, still_running)
daemon_loop (r ∷ rs) cycles =
    let rest = daemon_loop rs (suc cycles) in
    if r.stopped_before then (cycles, graceful_stop) else elim r.wake [
      | context_done ↦ (cycles, graceful_stop)
      | ticker_closed ↦ (cycles, ticker_stopped)
      | ticked ↦ if r.stopped_after then (cycles, graceful_stop) else rest
    ]

-- `runDaemon`: the interval, and the context's state at the start.
unfoldable pub run_daemon : ℤ → Bool → List Round → ℕ × End
run_daemon interval stopped rounds =
    if pos_part interval == 0
    then (0, bad_interval)
    else if stopped
    then (0, graceful_stop)
    else daemon_loop rounds 1

-- `isContextStop`: the context's error, if it has ended, and whether the cycle's error is one.
unfoldable pub is_context_stop {ℓ} : {E : Type ℓ} → Option E → (E → Bool) → Bool
is_context_stop none is_error = false
is_context_stop (some e) is_error = is_error e

-- A round that ends in another cycle.
unfoldable pub goes_on : Round → Bool
goes_on r =
    not r.stopped_before
    && (elim r.wake [ context_done ↦ false | ticked ↦ not r.stopped_after | ticker_closed ↦ false ])

-- The rounds before the first one that does not go on, counted, and that one.
unfoldable pub further_cycles : List Round → ℕ
further_cycles [] = 0
further_cycles (r ∷ rs) = let n = further_cycles rs in if goes_on r then suc n else 0

unfoldable pub last_round : List Round → Option Round
last_round [] = none
last_round (r ∷ rs) = let l = last_round rs in if goes_on r then l else some r

-- How the daemon ends in a round.
unfoldable pub end_of : Option Round → End
end_of none = still_running
end_of (some r) = if r.stopped_before then graceful_stop else elim r.wake [
  | context_done ↦ graceful_stop
  | ticked ↦ graceful_stop
  | ticker_closed ↦ ticker_stopped
]

daemon_loop_lem :
    (rs : List Round) (n : ℕ) → daemon_loop rs n ≡ (n + further_cycles rs, end_of (last_round rs))
unfolding daemon_loop further_cycles last_round end_of goes_on
daemon_loop_lem [] n = ap (λ k. (k, still_running)) (omega arith)
daemon_loop_lem (r ∷ rs) n = ground (arith, daemon_loop_lem rs (suc n))

-- The daemon with a positive interval, on a context that has not ended: it runs one cycle at once and
-- one for each round before the first that does not go on, and no other; it runs as long as the
-- rounds go on; and it ends with an error exactly when that round finds the ticker closed before it
-- finds the context ended.
pub run_daemon_lem :
    (interval : ℕ) (rs : List Round)
    → run_daemon (pos (suc interval)) false rs ≡ (suc (further_cycles rs), end_of (last_round rs))
unfolding run_daemon
run_daemon_lem interval rs = ground (arith, daemon_loop_lem rs 1)
