-- ===== src/App/Run.antt =====
-- `Run` of internal/app/app.go, which maps the outcome of a call to an exit code. What the flags package
-- makes of the arguments, and what each stage answers, are parameters; the functions are never nil.
use cpa_monitor.Base.{
  Bool, List, Option, Text, [], arith, false, if◌then◌else◌, is_empty, none, not, some, str,
  text_eq, true, ℕ, ◌&&◌, ◌==◌, ◌||◌, ◌∷◌, ◌≡◌,
}

-- The flags, with the number of other arguments.
pub record Flags : Type 0 where
  pub once : Bool
  pub check_config : Bool
  pub test_notification : Text
  pub other_arguments : ℕ

pub data Parsed : Type 0 where
  help_wanted bad_flags : Parsed
  parsed : Flags → Parsed

-- What the stages answer: whether each gives an error. `builds` is none for an error, and says whether
-- the alert state is degraded otherwise; `closes` is none where there is nothing to close.
pub record Stages : Type 0 where
  pub load_fails : Bool
  pub validate_fails : Bool
  pub test_fails : Bool
  pub builds : Option Bool
  pub single_fails : Bool
  pub daemon_fails : Bool
  pub close_fails : Bool

-- What a run has tried, in order.
pub data Act : Type 0 where
  load validate test build run_single run_daemon close : Act

abbrev pub code : Bool → ℕ
code fails = if fails then 1 else 0

unfoldable pub known_target : Text → Bool
known_target t = text_eq t (str "primary") || (text_eq t (str "dingtalk") || text_eq t (str "smtp"))

-- The arguments are refused.
unfoldable pub bad_arguments : Flags → Bool
bad_arguments f =
    if not (f.other_arguments == 0)
    then true
    else not (is_empty f.test_notification)
      && (not (known_target f.test_notification) || (f.once || f.check_config))

-- The runtime is built, and one cycle or the daemon has run.
unfoldable pub run_built : Flags → Stages → Bool → ℕ × List Act
run_built f s degraded =
    if f.once
    then (
      code (degraded || (s.single_fails || s.close_fails)),
      load ∷ build ∷ run_single ∷ close ∷ [],
    )
    else (code (s.daemon_fails || s.close_fails), load ∷ build ∷ run_daemon ∷ close ∷ [])

-- The configuration is loaded.
unfoldable pub run_loaded : Flags → Stages → ℕ × List Act
run_loaded f s =
    if f.check_config
    then (code s.validate_fails, load ∷ validate ∷ [])
    else if not (is_empty f.test_notification)
    then (code s.test_fails, load ∷ test ∷ [])
    else elim s.builds [ none ↦ (1, load ∷ build ∷ []) | some degraded ↦ run_built f s degraded ]

-- `Run`: the exit code, with what was tried.
unfoldable pub run : Parsed → Stages → ℕ × List Act
run help_wanted s = (0, [])
run bad_flags s = (2, [])
run (parsed f) s =
    if bad_arguments f then (2, []) else if s.load_fails then (1, load ∷ []) else run_loaded f s

-- The stage gives an error.
unfoldable pub fails : Stages → Act → Bool
fails s load = s.load_fails
fails s validate = s.validate_fails
fails s test = s.test_fails
fails s build = elim s.builds [ none ↦ true | some degraded ↦ false ]
fails s run_single = s.single_fails
fails s run_daemon = s.daemon_fails
fails s close = s.close_fails

unfoldable pub any_fails : Stages → List Act → Bool
any_fails s [] = false
any_fails s (a ∷ rest) = fails s a || any_fails s rest

unfoldable pub runs_single : List Act → Bool
runs_single [] = false
runs_single (run_single ∷ rest) = true
runs_single (_ ∷ rest) = runs_single rest

-- The runtime was built with an alert state that is degraded.
unfoldable pub is_degraded : Stages → Bool
is_degraded s = elim s.builds [ none ↦ false | some degraded ↦ degraded ]

-- Where the arguments are accepted, the exit code is 1 if a stage that the run tried gives an error, or
-- if it ran a single cycle with a degraded alert state; otherwise it is 0, also for a daemon with a
-- degraded alert state. It is never 2.
pub run-code :
    (f : Flags) (s : Stages)
    → bad_arguments f ≡ false
    → let (exit, tried) = run (parsed f) s in
      exit ≡ code (any_fails s tried || (runs_single tried && is_degraded s))
unfolding run run_loaded run_built any_fails fails runs_single is_degraded
run-code f s h = ground (arith, h)
