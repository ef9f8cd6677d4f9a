-- ===== src/Tests/Hosts.antt =====
-- Theorems on the collectors, on the exit code and on versions at concrete inputs.
use cpa_monitor.Base.{
  ◌||◌, ◌&&◌, [], digit, digits_value, false, none, onto_head, parse_uint, refl, some, split, str,
  text_eq, true, ℕ, ◌≡◌,
}
use cpa_monitor.Collector.{Mount, DiskUsage}
use cpa_monitor.Collector.Disks.{StatFsInfo}
use cpa_monitor.Collector.Mounts.{decode_field}
use cpa_monitor.Collector.Calls.{register, StatCall, Calls, no_calls, call_at, stat_call}
use cpa_monitor.Collector.Escapes.{escape_field, decode_field-escape_field}
use cpa_monitor.Collector.Shared.{Reachable, start, step, asks, one_running_call}
use cpa_monitor.Cliproxy.Version.{SemanticVersion, flip, compare_versions}
use cpa_monitor.Cliproxy.Releases.{one_spelling, one_spelling_each, compare_versions-flip}
use cpa_monitor.App.Run.{
  Flags, Stages, bad_arguments, run, code, any_fails, runs_single, is_degraded, parsed, run-code,
}

-- A mount of ten blocks, of which four are free.
abbrev root_mount : Mount
root_mount = record { mount_point = str "/"; filesystem_type = str "ext4" }

abbrev ten_blocks : StatFsInfo
ten_blocks = record { blocks = 10; blocks_free = 4; block_size = 4096 }

abbrev root_usage : DiskUsage ℕ
root_usage = record {
  mount_point = str "/";
  filesystem_type = str "ext4";
  total_bytes = 40960;
  used_bytes = 24576;
  used_percent = 6;
}

decode_field-escape_field_example : decode_field (escape_field (str "a b\\c")) ≡ some (str "a b\\c")
decode_field-escape_field_example = decode_field-escape_field (str "a b\\c")

-- Two callers have asked for one path.
abbrev asked_twice : Calls
asked_twice = (stat_call (str "/") (stat_call (str "/") no_calls).1).1

asked_twice_reached : Reachable asked_twice
asked_twice_reached =
    step (step start (asks (str "/") no_calls)) (asks (str "/") (stat_call (str "/") no_calls).1)

abbrev root_call : StatCall
root_call = record { id = 0; path = str "/"; result = none }

root_call_made : call_at 0 asked_twice.made ≡ some root_call
unfolding stat_call register call_at text_eq str
root_call_made = refl

one_running_call_example : ◌≡◌ {A = ℕ} 0 0
one_running_call_example =
    one_running_call asked_twice_reached root_call_made root_call_made refl refl refl

-- One cycle, in which the cycle fails.
abbrev once_flags : Flags
once_flags = record {
  once = true;
  check_config = false;
  test_notification = [];
  other_arguments = 0;
}

abbrev failing_cycle : Stages
failing_cycle = record {
  load_fails = false;
  validate_fails = false;
  test_fails = false;
  builds = some false;
  single_fails = true;
  daemon_fails = false;
  close_fails = false;
}

once_accepted : bad_arguments once_flags ≡ false
unfolding bad_arguments
once_accepted = refl

run-code_example :
    (run (parsed once_flags) failing_cycle).0
    ≡ code (
        any_fails failing_cycle (run (parsed once_flags) failing_cycle).1
        || (runs_single (run (parsed once_flags) failing_cycle).1 && is_degraded failing_cycle))
run-code_example = run-code once_flags failing_cycle once_accepted

-- Two release candidates.
abbrev candidate : SemanticVersion
candidate = record { major = 1; minor = 2; patch = 3; prerelease = str "rc.1" }

abbrev next_candidate : SemanticVersion
next_candidate = record { major = 1; minor = 2; patch = 3; prerelease = str "rc.2" }

spelled :
    one_spelling_each (split b'.' candidate.prerelease) (split b'.' next_candidate.prerelease)
    ≡ true
unfolding one_spelling_each one_spelling split onto_head str parse_uint digits_value digit text_eq
spelled = refl

compare_versions-flip_example :
    compare_versions next_candidate candidate ≡ flip (compare_versions candidate next_candidate)
compare_versions-flip_example = compare_versions-flip candidate next_candidate spelled
