-- ===== src/Tests/Files.antt =====
-- Theorems on the state file at concrete inputs.
use cpa_monitor.Base.{
  Bool, Option, Text, [], arith, false, ap, sym, find, if◌then◌else◌, insert, map, none, refl, some,
  sort, str, text_eq, text_eq_iff, true, ℕ, ◌++◌, ◌∷◌, ◌≡◌,
}
use mathlib.Core.Option
use native.Mathlib.Decide.{ℕ_discrete}
use cpa_monitor.State.{
  Record, Document, File, decode_failed, no_health, new, get, document, validate_record,
  validate_health_report_state,
}
use cpa_monitor.State.View.{IsValid, document_ext}
use cpa_monitor.State.Atomic.{
  Call, sync_temp, Faults, Disk, atomic_write, renamed, atomic_write-target,
}
use cpa_monitor.State.Persist.{
  contents, one, with_sorted_details, Codec, IsLossless, open_file, load_decoded, save, save_bytes,
  open_file-save, open_file-IsValid, open_file_error,
}
use cpa_monitor.Tests.{blank_codec, full_memory}

Document-discrete : Discrete Document
Document-discrete = hlevel (ℕ_discrete)

abbrev named : ℕ → Record
named k = record full_memory { key = k ∷ [] }

-- The same two records, in two orders.
abbrev two : File
two = record { path = str "state"; records = named 97 ∷ named 98 ∷ []; health = no_health }

abbrev owt : File
owt = record { path = str "state"; records = named 98 ∷ named 97 ∷ []; health = no_health }

two-IsValid : IsValid two
unfolding validate_record validate_health_report_state find text_eq str
two-IsValid = record {
  distinct = (refl, (refl, tt));
  checked = (refl, (refl, tt));
  health_checked = refl;
}

owt-IsValid : IsValid owt
unfolding validate_record validate_health_report_state find text_eq str
owt-IsValid = record {
  distinct = (refl, (refl, tt));
  checked = (refl, (refl, tt));
  health_checked = refl;
}

same_records : (j : Text) → get j two ≡ get j owt
unfolding get find
same_records j = ground (arith, text_eq_iff (97 ∷ []) j, text_eq_iff (98 ∷ []) j)

document_ext_example : document two ≡ document owt
document_ext_example = document_ext two owt two-IsValid owt-IsValid same_records refl

-- A disk on which the temporary file cannot be synced.
abbrev bad_sync : Call → Bool
bad_sync sync_temp = true
bad_sync _ = false

abbrev faults : Faults
faults = record { fails = bad_sync; dir_missing = false; written = 0 }

abbrev disk : Disk
disk = record { target = some (str "old"); temp = none }

atomic_write-target_example : (atomic_write (str "state") (str "new") faults disk).1.target ≡ (
    if renamed (atomic_write (str "state") (str "new") faults disk).0
    then some (str "new")
    else disk.target)
atomic_write-target_example = atomic_write-target (str "state") (str "new") faults disk

open_file-IsValid_example : IsValid (open_file blank_codec (str "state") (contents (str "{}"))).0
open_file-IsValid_example = open_file-IsValid blank_codec (str "state") (contents (str "{}"))

bad_file : (open_file blank_codec (str "state") (contents (str "{}"))).1 ≡ some decode_failed
unfolding open_file load_decoded str
bad_file = refl

open_file_error_example :
    (open_file blank_codec (str "state") (contents (str "{}"))).0 ≡ new (str "state")
open_file_error_example = open_file_error blank_codec (str "state") (contents (str "{}")) bad_file

-- A state with a record whose details do not stand in sorted order, and its document.
abbrev full_disk : Record
full_disk = record full_memory { details = (str "used", str "95") ∷ (str "mount", str "/") ∷ [] }

abbrev reported_file : File
reported_file = record {
  path = str "state";
  records = full_disk ∷ [];
  health = record { last_attempt_at = 5; last_sent_at = 4 };
}

-- A codec of that document alone.
abbrev one_encoded : Document → Option Text
one_encoded d = elim (Document-discrete d (document reported_file)) [
  | yes e ↦ some (str "{}")
  | no n ↦ none
]

abbrev one_codec : Codec
one_codec = record {
  encode = one_encoded;
  decode = λ t. one (record (document reported_file) {
    active = map with_sorted_details (document reported_file).active;
  });
}

one_codec-IsLossless : IsLossless one_codec
one_codec-IsLossless = record {
  decode-encode = λ d t e. go d t (Document-discrete d (document reported_file)) refl e;
}
  where
    go :
        (d : Document) (t : Text) (x : Dec (d ≡ document reported_file))
        → Document-discrete d (document reported_file) ≡ x
        → one_encoded d ≡ some t
        → one_codec.decode (t ++ 10 ∷ [])
          ≡ one (record d { active = map with_sorted_details d.active })
    go d t (yes e) q h =
        ap (λ d. one (record d { active = map with_sorted_details d.active })) (sym e)
    go d t (no n) q h = absurd (cc (sym (rw (q, one_encoded) at h)))

reported_file-IsValid : IsValid reported_file
unfolding validate_record validate_health_report_state find text_eq str
reported_file-IsValid = record {
  distinct = (refl, tt);
  checked = (refl, tt);
  health_checked = refl;
}

saved_report : save one_codec (λ p t. false) reported_file ≡ none
unfolding save save_bytes document str sort insert Document-discrete ℕ_discrete
saved_report = refl

open_file-save_example :
    (t : Text) × (save_bytes one_codec reported_file ≡ some t)
    × ((open_file one_codec reported_file.path (contents t)).1 ≡ none)
    × ((j : Text)
        → get j (open_file one_codec reported_file.path (contents t)).0
          ≡ Option.map with_sorted_details (get j reported_file))
    × ((open_file one_codec reported_file.path (contents t)).0.health ≡ reported_file.health)
open_file-save_example =
    open_file-save one_codec (λ p t. false) reported_file one_codec-IsLossless reported_file-IsValid
      saved_report
