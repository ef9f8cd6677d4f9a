-- ===== src/State/View.antt =====
-- What each operation of the state file does to the record of each key, and its invariant.
use cpa_monitor.Base.{
  All, All-put, All-remove, Bool-cases, Distinct, Distinct-keep, Distinct-put, Distinct-remove,
  Distinct-sort, IsSorted, IsSorted-ext, Option-cases, Text, arith, find, find-keep, find-put,
  find-remove, find-sort, has, if◌then◌else◌, inl, inr, is_some, keep, keep_if, none, refl, some,
  sort, sort-IsSorted, sym, text_eq, text_eq_iff, ◌∙◌, ◌≡◌,
}
use cpa_monitor.State.{
  Record, HealthReportState, StateError, File, record_key, new, validate_record,
  validate_health_report_state, get, by_scope, put_record, delete, set_health_report, document,
}

-- Keys are distinct, and each record and the report times pass the checks of `Open`.
pub record IsValid (f : File) : Type 0 where
  pub distinct : Distinct record_key f.records
  pub checked : All (λ r. validate_record r ≡ none) f.records
  pub health_checked : validate_health_report_state f.health ≡ none

pub new-IsValid : (path : Text) → IsValid (new path)
unfolding new validate_health_report_state
new-IsValid path = record { distinct = tt; checked = tt; health_checked = refl }

-- `Put` keeps the invariant, whether it accepts the record or not.
pub put_record-IsValid : (r : Record) (f : File) → IsValid f → IsValid (put_record r f).0
unfolding put_record
put_record-IsValid r f v = elim (Option-cases (validate_record r)) [
  | inl e ↦
      rw (e, put_record)
        (record {
          distinct = Distinct-put record_key r f.records v.distinct;
          checked = All-put record_key (λ r. validate_record r ≡ none) r f.records e v.checked;
          health_checked = v.health_checked;
        })
  | inr p ↦ rw (p.1, put_record) v
]

-- `Delete` keeps the invariant.
pub delete-IsValid : (k : Text) (f : File) → IsValid f → IsValid (delete k f).0
unfolding delete
delete-IsValid k f v = elim (Bool-cases (has record_key k f.records)) [
  | inl t ↦ rw t (record {
    distinct = Distinct-remove record_key k f.records v.distinct;
    checked = All-remove record_key (λ r. validate_record r ≡ none) k f.records v.checked;
    health_checked = v.health_checked;
  })
  | inr n ↦ rw n v
]

pub set_health_report-IsValid :
    (h : HealthReportState) (f : File) → IsValid f → IsValid (set_health_report h f).0
unfolding set_health_report
set_health_report-IsValid h f v = elim (Option-cases (validate_health_report_state h)) [
  | inl e ↦
      rw (e, set_health_report)
        (record { distinct = v.distinct; checked = v.checked; health_checked = e })
  | inr p ↦ rw (p.1, set_health_report) v
]

-- An accepted record replaces what its key held, and no other key changes.
pub get-put_record :
    (j : Text) (r : Record) (f : File)
    → validate_record r ≡ none
    → get j (put_record r f).0 ≡ (if text_eq r.key j then some r else get j f)
unfolding get put_record
get-put_record j r f e = rw (e, put_record) (find-put record_key j r f.records)

-- A record that is refused changes nothing.
pub put_record_refused :
    (r : Record) (f : File) {e : StateError}
    → validate_record r ≡ some e
    → put_record r f ≡ (f, some e)
unfolding put_record
put_record_refused r f h = rw (h, put_record)

pub put_record_error : (r : Record) (f : File) → (put_record r f).1 ≡ validate_record r
unfolding put_record
put_record_error r f = ground arith

-- `Delete` empties its key, keeps every other, and says whether the key was there.
pub get-delete :
    (j k : Text) (f : File) → get j (delete k f).0 ≡ (if text_eq k j then none else get j f)
unfolding get delete
get-delete j k f = ground (arith, find-remove record_key j k f.records, text_eq_iff k j)

pub delete_found : (k : Text) (f : File) → (delete k f).1 ≡ is_some (get k f)
unfolding get delete
delete_found k f = ground arith

pub find-by_scope :
    (j scope : Text) (f : File)
    → IsValid f
    → find record_key j (by_scope scope f) ≡ keep_if (λ r. text_eq r.scope scope) (get j f)
unfolding get by_scope
find-by_scope j scope f v =
    find-sort record_key j (keep (λ r. text_eq r.scope scope) f.records)
      (Distinct-keep record_key (λ r. text_eq r.scope scope) f.records v.distinct)
    ∙ find-keep record_key (λ r. text_eq r.scope scope) j f.records v.distinct

pub by_scope-IsSorted :
    (scope : Text) (f : File) → IsValid f → IsSorted record_key (by_scope scope f)
unfolding by_scope
by_scope-IsSorted scope f v =
    sort-IsSorted record_key (keep (λ r. text_eq r.scope scope) f.records)
      (Distinct-keep record_key (λ r. text_eq r.scope scope) f.records v.distinct)

pub by_scope-Distinct :
    (scope : Text) (f : File) → IsValid f → Distinct record_key (by_scope scope f)
unfolding by_scope
by_scope-Distinct scope f v =
    Distinct-sort record_key (keep (λ r. text_eq r.scope scope) f.records)
      (Distinct-keep record_key (λ r. text_eq r.scope scope) f.records v.distinct)

-- For valid states, what is written to disk depends only on the records by key and on the report times, not on the
-- order in which the map was filled or is iterated.
pub document_ext :
    (f g : File)
    → IsValid f
    → IsValid g
    → ((j : Text) → get j f ≡ get j g)
    → f.health ≡ g.health
    → document f ≡ document g
unfolding document get
document_ext f g vf vg same h =
    let sorted : sort record_key f.records ≡ sort record_key g.records =
      IsSorted-ext record_key (sort record_key f.records) (sort record_key g.records)
        (sort-IsSorted record_key f.records vf.distinct)
        (sort-IsSorted record_key g.records vg.distinct)
        (λ j.
          find-sort record_key j f.records vf.distinct
          ∙ same j
          ∙ sym (find-sort record_key j g.records vg.distinct)) in
    rw (sorted, h)
