-- ===== src/State/Persist.antt =====
-- `Open` and `Save` of internal/state/file.go.
use cpa_monitor.Base.{
  All, All-put, All-sort, Bool, Bool-cases, Distinct, Distinct-put, Distinct-sort, List, Option,
  Option-cases, Text, [], ap, arith, find, find-append, find-sort, has, if◌then◌else◌, inl, inr,
  map, none, not, put, refl, some, sort, text_eq_iff, ◌&&◌, ◌++◌, ◌==◌, ◌||◌, ◌∙◌, ◌∷◌, ◌≡◌,
}
use mathlib.Core.Option
use mathlib.Core.List.{append-nil, append_assoc}
use cpa_monitor.State.{
  is_zero, get, schema_version, Record, HealthReportState, Document, StateError, read_failed,
  secure_failed, close_failed, decode_failed, trailing_value, trailing_data, duplicate_key,
  encode_failed, save_failed, unsupported_version, invalid_record, invalid_health, File, record_key,
  no_health, new, validate_record, validate_health_report_state, document,
}
use cpa_monitor.State.View.{IsValid, new-IsValid}

-- What reading the file gives.
pub data Reading : Type 0 where
  missing open_failed chmod_failed read_error close_error : Reading
  contents : Text → Reading

-- What the strict JSON decoder makes of a text: an error, one document, or a document before more.
pub data Decoded : Type 0 where
  malformed : Decoded
  one : Document → Decoded
  then_value then_junk : Document → Decoded

-- encoding/json, as the file uses it.
pub record Codec : Type 0 where
  pub encode : Document → Option Text
  pub decode : Text → Decoded

-- encoding/json writes the keys of a map in sorted order.
abbrev pub with_sorted_details : Record → Record
with_sorted_details r = record r { details = sort (λ d. d.0) r.details }

-- Documented behaviour: what was encoded, with the line break that `Save` adds, decodes to itself, with
-- the details of each record in sorted order.
pub record IsLossless (c : Codec) : Type 0 where
  pub decode-encode :
      (d : Document) (t : Text)
      → c.encode d ≡ some t
      → c.decode (t ++ 10 ∷ []) ≡ one (record d { active = map with_sorted_details d.active })

-- The loop over `doc.Active`.
unfoldable pub load_records : Text → List Record → List Record → File × Option StateError
load_records path [] acc = (record { path = path; records = acc; health = no_health }, none)
load_records path (r ∷ rs) acc =
    let rest = load_records path rs (put record_key r acc) in
    elim (validate_record r) [
      | some e ↦ (new path, some (invalid_record e))
      | none ↦ if has record_key r.key acc then (new path, some duplicate_key) else rest
    ]

unfoldable pub load_health :
    Option HealthReportState → File × Option StateError → File × Option StateError
load_health h (f, some e) = (f, some e)
load_health none (f, none) = (f, none)
load_health (some h) (f, none) = elim (validate_health_report_state h) [
  | some e ↦ (new f.path, some (invalid_health e))
  | none ↦ (record f { health = h }, none)
]

unfoldable pub load_document : Text → Document → File × Option StateError
load_document path d =
    if not (d.version == 1) && not (d.version == schema_version)
    then (new path, some (unsupported_version d.version))
    else load_health d.health_report (load_records path d.active [])

unfoldable pub load_decoded : Text → Decoded → File × Option StateError
load_decoded path malformed = (new path, some decode_failed)
load_decoded path (then_value d) = (new path, some trailing_value)
load_decoded path (then_junk d) = (new path, some trailing_data)
load_decoded path (one d) = load_document path d

-- `Open`: an empty file beside every error.
unfoldable pub open_file : Codec → Text → Reading → File × Option StateError
open_file c path missing = (new path, none)
open_file c path open_failed = (new path, some read_failed)
open_file c path chmod_failed = (new path, some secure_failed)
open_file c path read_error = (new path, some read_failed)
open_file c path close_error = (new path, some close_failed)
open_file c path (contents t) = load_decoded path (c.decode t)

-- The bytes that `Save` hands to its writer.
unfoldable pub save_bytes : Codec → File → Option Text
save_bytes c f = elim (c.encode (document f)) [ none ↦ none | some t ↦ some (t ++ 10 ∷ []) ]

-- `Save`, at a writer that says whether it failed.
unfoldable pub save : Codec → (Text → Text → Bool) → File → Option StateError
save c fails f = elim (save_bytes c f) [
  | none ↦ some encode_failed
  | some data' ↦ if fails f.path data' then some save_failed else none
]

load_records-IsValid :
    (path : Text) (rs acc : List Record)
    → Distinct record_key acc
    → All (λ r. validate_record r ≡ none) acc
    → IsValid (load_records path rs acc).0
unfolding load_records new
load_records-IsValid path [] acc d a = record {
  distinct = d;
  checked = a;
  health_checked = (new-IsValid path).health_checked;
}
load_records-IsValid path (r ∷ rs) acc d a = elim (Option-cases (validate_record r)) [
  | inr p ↦ rw (p.1, load_records) (new-IsValid path)
  | inl e ↦
      rw (e, load_records)
        (elim (Bool-cases (has record_key r.key acc)) [
          | inl t ↦ rw t (new-IsValid path)
          | inr n ↦ rw n (
              load_records-IsValid path rs (put record_key r acc) (Distinct-put record_key r acc d)
                (All-put record_key (λ r. validate_record r ≡ none) r acc e a))
        ])
]

load_health-IsValid :
    (h : Option HealthReportState) (r : File × Option StateError)
    → IsValid r.0
    → IsValid (load_health h r).0
unfolding load_health
load_health-IsValid h (f, some e) v = v
load_health-IsValid none (f, none) v = v
load_health-IsValid (some h) (f, none) v = elim (Option-cases (validate_health_report_state h)) [
  | inl e ↦
      rw (e, load_health)
        (record { distinct = v.distinct; checked = v.checked; health_checked = e })
  | inr p ↦ rw (p.1, load_health) (new-IsValid f.path)
]

load_document-IsValid : (path : Text) (d : Document) → IsValid (load_document path d).0
unfolding load_document
load_document-IsValid path d =
    elim (Bool-cases (not (d.version == 1) && not (d.version == schema_version))) [
      | inl t ↦ rw t (new-IsValid path)
      | inr n ↦ rw n (
          load_health-IsValid d.health_report (load_records path d.active [])
            (load_records-IsValid path d.active [] tt tt))
    ]

-- Whatever the file holds, the state that `Open` returns satisfies the invariant.
pub open_file-IsValid : (c : Codec) (path : Text) (r : Reading) → IsValid (open_file c path r).0
unfolding open_file load_decoded new
open_file-IsValid c path (contents t) = go (c.decode t)
  where
    go : (d : Decoded) → IsValid (load_decoded path d).0
    go (one d) = load_document-IsValid path d
    go malformed = new-IsValid path
    go (then_value d) = new-IsValid path
    go (then_junk d) = new-IsValid path
open_file-IsValid c path missing = new-IsValid path
open_file-IsValid c path _ = new-IsValid path

module _ (path : Text) where
  -- An error comes with the empty state.
  abbrev IsSafe : File × Option StateError → Type 0
  IsSafe (f, none) = f.path ≡ path
  IsSafe (f, some e) = f ≡ new path

  load_records-IsSafe : (rs acc : List Record) → IsSafe (load_records path rs acc)
  unfolding load_records
  load_records-IsSafe [] acc = refl
  load_records-IsSafe (r ∷ rs) acc = ground (arith, load_records-IsSafe rs (put record_key r acc))

  load_health-IsSafe :
      (h : Option HealthReportState) (r : File × Option StateError)
      → IsSafe r
      → IsSafe (load_health h r)
  unfolding load_health
  load_health-IsSafe h (f, some e) s = s
  load_health-IsSafe none (f, none) s = s
  load_health-IsSafe (some h) (f, none) s = ground arith

  load_decoded-IsSafe : (d : Decoded) → IsSafe (load_decoded path d)
  unfolding load_decoded load_document
  load_decoded-IsSafe (one d) = ground (
    arith,
    load_health-IsSafe d.health_report (load_records path d.active [])
        (load_records-IsSafe d.active []),
  )
  load_decoded-IsSafe malformed = refl
  load_decoded-IsSafe (then_value d) = refl
  load_decoded-IsSafe (then_junk d) = refl

  IsSafe-empty :
      (r : File × Option StateError) {e : StateError} → IsSafe r → r.1 ≡ some e → r.0 ≡ new path
  IsSafe-empty (f, none) s h = cc
  IsSafe-empty (f, some x) s h = s

-- Where `Open` returns an error, the state that it returns is a new, empty one.
pub open_file_error :
    (c : Codec) (path : Text) (r : Reading) {e : StateError}
    → (open_file c path r).1 ≡ some e
    → (open_file c path r).0 ≡ new path
unfolding open_file
open_file_error c path (contents t) h =
    IsSafe-empty path (load_decoded path (c.decode t)) (load_decoded-IsSafe path (c.decode t)) h
open_file_error c path missing h = cc
open_file_error c path _ h = refl

put_absent :
    (r : Record) (acc : List Record)
    → find record_key r.key acc ≡ none
    → put record_key r acc ≡ acc ++ r ∷ []
unfolding put find
put_absent r [] n = refl
put_absent r (s ∷ acc) n = ground (arith, put_absent r acc)

Distinct-middle :
    (acc : List Record) (r : Record) (rs : List Record)
    → Distinct record_key (acc ++ r ∷ rs)
    → find record_key r.key acc ≡ none
unfolding find
Distinct-middle [] r rs d = refl
Distinct-middle (s ∷ acc) r rs d = ground (
  arith,
  find-append record_key s.key acc (r ∷ rs),
  text_eq_iff s.key r.key,
  text_eq_iff r.key s.key,
  Distinct-middle acc r rs d.1,
)

load_records-eq :
    (path : Text) (rs acc : List Record)
    → Distinct record_key (acc ++ rs)
    → All (λ r. validate_record r ≡ none) rs
    → load_records path rs acc
      ≡ (record { path = path; records = acc ++ rs; health = no_health }, none)
unfolding load_records
load_records-eq path [] acc d a = rw (append-nil acc)
load_records-eq path (r ∷ rs) acc d a =
    let absent = Distinct-middle acc r rs d in
    rw (a.0, absent, load_records)
      (rw (put_absent r acc absent) (
        load_records-eq path rs (acc ++ r ∷ []) (rw (append_assoc acc (r ∷ []) rs) d) a.1
        ∙ ap (λ l. (record { path = path; records = l; health = no_health }, none))
            (append_assoc acc (r ∷ []) rs)))

load_health-saved :
    (path : Text) (rs : List Record) (h : HealthReportState)
    → validate_health_report_state h ≡ none
    → load_health
        (if not (is_zero h.last_attempt_at) || not (is_zero h.last_sent_at) then some h else none)
        (record { path = path; records = rs; health = no_health }, none)
      ≡ (record { path = path; records = rs; health = h }, none)
unfolding load_health
load_health-saved path rs h e = ground arith

find-map_sorted :
    (j : Text) (rs : List Record)
    → find record_key j (map with_sorted_details rs)
      ≡ Option.map with_sorted_details (find record_key j rs)
unfolding find
find-map_sorted j [] = refl
find-map_sorted j (r ∷ rs) = ground (arith, find-map_sorted j rs)

Distinct-map_sorted :
    (rs : List Record) → Distinct record_key rs → Distinct record_key (map with_sorted_details rs)
Distinct-map_sorted [] d = tt
Distinct-map_sorted (r ∷ rs) d =
    (find-map_sorted r.key rs ∙ ap (Option.map with_sorted_details) d.0, Distinct-map_sorted rs d.1)

All-map_sorted :
    (rs : List Record)
    → All (λ r. validate_record r ≡ none) rs
    → All (λ r. validate_record r ≡ none) (map with_sorted_details rs)
unfolding validate_record
All-map_sorted [] a = tt
All-map_sorted (r ∷ rs) a = (a.0, All-map_sorted rs a.1)

-- The document as it is read back.
abbrev read_back : File → Document
read_back f = record (document f) { active = map with_sorted_details (document f).active }

load_document-document :
    (f : File)
    → IsValid f
    → load_document f.path (read_back f)
      ≡ (record f { records = map with_sorted_details (sort record_key f.records) }, none)
unfolding load_document document
load_document-document f v =
    rw
      (load_records-eq f.path (map with_sorted_details (sort record_key f.records)) []
        (Distinct-map_sorted _ (Distinct-sort record_key f.records v.distinct))
        (All-map_sorted _
          (All-sort record_key (λ r. validate_record r ≡ none) f.records v.checked)))
      (load_health-saved f.path (map with_sorted_details (sort record_key f.records)) f.health
        v.health_checked)

-- With a codec that loses nothing but the order of details: after a save of a valid state that succeeded,
-- opening the bytes that it wrote succeeds, and gives the same record under every key, its details in
-- sorted order, and the same report times.
pub open_file-save :
    (c : Codec) (fails : Text → Text → Bool) (f : File)
    → IsLossless c
    → IsValid f
    → save c fails f ≡ none
    → (t : Text) × (save_bytes c f ≡ some t)
      × ((open_file c f.path (contents t)).1 ≡ none)
      × ((j : Text)
          → get j (open_file c f.path (contents t)).0 ≡ Option.map with_sorted_details (get j f))
      × ((open_file c f.path (contents t)).0.health ≡ f.health)
unfolding save
open_file-save c fails f law v ok = elim (Option-cases (c.encode (document f))) [
  | inl e ↦ absurd (unfold save_bytes in ground arith)
  | inr p ↦
      let opened : open_file c f.path (contents (p.0 ++ 10 ∷ []))
          ≡ (record f { records = map with_sorted_details (sort record_key f.records) }, none) =
        unfold open_file load_decoded in
        rw (law.decode-encode (document f) p.0 p.1) (load_document-document f v) in
      (
        p.0 ++ 10 ∷ [],
        unfold save_bytes in rw (p.1, save_bytes),
        ap (λ r. r.1) opened,
        λ j. rw opened (
            unfold get in
            find-map_sorted j (sort record_key f.records)
            ∙ ap (Option.map with_sorted_details) (find-sort record_key j f.records v.distinct)),
        ap (λ r. r.0.health) opened,
      )
]
