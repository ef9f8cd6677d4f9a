-- ===== src/Dingtalk/Details.antt =====
-- The details of an event, as `formatDetails` of internal/alerter/manager.go writes them and
-- `parseEventDetails` of internal/dingtalk/message.go reads them.
use cpa_monitor.Base.{
  All, All-sort, Bool, Distinct, Distinct-sort, Option, Text, [], ap, arith, cut, false, find,
  find-put_all, find-sort, if◌then◌else◌, is_blank, is_some, join, map, none, not, onto_head, put,
  put_all, refl, some, sort, split, str, trim_space, true, ℕ, ◌&&◌, ◌++◌, ◌==◌, ◌∙◌, ◌∷◌, ◌≡◌,
}
use cpa_monitor.State.{Details}
use cpa_monitor.Alerter.Message.{detail_key, format_details}
use cpa_monitor.Dingtalk.Labels.{add_detail, add_details, parse_event_details}

abbrev pub lacks : ℕ → Text → Bool
lacks c [] = true
lacks c (x ∷ s) = not (x == c) && lacks c s

-- A detail that fills one line, with nothing to trim.
abbrev pub IsOneLine : Text × Text → Type 0
IsOneLine d =
    (is_blank d.0 ≡ false)
    × (trim_space d.0 ≡ d.0)
    × (trim_space d.1 ≡ d.1)
    × (lacks b'=' d.0 ≡ true)
    × (lacks 10 (d.0 ++ (str "=" ++ d.1)) ≡ true)

line : Text × Text → Text
line d = d.0 ++ (str "=" ++ d.1)

cut-append : (c : ℕ) (s t : Text) → lacks c s ≡ true → cut c (s ++ c ∷ t) ≡ some (s, t)
unfolding cut
cut-append c [] t h = ground arith
cut-append c (x ∷ s) t h = ground (arith, cut-append c s t)

add_detail-line :
    (d : Text × Text) (m : Details) → IsOneLine d → add_detail (line d) m ≡ put detail_key d m
unfolding add_detail line str
add_detail-line d m h = rw (cut-append b'=' d.0 d.1 h.3, h.0, h.1, h.2, add_detail)

split-lacks : (s : Text) → lacks 10 s ≡ true → split 10 s ≡ s ∷ []
unfolding split onto_head
split-lacks [] h = refl
split-lacks (x ∷ s) h = ground (arith, split-lacks s)

split-append : (s t : Text) → lacks 10 s ≡ true → split 10 (s ++ 10 ∷ t) ≡ s ∷ split 10 t
unfolding split onto_head
split-append [] t h = ground arith
split-append (x ∷ s) t h = ground (arith, split-append s t)

lines-put_all :
    (ds m : Details)
    → All IsOneLine ds
    → add_details (split 10 (join (10 ∷ []) (map line ds))) m ≡ put_all detail_key ds m
unfolding join add_details put_all
lines-put_all [] m a = unfold split in unfold add_detail in unfold cut in refl
lines-put_all (d ∷ []) m a =
    rw (split-lacks (line d) (unfold line in a.0.4)) (add_detail-line d m a.0)
lines-put_all (d ∷ e ∷ ds) m a =
    let rest = join (10 ∷ []) (map line (e ∷ ds)) in
    ap (λ ls. add_details ls m) (split-append (line d) rest (unfold line in a.0.4))
    ∙ ap (add_details (split 10 rest)) (add_detail-line d m a.0)
    ∙ lines-put_all (e ∷ ds) (put detail_key d m) a.1

-- The details that the alert manager writes are read back with the same values under the same keys: if
-- the keys differ, are not blank and have no "=", and neither keys nor values have a line break or
-- white space at an end.
pub parse_event_details-format_details :
    (details : Details) (key : Text)
    → Distinct detail_key details
    → All IsOneLine details
    → find detail_key key (parse_event_details (format_details details))
      ≡ find detail_key key details
unfolding parse_event_details format_details line
parse_event_details-format_details details key d a =
    let sorted = sort detail_key details in
    ap (find detail_key key) (lines-put_all sorted [] (All-sort detail_key IsOneLine details a))
    ∙ find-put_all detail_key key sorted [] (Distinct-sort detail_key details d)
    ∙ found (find detail_key key sorted)
    ∙ find-sort detail_key key details d
  where
    found : (o : Option (Text × Text)) → (if is_some o then o else find detail_key key []) ≡ o
    found none = unfold find in refl
    found (some x) = refl
