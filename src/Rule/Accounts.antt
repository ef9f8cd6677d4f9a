-- ===== src/Rule/Accounts.antt =====
-- Which accounts `Auth` reports: the conditions of its batch, account by account.
use cpa_monitor.Base.{
  Bool-cases, List, Option, Text, [], ap, arith, false, find, find-put, find-sort, if◌then◌else◌,
  inl, inr, is_empty, is_some, keep, length, ltb, none, not, put, refl, some, str, suc, text_eq,
  text_eq_iff, true, ℕ, ◌&&◌, ◌∙◌, ◌∷◌, ◌≡◌,
}
use cpa_monitor.Cliproxy.{AuthFile}
use cpa_monitor.Rule.{scope_auth, empty_batch, sorted_conditions, Condition, condition_key, Batch}
use cpa_monitor.Rule.Checked.{auth_entries-Distinct}
use cpa_monitor.Rule.Auth.{
  auth, auth_entry, auth_entries, entry_error, auth_condition, auth_key, auth_index_of,
  auth_reasons, count_index,
}

-- The accounts with an index.
abbrev pub accounts_at : Text → List AuthFile → List AuthFile
accounts_at i files = keep (λ f. text_eq (auth_index_of f) i) files

-- A single account that has a reason is reported; several with one index are not.
unfoldable pub reported_account : List AuthFile → Option Condition
reported_account (f ∷ []) = if is_empty (auth_reasons f) then none else some (auth_condition f)
reported_account _ = none

-- The condition after the accounts, where the index is not ambiguous.
unfoldable latest : Text → List AuthFile → Option Condition → Option Condition
latest i [] acc = acc
latest i (f ∷ fs) acc = latest i fs (
    if text_eq (auth_index_of f) i && not (is_empty (auth_reasons f))
    then some (auth_condition f)
    else acc)

text_eq-auth_key : (a b : Text) → text_eq (auth_key a) (auth_key b) ≡ text_eq a b
unfolding auth_key str text_eq
text_eq-auth_key a b = refl

auth_condition-key : (f : AuthFile) → (auth_condition f).key ≡ auth_key (auth_index_of f)
unfolding auth_condition
auth_condition-key f = refl

module _ (i : Text) (visible : is_empty i ≡ false) (all : List AuthFile) where
  find-auth_entry :
      (n : ℕ) (f : AuthFile) (b : Batch)
      → find condition_key (auth_key i) (auth_entry all n f b).conditions ≡ (
          if text_eq (auth_index_of f) i
            && (not (ltb 1 (count_index i all)) && not (is_empty (auth_reasons f)))
          then some (auth_condition f)
          else find condition_key (auth_key i) b.conditions)
  unfolding auth_entry entry_error
  find-auth_entry n f b =
      let index = auth_index_of f in
      let same : text_eq index i ≡ true → index ≡ i = λ e. (text_eq_iff index i).0 e in
      let counted : text_eq index i ≡ true → count_index index all ≡ count_index i all =
        λ e. ap (λ x. count_index x all) (same e) in
      let shown : text_eq index i ≡ true → is_empty index ≡ false =
        λ e. ap is_empty (same e) ∙ visible in
      let stored : find condition_key (auth_key i)
            (put condition_key (auth_condition f) b.conditions)
          ≡ (if text_eq index i
              then some (auth_condition f)
              else find condition_key (auth_key i) b.conditions) =
        find-put condition_key (auth_key i) (auth_condition f) b.conditions
        ∙ ap
            (λ x.
              if x then some (auth_condition f) else find condition_key (auth_key i) b.conditions)
            (ap (λ k. text_eq k (auth_key i)) (auth_condition-key f) ∙ text_eq-auth_key index i) in
      ground (arith, stored, counted, shown)

  find-auth_entries :
      (n : ℕ) (fs : List AuthFile) (b : Batch)
      → find condition_key (auth_key i) (auth_entries all n fs b).conditions ≡ (
          if ltb 1 (count_index i all)
          then find condition_key (auth_key i) b.conditions
          else latest i fs (find condition_key (auth_key i) b.conditions))
  unfolding auth_entries latest
  find-auth_entries n [] b = ground arith
  find-auth_entries n (f ∷ fs) b =
      find-auth_entries (suc n) fs (auth_entry all n f b)
      ∙ (rw (find-auth_entry n f b) (ground arith))

absent :
    (i : Text) (fs : List AuthFile) (acc : Option Condition)
    → count_index i fs ≡ 0
    → (latest i fs acc ≡ acc) × (accounts_at i fs ≡ [])
unfolding latest count_index keep
absent i [] acc h = (refl, refl)
absent i (f ∷ fs) acc h = elim (Bool-cases (text_eq (auth_index_of f) i)) [
  | inl same ↦ (ground (arith, h, same), ground (arith, h, same))
  | inr other ↦
      let (l, a) = absent i fs acc (ground (arith, h, other)) in
      (ground (arith, other, l), ground (arith, other, a))
]

latest_lem :
    (i : Text) (fs : List AuthFile) (acc : Option Condition)
    → ltb 1 (count_index i fs) ≡ false
    → latest i fs acc ≡ (
        if is_some (reported_account (accounts_at i fs))
        then reported_account (accounts_at i fs)
        else acc)
unfolding latest count_index reported_account keep
latest_lem i [] acc h = refl
latest_lem i (f ∷ fs) acc h = elim (Bool-cases (text_eq (auth_index_of f) i)) [
  | inr other ↦ ground (arith, other, h, latest_lem i fs acc)
  | inl same ↦
      let acc' = if not (is_empty (auth_reasons f)) then some (auth_condition f) else acc in
      let (l, a) = absent i fs acc' (ground (arith, h, same)) in ground (arith, same, l, a)
]

count_index-length : (i : Text) (fs : List AuthFile) → count_index i fs ≡ length (accounts_at i fs)
unfolding count_index keep
count_index-length i [] = refl
count_index-length i (f ∷ fs) = ground (arith, count_index-length i fs)

crowded : (xs : List AuthFile) → ltb 1 (length xs) ≡ true → reported_account xs ≡ none
unfolding reported_account
crowded [] h = refl
crowded (x ∷ []) h = ground (arith, h)
crowded (x ∷ y ∷ xs) h = refl

-- Whatever the array of accounts holds: under an index that is not empty, the batch of `Auth` has a
-- condition exactly when one account has this index, and it has a reason; then the condition is that
-- of the account. An index that several accounts share has none.
pub auth-find :
    (i : Text) (files : List AuthFile)
    → is_empty i ≡ false
    → find condition_key (auth_key i) (auth files).conditions
      ≡ reported_account (accounts_at i files)
unfolding auth sorted_conditions find
auth-find i files v =
    let cs = (auth_entries files 1 files (empty_batch scope_auth)).conditions in
    find-sort condition_key (auth_key i) cs (auth_entries-Distinct files)
    ∙ find-auth_entries i v files 1 files (empty_batch scope_auth)
    ∙ (elim (Bool-cases (ltb 1 (count_index i files))) [
      | inl many ↦
          let none_there : reported_account (accounts_at i files) ≡ none =
            crowded (accounts_at i files) (rw (← count_index-length i files) many) in
          ground (arith, many, none_there)
      | inr few ↦ ground (arith, few, latest_lem i files none few)
    ])
