-- ===== src/Rule/Auth.antt =====
-- `Auth` of internal/rule/rule.go: the conditions of the accounts.
use cpa_monitor.Base.{
  Bool, List, Text, [], contains, equal_fold, false, if◌then◌else◌, is_empty, join, lower_rune, ltb,
  map, not, put, str, suc, text_eq, trim_space, true, ℕ, ◌&&◌, ◌++◌, ◌∷◌,
}
use cpa_monitor.Cliproxy.{AuthFile}
use cpa_monitor.Rule.{
  scope_auth, Condition, condition_key, EntryError, missing_auth_index, duplicate_auth_index, Batch,
  empty_batch, sorted_conditions,
}

unfoldable pub quota_keywords : List Text
unfolding str
quota_keywords =
    str "quota"
    ∷ str "usage limit"
    ∷ str "limit reached"
    ∷ str "exhausted"
    ∷ str "额度"
    ∷ str "限额"
    ∷ []

unfoldable pub contains_any : Text → List Text → Bool
contains_any s [] = false
contains_any s (k ∷ ks) = let rest = contains_any s ks in if contains s k then true else rest

-- `containsQuotaKeyword`.
unfoldable pub contains_quota_keyword : Text → Bool
contains_quota_keyword message = contains_any (map lower_rune message) quota_keywords

-- `authReasons`.
unfoldable pub auth_reasons : AuthFile → List Text
auth_reasons file =
    let unavailable = if file.unavailable then str "unavailable" ∷ [] else [] in
    let status = trim_space file.status in
    let quota =
      if contains_quota_keyword file.status_message
      then str "quota-like status message" ∷ []
      else [] in
    let inactive =
      if not (is_empty status) && not (equal_fold status (str "active"))
      then str "non-active status" ∷ []
      else [] in
    if file.disabled then unavailable else unavailable ++ (quota ++ inactive)

-- `firstNonEmpty`.
unfoldable pub first_non_empty : List Text → Text
first_non_empty [] = str "unknown"
first_non_empty (v ∷ vs) =
    let rest = first_non_empty vs in if is_empty (trim_space v) then rest else trim_space v

unfoldable pub auth_index_of : AuthFile → Text
auth_index_of file = trim_space file.auth_index

unfoldable pub auth_key : Text → Text
auth_key index = str "auth:" ++ index

unfoldable pub format_bool : Bool → Text
format_bool b = if b then str "true" else str "false"

-- The condition of an account with its index and the reasons.
unfoldable pub auth_condition : AuthFile → Condition
auth_condition file =
    let index = auth_index_of file in
    let current = join (str ", ") (auth_reasons file) in
    record {
      key = auth_key index;
      scope = scope_auth;
      summary =
          str "auth "
          ++ (first_non_empty (file.email ∷ file.account ∷ file.name ∷ index ∷ [])
              ++ (str " " ++ current));
      current = current;
      threshold = str "active and available";
      details =
          (str "kind", str "auth")
          ∷ (str "auth_index", index)
          ∷ (str "name", file.name)
          ∷ (str "provider", file.provider)
          ∷ (str "type", file.kind)
          ∷ (str "email", file.email)
          ∷ (str "account", file.account)
          ∷ (str "status", file.status)
          ∷ (str "status_message", file.status_message)
          ∷ (str "disabled", format_bool file.disabled)
          ∷ (str "unavailable", format_bool file.unavailable)
          ∷ (str "reason", current)
          ∷ [];
    }

-- `counts[index]`; the source counts the indexes that are not empty, and asks only for those.
unfoldable pub count_index : Text → List AuthFile → ℕ
count_index index [] = 0
count_index index (f ∷ fs) =
    let rest = count_index index fs in if text_eq (auth_index_of f) index then suc rest else rest

unfoldable pub entry_error : EntryError → Batch → Batch
entry_error e b = record b { complete = false; errors = b.errors ++ e ∷ [] }

-- One round of the loop, at the `i`-th entry from 1. `all` is the whole array.
unfoldable pub auth_entry : List AuthFile → ℕ → AuthFile → Batch → Batch
auth_entry all i file b =
    let index = auth_index_of file in
    if is_empty index
    then (if is_empty (auth_reasons file) then b else entry_error (missing_auth_index i) b)
    else if ltb 1 (count_index index all)
    then entry_error (duplicate_auth_index i index) b
    else if is_empty (auth_reasons file)
    then b
    else record b { conditions = put condition_key (auth_condition file) b.conditions }

unfoldable pub auth_entries : List AuthFile → ℕ → List AuthFile → Batch → Batch
auth_entries all i [] b = b
auth_entries all i (f ∷ fs) b = auth_entries all (suc i) fs (auth_entry all i f b)

-- `Auth`.
unfoldable pub auth : List AuthFile → Batch
auth files =
    let b = auth_entries files 1 files (empty_batch scope_auth) in
    record b { conditions = sorted_conditions b.conditions }
