-- ===== src/Collector/Calls.antt =====
-- The statfs calls that internal/collector/proc.go shares between its callers: a call that hangs is
-- not started again. A step is what happens under the mutex, at the end of a call's goroutine, or
-- where a waiting caller gives up.
use cpa_monitor.Base.{
  Bool, List, Option, Text, [], false, if◌then◌else◌, length, none, some, text_eq, ℕ, ◌==◌, ◌∷◌,
  ◌⊎◌,
}
use cpa_monitor.Collector.Disks.{StatFsInfo}

abbrev pub Answer : Type 0
Answer = Text ⊎ StatFsInfo

-- `*statCall`: its identity, its path, and its result once the goroutine is done.
pub record StatCall : Type 0 where
  pub id : ℕ
  pub path : Text
  pub result : Option Answer

-- The calls made so far, and the map `statCalls` from a path to the identity of its call.
pub record Calls : Type 0 where
  pub made : List StatCall
  pub registered : Text → Option ℕ

abbrev pub no_calls : Calls
no_calls = record { made = []; registered = λ p. none }

-- `c.statCalls[path] = id`, or its removal.
unfoldable pub register : Text → Option ℕ → (Text → Option ℕ) → Text → Option ℕ
register path entry m p = if text_eq path p then entry else m p

-- `statCall`: a registered call is returned; otherwise one is registered and started.
unfoldable pub stat_call : Text → Calls → ℕ × Calls
stat_call path c =
    let id = length c.made in
    elim (c.registered path) [
      | some existing ↦ (existing, c)
      | none ↦ (
        id,
        record {
          made = (record { id = id; path = path; result = none }) ∷ c.made;
          registered = register path (some id) c.registered;
        },
      )
    ]

-- The goroutine of the call ends with an answer.
unfoldable pub answered : ℕ → Answer → List StatCall → List StatCall
answered id a [] = []
answered id a (x ∷ xs) =
    let rest = answered id a xs in
    if x.id == id then record x { result = some a } ∷ xs else x ∷ rest

unfoldable pub complete_call : ℕ → Answer → Calls → Calls
complete_call id a c = record c { made = answered id a c.made }

unfoldable pub is_registered : Option ℕ → ℕ → Bool
is_registered none id = false
is_registered (some k) id = k == id

-- `finishStatCall`: the entry is removed if it is still this call's.
unfoldable pub finish_stat_call : Text → ℕ → Calls → Calls
finish_stat_call path id c =
    if is_registered (c.registered path) id
    then record c { registered = register path none c.registered }
    else c

unfoldable pub call_at : ℕ → List StatCall → Option StatCall
call_at id [] = none
call_at id (x ∷ xs) = let rest = call_at id xs in if x.id == id then some x else rest
