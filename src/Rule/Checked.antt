-- ===== src/Rule/Checked.antt =====
-- What the batches of the rules in internal/rule/rule.go have in common.
use cpa_monitor.Base.{
  All, All-put, All-sort, Bool, Bool-cases, Distinct, Distinct-put, Distinct-sort, List, Option,
  Text, [], decimal, false, find, if◌then◌else◌, inl, inr, is_blank, is_blank-cons, is_empty,
  is_space, leb, none, refl, some, str, suc, sym, true, ℕ, ◌++◌, ◌∙◌, ◌∷◌, ◌≡◌,
}
use cpa_monitor.Collector.{MemoryUsage, TcpUsage}
use cpa_monitor.Cliproxy.{AuthFile}
use cpa_monitor.Rule.{
  EntryError, put_if, memory_condition, scope_health, scope_memory, scope_network, scope_auth,
  scope_disk, Condition, condition_key, Batch, Floats, sorted_conditions, health, memory, tcp,
  service_port_key, total_condition, service_condition, empty_batch,
}
use cpa_monitor.Rule.Auth.{
  auth, auth_entry, auth_entries, entry_error, auth_condition, auth_key, auth_index_of,
}

pub record Fits (scope : Text) (c : Condition) : Type 0 where
  pub key : is_blank c.key ≡ false
  pub scoped : c.scope ≡ scope

pub record IsWellFormed (b : Batch) : Type 0 where
  pub scope : is_blank b.scope ≡ false
  pub fit : All (Fits b.scope) b.conditions
  pub distinct : Distinct condition_key b.conditions
  pub flagged : b.complete ≡ true → is_empty b.errors ≡ true

-- The literals that begin the rules' scopes and keys.
module _ (t : Text) where
  pub disk_visible : is_blank (str "resource:disk:" ++ t) ≡ false
  unfolding str is_space
  disk_visible = is_blank-cons _ _ refl

  port_visible : is_blank (str "network:service_port:" ++ t) ≡ false
  unfolding str is_space
  port_visible = is_blank-cons _ _ refl

  auth_visible : is_blank (str "auth:" ++ t) ≡ false
  unfolding str is_space
  auth_visible = is_blank-cons _ _ refl

pub scopes_visible :
    (is_blank scope_health ≡ false)
    × (is_blank scope_memory ≡ false)
    × (is_blank scope_disk ≡ false)
    × (is_blank scope_network ≡ false)
    × (is_blank scope_auth ≡ false)
unfolding str is_space
scopes_visible = (
  is_blank-cons _ _ refl,
  is_blank-cons _ _ refl,
  is_blank-cons _ _ refl,
  is_blank-cons _ _ refl,
  is_blank-cons _ _ refl,
)

-- A map of conditions of one scope, sorted, in a batch with no error.
sorted-IsWellFormed :
    (scope : Text) (cs : List Condition)
    → is_blank scope ≡ false
    → All (Fits scope) cs
    → Distinct condition_key cs
    → IsWellFormed
        (record { scope = scope; complete = true; conditions = sorted_conditions cs; errors = [] })
unfolding sorted_conditions
sorted-IsWellFormed scope cs v a d = record {
  scope = v;
  fit = All-sort condition_key (Fits scope) cs a;
  distinct = Distinct-sort condition_key cs d;
  flagged = λ e. refl;
}

-- `Health`.
pub health-IsWellFormed : (err : Option Text) → IsWellFormed (health err)
unfolding health
health-IsWellFormed none = record {
  scope = scopes_visible.0;
  fit = tt;
  distinct = tt;
  flagged = λ e. refl;
}
health-IsWellFormed (some e) = record {
  scope = scopes_visible.0;
  fit = (record { key = unfold str is_space in is_blank-cons _ _ refl; scoped = refl }, tt);
  distinct = (unfold find in refl, tt);
  flagged = λ e. refl;
}

-- `Memory`.
pub memory-IsWellFormed :
    {F : Type 0} (fl : Floats F) (usage : MemoryUsage F) (threshold : F)
    → IsWellFormed (memory fl usage threshold)
unfolding memory
memory-IsWellFormed fl usage threshold = elim (Bool-cases (fl.ge usage.used_percent threshold)) [
  | inl t ↦
      rw (t, memory)
        (record {
          scope = scopes_visible.1;
          fit = (
            record {
              key = unfold memory_condition str is_space in is_blank-cons _ _ refl;
              scoped = unfold memory_condition in refl;
            },
            tt,
          );
          distinct = (unfold find in refl, tt);
          flagged = λ e. refl;
        })
  | inr f ↦
      rw (f, memory)
        (record { scope = scopes_visible.1; fit = tt; distinct = tt; flagged = λ e. refl })
]

total-Fits : (n t : ℕ) → Fits scope_network (total_condition n t)
unfolding total_condition str is_space
total-Fits n t = record { key = is_blank-cons _ _ refl; scoped = refl }

service-Fits : (p n t : ℕ) → Fits scope_network (service_condition p n t)
unfolding service_condition service_port_key
service-Fits p n t = record { key = port_visible (decimal p); scoped = refl }

put_if-Fits :
    (b : Bool) (c : Condition) (cs : List Condition)
    → Fits scope_network c
    → All (Fits scope_network) cs
    → All (Fits scope_network) (put_if b c cs)
unfolding put_if
put_if-Fits true c cs f a = All-put condition_key (Fits scope_network) c cs f a
put_if-Fits false c cs f a = a

put_if-Distinct :
    (b : Bool) (c : Condition) (cs : List Condition)
    → Distinct condition_key cs
    → Distinct condition_key (put_if b c cs)
unfolding put_if
put_if-Distinct true c cs d = Distinct-put condition_key c cs d
put_if-Distinct false c cs d = d

-- Whatever the counts, the port and the thresholds, the batch of `TCP` has a visible scope; its
-- conditions have that scope, visible keys and distinct keys; and if it is complete, it has no error.
pub tcp-IsWellFormed :
    (usage : TcpUsage) (port total service : ℕ) → IsWellFormed (tcp usage port total service)
unfolding tcp
tcp-IsWellFormed usage port total service =
    let t = usage.total_connections in
    let s = usage.service_port_connections in
    let first = put_if (leb total t) (total_condition t total) [] in
    sorted-IsWellFormed scope_network
      (put_if (leb service s) (service_condition port s service) first) scopes_visible.3
      (put_if-Fits (leb service s) (service_condition port s service) first
        (service-Fits port s service)
        (put_if-Fits (leb total t) (total_condition t total) [] (total-Fits t total) tt))
      (put_if-Distinct (leb service s) (service_condition port s service) first
        (put_if-Distinct (leb total t) (total_condition t total) [] tt))

-- What the loop of `Auth` keeps.
record IsAuth (b : Batch) : Type 0 where
  scope : b.scope ≡ scope_auth
  fit : All (Fits scope_auth) b.conditions
  distinct : Distinct condition_key b.conditions
  flagged : b.complete ≡ is_empty b.errors

snoc_not_empty : (es : List EntryError) (e : EntryError) → is_empty (es ++ e ∷ []) ≡ false
snoc_not_empty [] e = refl
snoc_not_empty (x ∷ es) e = refl

entry_error-IsAuth : (e : EntryError) (b : Batch) → IsAuth b → IsAuth (entry_error e b)
unfolding entry_error
entry_error-IsAuth e b v = record {
  scope = v.scope;
  fit = v.fit;
  distinct = v.distinct;
  flagged = sym (snoc_not_empty b.errors e);
}

auth-Fits : (f : AuthFile) → Fits scope_auth (auth_condition f)
unfolding auth_condition auth_key
auth-Fits f = record { key = auth_visible (auth_index_of f); scoped = refl }

if-IsAuth : (t : Bool) (a b : Batch) → IsAuth a → IsAuth b → IsAuth (if t then a else b)
if-IsAuth true a b v w = v
if-IsAuth false a b v w = w

auth_entry-IsAuth :
    (all : List AuthFile) (i : ℕ) (f : AuthFile) (b : Batch)
    → IsAuth b
    → IsAuth (auth_entry all i f b)
unfolding auth_entry
auth_entry-IsAuth all i f b v = if-IsAuth _ _ _ (if-IsAuth _ _ _ v (entry_error-IsAuth _ b v)) (
    if-IsAuth _ _ _ (entry_error-IsAuth _ b v) (
      if-IsAuth _ _ _ v (record {
        scope = v.scope;
        fit =
            All-put condition_key (Fits scope_auth) (auth_condition f) b.conditions (auth-Fits f)
              v.fit;
        distinct = Distinct-put condition_key (auth_condition f) b.conditions v.distinct;
        flagged = v.flagged;
      })))

auth_entries-IsAuth :
    (all : List AuthFile) (i : ℕ) (fs : List AuthFile) (b : Batch)
    → IsAuth b
    → IsAuth (auth_entries all i fs b)
unfolding auth_entries
auth_entries-IsAuth all i [] b v = v
auth_entries-IsAuth all i (f ∷ fs) b v =
    auth_entries-IsAuth all (suc i) fs (auth_entry all i f b) (auth_entry-IsAuth all i f b v)

-- Whatever the array of accounts holds, duplicates and missing indexes included, the batch of `Auth`
-- has a visible scope; its conditions have that scope, visible keys and distinct keys; and if it is
-- complete, it has no error.
pub auth-IsWellFormed : (files : List AuthFile) → IsWellFormed (auth files)
unfolding auth sorted_conditions
auth-IsWellFormed files =
    let v =
      auth_entries-IsAuth files 1 files (empty_batch scope_auth)
        (record { scope = refl; fit = tt; distinct = tt; flagged = refl }) in
    record {
      scope = rw (v.scope) (scopes_visible.4);
      fit = rw (v.scope) (All-sort condition_key (Fits scope_auth) _ v.fit);
      distinct = Distinct-sort condition_key _ v.distinct;
      flagged = λ e. sym (v.flagged) ∙ e;
    }

-- The batch of `Auth` is complete exactly when it has no error, whatever the array holds.
auth-complete : (files : List AuthFile) → (auth files).complete ≡ is_empty (auth files).errors
unfolding auth
auth-complete files =
    (auth_entries-IsAuth files 1 files (empty_batch scope_auth)
      (record { scope = refl; fit = tt; distinct = tt; flagged = refl })).flagged

pub auth_scope : (files : List AuthFile) → (auth files).scope ≡ scope_auth
unfolding auth
auth_scope files =
    (auth_entries-IsAuth files 1 files (empty_batch scope_auth)
      (record { scope = refl; fit = tt; distinct = tt; flagged = refl })).scope

pub auth_entries-Distinct :
    (files : List AuthFile)
    → Distinct condition_key (auth_entries files 1 files (empty_batch scope_auth)).conditions
auth_entries-Distinct files =
    (auth_entries-IsAuth files 1 files (empty_batch scope_auth)
      (record { scope = refl; fit = tt; distinct = tt; flagged = refl })).distinct
