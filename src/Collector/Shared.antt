-- ===== src/Collector/Shared.antt =====
-- The shared statfs calls of internal/collector/proc.go as a state machine: what callers, goroutines and
-- waiting callers do, in any order.
use cpa_monitor.Base.{
  Bool-cases, List, Option, Option-cases, Text, [], ap, arith, if◌then◌else◌, inl, inr, length,
  none, refl, some, subst, sym, text_eq, text_eq_iff, true, ℕ, ◌<◌, ◌==◌, ◌∙◌, ◌∷◌, ◌≡◌,
}
use cpa_monitor.Collector.Calls.{
  is_registered, register, answered, Answer, StatCall, Calls, no_calls, stat_call, complete_call,
  finish_stat_call, call_at,
}

-- A goroutine ends once, with an answer; a caller may finish a call that has answered, at any time
-- after.
pub data Step : Calls → Calls → Type 0 where
  asks : (path : Text) (c : Calls) → Step c (stat_call path c).1
  answers :
      (id : ℕ) (a : Answer) (c : Calls) {x : StatCall}
      → call_at id c.made ≡ some x
      → x.result ≡ none
      → Step c (complete_call id a c)
  finishes :
      (id : ℕ) (c : Calls) {x : StatCall} {a : Answer}
      → call_at id c.made ≡ some x
      → x.result ≡ some a
      → Step c (finish_stat_call x.path id c)

pub data Reachable : Calls → Type 0 where
  start : Reachable no_calls
  step : {c d : Calls} → Reachable c → Step c d → Reachable d

record IsSane (c : Calls) : Type 0 where
  known : (id : ℕ) (x : StatCall) → call_at id c.made ≡ some x → id < length c.made
  entry :
      (path : Text) (id : ℕ)
      → c.registered path ≡ some id
      → (x : StatCall) × (call_at id c.made ≡ some x) × (x.path ≡ path)
  running :
      (id : ℕ) (x : StatCall)
      → call_at id c.made ≡ some x
      → x.result ≡ none
      → c.registered x.path ≡ some id

abbrev with_result : Answer → Option StatCall → Option StatCall
with_result a none = none
with_result a (some x) = some (record x { result = some a })

call_at-answered :
    (id j : ℕ) (a : Answer) (xs : List StatCall)
    → call_at j (answered id a xs)
      ≡ (if id == j then with_result a (call_at j xs) else call_at j xs)
unfolding call_at answered
call_at-answered id j a [] = ground arith
call_at-answered id j a (x ∷ xs) = ground (arith, call_at-answered id j a xs)

length-answered : (id : ℕ) (a : Answer) (xs : List StatCall) → length (answered id a xs) ≡ length xs
unfolding answered
length-answered id a [] = refl
length-answered id a (x ∷ xs) = ground (arith, length-answered id a xs)

no_calls-IsSane : IsSane no_calls
unfolding call_at
no_calls-IsSane = record {
  known = λ id x h. absurd (ground (arith, h));
  entry = λ path id h. absurd (ground (arith, h));
  running = λ id x h k. absurd (ground (arith, h));
}

some-injective : {x y : StatCall} → some x ≡ some y → x ≡ y
some-injective h = cc

-- A new call.
module _ (path : Text) (c : Calls) (s : IsSane c) (free : c.registered path ≡ none) where
  abbrev fresh : StatCall
  fresh = record { id = length c.made; path = path; result = none }

  abbrev asked : Calls
  asked = record {
    made = fresh ∷ c.made;
    registered = register path (some (length c.made)) c.registered;
  }

  asked-known : (id : ℕ) (x : StatCall) → call_at id asked.made ≡ some x → id < length asked.made
  unfolding call_at
  asked-known id x h = ground (arith, h, s.known id x)

  asked-entry :
      (p : Text) (id : ℕ)
      → asked.registered p ≡ some id
      → (x : StatCall) × (call_at id asked.made ≡ some x) × (x.path ≡ p)
  unfolding call_at register
  asked-entry p id h = elim (Bool-cases (text_eq path p)) [
    | inl t ↦ (fresh, ground (arith, h, t), ground (arith, text_eq_iff path p, t))
    | inr f ↦
        let (x, e, q) = s.entry p id (ground (arith, h, f)) in
        let old = s.known id x e in (x, ground (arith, e, old), q)
  ]

  asked-running :
      (id : ℕ) (x : StatCall)
      → call_at id asked.made ≡ some x
      → x.result ≡ none
      → asked.registered x.path ≡ some id
  unfolding call_at register
  asked-running id x h k = elim (Bool-cases (length c.made == id)) [
    | inl e ↦
        let found : some fresh ≡ some x = ground (arith, e, h) in
        subst (λ y. register path (some (length c.made)) c.registered y.path ≡ some id)
          (some-injective found) (ground (arith, e, text_eq_iff path path))
    | inr e ↦ ground (arith, s.running id x (ground (arith, e, h)) k, free, text_eq_iff path x.path)
  ]

stat_call-IsSane : (path : Text) (c : Calls) → IsSane c → IsSane (stat_call path c).1
unfolding stat_call
stat_call-IsSane path c s = elim (Option-cases (c.registered path)) [
  | inr (id, e) ↦ rw (e, stat_call) s
  | inl e ↦
      rw (e, stat_call)
        (record {
          known = asked-known path c s e;
          entry = asked-entry path c s e;
          running = asked-running path c s e;
        })
]

-- The end of a goroutine.
module _ (id : ℕ) (a : Answer) (c : Calls) (s : IsSane c) where
  done :
      (j : ℕ) (x : StatCall)
      → call_at j (answered id a c.made) ≡ some x
      → (y : StatCall) × (call_at j c.made ≡ some y)
        × (y.path ≡ x.path)
        × ((x.result ≡ none) → y.result ≡ none)
  done j x h =
      let after = call_at-answered id j a c.made in
      elim (Option-cases (call_at j c.made)) [
        | inl e ↦ absurd (ground (arith, after, e, h))
        | inr (y, e) ↦ elim (Bool-cases (id == j)) [
          | inl same ↦
              let q : (record y { result = some a }) ≡ x =
                some-injective (ground (arith, after, e, h, same)) in
              let taken : some a ≡ x.result = ap (λ r. r.result) q in
              (y, e, ap (λ r. r.path) q, λ k. absurd (ground (arith, taken, k)))
          | inr other ↦
              let q : y ≡ x = some-injective (ground (arith, after, e, h, other)) in
              (y, e, ap (λ r. r.path) q, λ k. ap (λ r. r.result) q ∙ k)
        ]
      ]

  kept :
      (j : ℕ) (x : StatCall) (path : Text)
      → call_at j c.made ≡ some x
      → x.path ≡ path
      → (y : StatCall) × (call_at j (answered id a c.made) ≡ some y) × (y.path ≡ path)
  kept j x path e q =
      let after = call_at-answered id j a c.made in
      elim (Bool-cases (id == j)) [
        | inl same ↦ (record x { result = some a }, ground (arith, after, e, same), q)
        | inr other ↦ (x, ground (arith, after, e, other), q)
      ]

  complete_call-IsSane : IsSane (complete_call id a c)
  unfolding complete_call
  complete_call-IsSane = record {
    known = λ j x h.
        let (y, e, q, k) = done j x h in
        subst (λ n. j < n) (sym (length-answered id a c.made)) (s.known j y e);
    entry = λ path j h. let (x, e, q) = s.entry path j h in kept j x path e q;
    running = λ j x h k.
        let (y, e, q, l) = done j x h in
        subst (λ p. c.registered p ≡ some j) q (s.running j y e (l k));
  }

-- The removal of a call that has answered.
module _ (id : ℕ) (c : Calls) (s : IsSane c) (x : StatCall) (a : Answer)
    (at : call_at id c.made ≡ some x) (over : x.result ≡ some a) where
  removed-entry :
      (path : Text) (j : ℕ)
      → register x.path none c.registered path ≡ some j
      → (y : StatCall) × (call_at j c.made ≡ some y) × (y.path ≡ path)
  unfolding register
  removed-entry path j h = s.entry path j (ground (arith, h))

  removed-running :
      is_registered (c.registered x.path) id ≡ true
      → (j : ℕ) (y : StatCall) → call_at j c.made ≡ some y
      → y.result ≡ none
      → register x.path none c.registered y.path ≡ some j
  unfolding register is_registered
  removed-running r j y e k = elim (Bool-cases (text_eq x.path y.path)) [
    | inr f ↦ ground (arith, f, s.running j y e k)
    | inl t ↦
        let p : x.path ≡ y.path = ground (arith, text_eq_iff x.path y.path, t) in
        let reg : c.registered x.path ≡ some j = ap c.registered p ∙ s.running j y e k in
        let same : id ≡ j = ground (arith, r, reg) in
        let q : x ≡ y = some-injective (sym at ∙ (ap (λ n. call_at n c.made) same ∙ e)) in
        absurd (ground (arith, sym over ∙ (ap (λ r. r.result) q ∙ k)))
  ]

  finish_stat_call-IsSane : IsSane (finish_stat_call x.path id c)
  unfolding finish_stat_call
  finish_stat_call-IsSane = elim (Bool-cases (is_registered (c.registered x.path) id)) [
    | inr e ↦ rw (e) s
    | inl e ↦
        rw (e) (record { known = s.known; entry = removed-entry; running = removed-running e })
  ]

Step-IsSane : {c d : Calls} → Step c d → IsSane c → IsSane d
Step-IsSane (asks path c) s = stat_call-IsSane path c s
Step-IsSane (answers id a c e k) s = complete_call-IsSane id a c s
Step-IsSane (finishes id c {x} {a} e k) s = finish_stat_call-IsSane id c s x a e k

Reachable-IsSane : {c : Calls} → Reachable c → IsSane c
Reachable-IsSane start = no_calls-IsSane
Reachable-IsSane (step r t) = Step-IsSane t (Reachable-IsSane r)

-- In whatever order callers ask, goroutines end and callers finish: two calls that are running for one
-- path are one call.
pub one_running_call :
    {c : Calls}
    → Reachable c
    → {i j : ℕ} {x y : StatCall} → call_at i c.made ≡ some x
    → call_at j c.made ≡ some y
    → x.result ≡ none
    → y.result ≡ none
    → x.path ≡ y.path
    → i ≡ j
one_running_call {c} r {i} {j} {x} {y} e k h l p =
    let s = Reachable-IsSane r in
    let first = s.running i x e h in
    let second = s.running j y k l in
    let paths = ap c.registered p in ground (arith, first, second, paths)

-- The call that a caller waits for is on the caller's path.
pub stat_call-path :
    {c : Calls}
    → Reachable c
    → (path : Text)
    → (x : StatCall) × (call_at (stat_call path c).0 (stat_call path c).1.made ≡ some x)
      × (x.path ≡ path)
unfolding stat_call call_at
stat_call-path {c} r path = elim (Option-cases (c.registered path)) [
  | inr (id, e) ↦ rw (e, stat_call) ((Reachable-IsSane r).entry path id e)
  | inl e ↦
      rw (e, stat_call)
        (record { id = length c.made; path = path; result = none }, ground arith, refl)
]
