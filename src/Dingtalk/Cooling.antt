-- ===== src/Dingtalk/Cooling.antt =====
-- The pause of the client in internal/dingtalk/client.go, against a client that remembers its history.
use cpa_monitor.Base.{
  ap, Bool-cases, pos, Bool, List, Option, Text, [], arith, false, if◌then◌else◌, inl, inr, leb,
  ltb, none, not, refl, some, true, ℤ, ◌&&◌, ◌+◌, ◌||◌, ◌∷◌, ◌≡◌, ◌⊎◌,
}
use cpa_monitor.Base.{negsuc}
use cpa_monitor.State.{Time}
use cpa_monitor.Dingtalk.Alert.{Payload}
use cpa_monitor.Dingtalk.Send.{
  rate_limit_pause, rate_limit_code, max_response_bytes, ApiResponse, Exchange, no_answer,
  broken_off, answered, Context, nil_context, ended, live, SendFailure, response_code, same_code,
  paused, judged, after_exchange, Attempt, refused, send,
}

-- Sends one after the other: the payload of the request that each of them makes, if any.
unfoldable pub requests : Time → List (Attempt × Payload) → List (Option Payload)
requests blocked [] = []
requests blocked ((a, p) ∷ sends) =
    let sent = send a blocked p in sent.request ∷ requests sent.blocked_until sends

abbrev pub is_limit : SendFailure ⊎ ℤ → Bool
is_limit (inl e) = false
is_limit (inr code) = same_code code rate_limit_code

abbrev pub limits : Option ApiResponse → Bool
limits none = false
limits (some r) = is_limit (response_code r.error_code)

-- The robot says that it is rate limited: a short answer with status 2xx and code 410100.
abbrev pub is_limited : Exchange → Bool
is_limited no_answer = false
is_limited broken_off = false
is_limited (answered status size body) =
    not (ltb max_response_bytes size) && (not (ltb status 200 || leb 300 status) && limits body)

-- No rate limit of the history is less than the pause ago.
abbrev pub may_request : List Time → Time → Bool
may_request [] now = true
may_request (t ∷ limited) now = leb (t + rate_limit_pause) now && may_request limited now

abbrev pub is_live : Context → Bool
is_live nil_context = false
is_live ended = false
is_live live = true

-- The client of the specification: it keeps the times of all the rate limits that it has met.
unfoldable pub paced_requests : List Time → List (Attempt × Payload) → List (Option Payload)
paced_requests limited [] = []
paced_requests limited ((a, p) ∷ sends) =
    let limit = paced_requests (a.now ∷ limited) sends in
    let same = paced_requests limited sends in
    if is_live a.context && may_request limited a.now
    then some p ∷ (if is_limited (a.robot p) then limit else same)
    else none ∷ same

-- The end of the pause that a history leads to.
abbrev latest : List Time → Time
latest [] = 0
latest (t ∷ limited) = paused t (latest limited)

may_request-latest :
    (limited : List Time) (now : Time) → may_request limited now ≡ not (ltb now (latest limited))
unfolding paused
may_request-latest [] now = ground arith
may_request-latest (t ∷ limited) now = ground (arith, may_request-latest limited now)

judged-paused :
    (now blocked : Time) (message : Text) (code : SendFailure ⊎ ℤ)
    → (judged now blocked message code).1 ≡ (if is_limit code then paused now blocked else blocked)
unfolding judged same_code
judged-paused now blocked message (inl e) = refl
judged-paused now blocked message (inr (pos n)) = ground arith
judged-paused now blocked message (inr (negsuc n)) = refl

after_exchange-paused :
    (now blocked : Time) (x : Exchange)
    → (after_exchange now blocked x).1 ≡ (if is_limited x then paused now blocked else blocked)
unfolding after_exchange
after_exchange-paused now blocked no_answer = refl
after_exchange-paused now blocked broken_off = refl
after_exchange-paused now blocked (answered status size none) = ground arith
after_exchange-paused now blocked (answered status size (some r)) =
    ground (arith, judged-paused now blocked r.error_message (response_code r.error_code))

-- The request of one send, and the end of the pause after it.
send_lem :
    (a : Attempt) (blocked : Time) (p : Payload)
    → let s = send a blocked p in
      let goes = is_live a.context && not (ltb a.now blocked) in
      (s.request ≡ (if goes then some p else none))
      × (s.blocked_until
          ≡ (if goes && is_limited (a.robot p) then paused a.now blocked else blocked))
unfolding send refused
send_lem a blocked p = go a.context refl
  where
    go :
        (x : Context)
        → a.context ≡ x
        → let s = send a blocked p in
          let goes = is_live a.context && not (ltb a.now blocked) in
          (s.request ≡ (if goes then some p else none))
          × (s.blocked_until
              ≡ (if goes && is_limited (a.robot p) then paused a.now blocked else blocked))
    go nil_context e = rw (e, send) (refl, refl)
    go ended e = rw (e, send) (refl, refl)
    go live e =
        rw (e, send)
          (elim (Bool-cases (ltb a.now blocked)) [
            | inl t ↦ rw (t, send) (refl, refl)
            | inr f ↦ rw (f, send) (refl, after_exchange-paused a.now blocked (a.robot p))
          ])

requests-latest :
    (limited : List Time) (sends : List (Attempt × Payload))
    → requests (latest limited) sends ≡ paced_requests limited sends
unfolding requests paced_requests
requests-latest limited [] = refl
requests-latest limited ((a, p) ∷ sends) =
    let (request, until) = send_lem a (latest limited) p in
    rw (request, until, may_request-latest limited a.now)
      (elim (Bool-cases (is_live a.context && not (ltb a.now (latest limited)))) [
        | inr f ↦ rw f (ap (λ xs. none ∷ xs) (requests-latest limited sends))
        | inl t ↦ rw t (elim (Bool-cases (is_limited (a.robot p))) [
          | inl l ↦ rw l (ap (λ xs. some p ∷ xs) (requests-latest (a.now ∷ limited) sends))
          | inr n ↦ rw n (ap (λ xs. some p ∷ xs) (requests-latest limited sends))
        ])
      ])

-- Over any sequence of sends, whatever the contexts, the clock and the robot do, the client makes the
-- requests of one that remembers every rate limit it has met: a send whose context is live makes its
-- request exactly when none of those is less than ten minutes before it, and no other send makes one.
pub requests-paced : (sends : List (Attempt × Payload)) → requests 0 sends ≡ paced_requests [] sends
requests-paced sends = requests-latest [] sends
