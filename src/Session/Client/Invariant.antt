-- ===== src/Session/Client/Invariant.antt =====
-- What holds of the API client under every interleaving of calls, refreshes and responses.
use testnexa.Base.{
  ℕ, ◌+◌, ◌≤◌, ◌<◌, String, ◌≡◌, refl, Bool, true, false, not, ◌&&◌, Option, none, some, List, [],
  ◌∷◌, arith, num_eq, get_elem?, All, All-concat, All-imp, All-set, All-get_elem?, All-map,
  Bool-cases, if_keeps, inl, inr, if◌then◌else◌,
}
use testnexa.Json.{Json}
use testnexa.Session.TokenStore.{initial}
use testnexa.Session.Client.{
  ApiError, Response, threw, answered, Outcome, Refreshed, access, refused, Phase, sent, waiting,
  granted, finished, Call, Client, error_of, put, is_ok, success, rejected, start, request_refresh,
  receive, continue, grant, settle, respond_at, resume_at, Event, starts, responds, boots, settles,
  resumes, step, run,
}

-- What a phase says of the rest of its call, `flight` being whether a refresh is in flight.
abbrev pub Fits : Bool → Bool → ℕ → Phase → Type 0
Fits flight skip attempts (waiting error) =
    (flight ≡ true) × (skip ≡ false) × (attempts ≡ 1) × (error.status ≡ 401)
Fits flight skip attempts (granted error r) = (skip ≡ false) × (attempts ≡ 1) × (error.status ≡ 401)
Fits flight skip attempts _ = Unit

pub record IsCall (flight : Bool) (call : Call) : Type 0 where
  -- sent once or twice, the second time with no further retry
  pub sent_once : 1 ≤ call.attempts
  pub at_most_twice : call.attempts ≤ 2
  pub last_time : 1 < call.attempts → call.skip_auth_retry ≡ true
  pub fits : Fits flight call.skip_auth_retry call.attempts call.phase

-- Every refresh that was sent has settled, but for the one in flight.
pub record IsClient (c : Client) : Type 0 where
  pub single_flight : c.refreshes ≡ c.settled + (if c.refreshing then 1 else 0)
  pub each : All (IsCall c.refreshing) c.calls

Fits-true : (b skip : Bool) (n : ℕ) (p : Phase) → Fits b skip n p → Fits true skip n p
Fits-true b skip n sent f = tt
Fits-true b skip n (waiting e) f = ground arith
Fits-true b skip n (granted e r) f = f
Fits-true b skip n (finished o) f = tt

IsCall-true : (b : Bool) (call : Call) → IsCall b call → IsCall true call
IsCall-true b call h = record {
  sent_once = h.sent_once;
  at_most_twice = h.at_most_twice;
  last_time = h.last_time;
  fits = Fits-true b call.skip_auth_retry call.attempts call.phase h.fits;
}

request_refresh-IsClient : (c : Client) → IsClient c → IsClient (request_refresh c)
unfolding request_refresh
request_refresh-IsClient c h = elim (Bool-cases c.refreshing) [
  | inl busy ↦ simp busy h
  | inr idle ↦ simp idle (record {
    single_flight = ground (arith, h.single_flight);
    each = All-imp (IsCall-true c.refreshing) c.calls h.each;
  })
]

put-IsClient :
    (i : ℕ) (call : Call) (c : Client)
    → IsClient c
    → IsCall c.refreshing call
    → IsClient (put i call c)
put-IsClient i call c h k = record {
  single_flight = h.single_flight;
  each = All-set (IsCall c.refreshing) c.calls i call h.each k;
}

-- A call whose phase says nothing of the flight.
settled_call :
    (flight : Bool) (call : Call) (o : Outcome)
    → IsCall flight call
    → IsCall flight (record call { phase = finished o })
settled_call flight call o h = record {
  sent_once = h.sent_once;
  at_most_twice = h.at_most_twice;
  last_time = h.last_time;
  fits = tt;
}

refreshing-request_refresh : (c : Client) → (request_refresh c).refreshing ≡ true
unfolding request_refresh
refreshing-request_refresh c = ground arith

request_refresh-put :
    (i : ℕ) (call : Call) (c : Client)
    → request_refresh (put i call c) ≡ put i call (request_refresh c)
unfolding request_refresh
request_refresh-put i call c = elim (Bool-cases c.refreshing) [
  | inl busy ↦ simp busy refl
  | inr idle ↦ simp idle refl
]

-- The first 401 of a call that may be retried.
wait-IsClient :
    (i : ℕ) (call : Call) (error : ApiError) (c : Client)
    → IsCall c.refreshing call
    → call.skip_auth_retry ≡ false
    → error.status ≡ 401
    → IsClient c
    → IsClient (request_refresh (put i (record call { phase = waiting error }) c))
wait-IsClient i call error c k may e h = rw request_refresh-put (
    put-IsClient i _ (request_refresh c) (request_refresh-IsClient c h) (record {
      sent_once = k.sent_once;
      at_most_twice = k.at_most_twice;
      last_time = k.last_time;
      fits = (refreshing-request_refresh c, may, ground (arith, k.last_time, k.sent_once), e);
    }))

status-error_of :
    (url : String) (status : ℕ) (body : Option Json) → (error_of url status body).status ≡ status
unfolding error_of
status-error_of url status body = refl

receive-IsClient :
    (i : ℕ) (call : Call) (r : Response) (c : Client)
    → IsCall c.refreshing call
    → IsClient c
    → IsClient (receive i call r c)
unfolding receive
receive-IsClient i call (threw m) c k h = put-IsClient i _ c h (settled_call c.refreshing call _ k)
receive-IsClient i call (answered status body) c k h =
    let ends = λ (o : Outcome). put i (record call { phase = finished o }) c in
    let kept = λ (o : Outcome). put-IsClient i _ c h (settled_call c.refreshing call o k) in
    let error = error_of call.url status body in
    let waits = request_refresh (put i (record call { phase = waiting error }) c) in
    let retried = num_eq status 401 && not call.skip_auth_retry in
    if_keeps IsClient (is_ok status) (ends (success status body))
      (if retried then waits else ends (rejected error)) (λ _. kept (success status body))
      λ _.
        if_keeps IsClient retried waits (ends (rejected error))
          (λ test.
            let status' = status-error_of call.url status body in
            wait-IsClient i call error c k (ground arith) (ground arith) h)
          (λ _. kept (rejected error))

continue-IsClient :
    (i : ℕ) (call : Call) (error : ApiError) (r : Refreshed) (c : Client)
    → IsCall c.refreshing call
    → call.attempts ≡ 1
    → IsClient c
    → IsClient (continue i call error r c)
unfolding continue
continue-IsClient i call error (access token) c k once h =
    put-IsClient i _ (record c { store = _ })
      (record { single_flight = h.single_flight; each = h.each })
      (record {
        sent_once = omega arith;
        at_most_twice = omega arith;
        last_time = λ _. refl;
        fits = tt;
      })
continue-IsClient i call error refused c k once h =
    put-IsClient i _ (record c { store = _; location = _ })
      (record { single_flight = h.single_flight; each = h.each })
      (settled_call c.refreshing call _ k)

grant-IsCall : (r : Refreshed) (call : Call) → IsCall true call → IsCall false (grant r call)
unfolding grant
grant-IsCall r call k = ground arith

start-IsClient :
    (url : String) (skip : Bool) (c : Client) → IsClient c → IsClient (start url skip c)
unfolding start
start-IsClient url skip c h = record {
  single_flight = h.single_flight;
  each = All-concat (IsCall c.refreshing) c.calls _ h.each (record {
    sent_once = omega arith;
    at_most_twice = omega arith;
    last_time = λ l. absurd (omega arith);
    fits = tt;
  });
}

settle-IsClient : (r : Refreshed) (c : Client) → IsClient c → IsClient (settle r c)
unfolding settle
settle-IsClient r c h = elim (Bool-cases c.refreshing) [
  | inr idle ↦ simp idle h
  | inl busy ↦ simp busy (record {
    single_flight = ground (arith, h.single_flight);
    each =
        All-map (IsCall c.refreshing) (IsCall false) (grant r)
          (λ call k. grant-IsCall r call (IsCall-true c.refreshing call k)) c.calls h.each;
  })
]

respond-IsClient :
    (i : ℕ) (r : Response) (o : Option Call) (c : Client)
    → get_elem? c.calls i ≡ o
    → IsClient c
    → IsClient (respond_at i r o c)
unfolding respond_at
respond-IsClient i r none c at h = h
respond-IsClient i r (some call) c at h =
    let k = All-get_elem? (IsCall c.refreshing) c.calls i call h.each at in
    go call.phase (receive-IsClient i call r c k h)
  where
    go :
        (p : Phase)
        → IsClient (receive i call r c)
        → IsClient (elim p [ sent ↦ receive i call r c | _ ↦ c ])
    go sent moved = moved
    go (waiting e) moved = h
    go (granted e q) moved = h
    go (finished q) moved = h

granted_once :
    (flight skip : Bool) (n : ℕ) (p : Phase) (error : ApiError) (r : Refreshed)
    → Fits flight skip n p
    → p ≡ granted error r
    → n ≡ 1
granted_once flight skip n (granted e q) error r f h = f.1
granted_once flight skip n _ error r f h = cc

resume-IsClient :
    (i : ℕ) (o : Option Call) (c : Client)
    → get_elem? c.calls i ≡ o
    → IsClient c
    → IsClient (resume_at i o c)
unfolding resume_at
resume-IsClient i none c at h = h
resume-IsClient i (some call) c at h =
    let k = All-get_elem? (IsCall c.refreshing) c.calls i call h.each at in
    go call.phase λ error r e.
      let once =
        granted_once c.refreshing call.skip_auth_retry call.attempts call.phase error r k.fits e in
      continue-IsClient i call error r c k once h
  where
    go :
        (p : Phase)
        → ((error : ApiError) (r : Refreshed)
            → p ≡ granted error r
            → IsClient (continue i call error r c))
        → IsClient (elim p [ granted error r ↦ continue i call error r c | _ ↦ c ])
    go sent moved = h
    go (waiting e) moved = h
    go (granted e q) moved = moved e q refl
    go (finished q) moved = h

step-IsClient : (c : Client) (e : Event) → IsClient c → IsClient (step c e)
unfolding step
step-IsClient c (starts url skip) h = start-IsClient url skip c h
step-IsClient c (responds i r) h = respond-IsClient i r (get_elem? c.calls i) c refl h
step-IsClient c boots h = request_refresh-IsClient c h
step-IsClient c (settles r) h = settle-IsClient r c h
step-IsClient c (resumes i) h = resume-IsClient i (get_elem? c.calls i) c refl h

-- Under every order of starts, responses, refreshes and resumptions a client that satisfies the
-- invariant keeps it: at most one refresh is in flight, a call waits only while one is, no call is
-- sent more than twice, and a call that is sent again takes no part in another refresh.
pub run-IsClient : (c : Client) (events : List Event) → IsClient c → IsClient (run c events)
unfolding run
run-IsClient c [] h = h
run-IsClient c (e ∷ es) h = run-IsClient (step c e) es (step-IsClient c e h)

-- The client of a fresh page.
abbrev pub fresh : Client
fresh = record {
  store = initial;
  refreshing = false;
  refreshes = 0;
  settled = 0;
  location = none;
  calls = [];
}

pub fresh-IsClient : IsClient fresh
fresh-IsClient = record { single_flight = omega arith; each = tt }
