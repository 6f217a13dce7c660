-- ===== src/Session/Client/Flow.antt =====
-- One call through a 401, the shared refresh, and what follows.
use testnexa.Base.{
  ℕ, suc, String, ◌≡◌, refl, ap, ◌∙◌, true, false, Option, none, some, [], ◌∷◌, arith, truthy,
  get_elem?, get_elem?-set_self, get_elem?-map-some, if◌then◌else◌,
}
use testnexa.Json.{Json}
use testnexa.Session.TokenStore.{set_access_token, clear_access_token}
use testnexa.Session.Client.{
  ApiError, Response, threw, answered, Outcome, rejected, Refreshed, access, refused, sent, waiting,
  granted, finished, Call, Client, error_of, thrown_error, success, is_ok, put, request_refresh,
  receive, continue, grant, settle, respond_at, resume_at, responds, settles, resumes, step, run,
}

-- A call that was sent and may still be retried.
pub record IsFirst (c : Client) (i : ℕ) (call : Call) : Type 0 where
  pub at : get_elem? c.calls i ≡ some call
  pub was_sent : call.phase ≡ sent
  pub may_retry : call.skip_auth_retry ≡ false

-- The state after the 401: the call waits, and a refresh is in flight.
abbrev waits_with : Client → ℕ → Call → ApiError → Client
waits_with c i call error = request_refresh (put i (record call { phase = waiting error }) c)

after_401 :
    (c : Client) (i : ℕ) (call : Call) (body : Option Json)
    → IsFirst c i call
    → step c (responds i (answered 401 body)) ≡ waits_with c i call (error_of call.url 401 body)
unfolding step respond_at receive
after_401 c i call body h = rw (h.at, respond_at, h.was_sent, h.may_retry) refl

calls-request_refresh : (c : Client) → (request_refresh c).calls ≡ c.calls
unfolding request_refresh
calls-request_refresh c = ground arith

busy-request_refresh : (c : Client) → (request_refresh c).refreshing ≡ true
unfolding request_refresh
busy-request_refresh c = ground arith

settled_call :
    (c : Client) (i : ℕ) (call : Call) (r : Refreshed)
    → c.refreshing ≡ true
    → get_elem? c.calls i ≡ some call
    → get_elem? (step c (settles r)).calls i ≡ some (grant r call)
unfolding step
settled_call c i call r busy at = rw (settle, busy) (get_elem?-map-some (grant r) c.calls i call at)

resumed :
    (c : Client) (i : ℕ) (call : Call) (error : ApiError) (r : Refreshed)
    → get_elem? c.calls i ≡ some (record call { phase = granted error r })
    → step c (resumes i) ≡ continue i (record call { phase = granted error r }) error r c
unfolding step
resumed c i call error r at = rw (at, resume_at) refl

module _ (c : Client) (i : ℕ) (call : Call) (body : Option Json) (first : IsFirst c i call) where
  abbrev error : ApiError
  error = error_of call.url 401 body

  abbrev to_resume : Refreshed → Client
  to_resume r = step (waits_with c i call error) (settles r)

  resumed_call :
      (r : Refreshed)
      → get_elem? (to_resume r).calls i ≡ some (record call { phase = granted error r })
  resumed_call r =
      settled_call (waits_with c i call error) i (record call { phase = waiting error }) r
        (busy-request_refresh _)
        (rw (calls-request_refresh (put i (record call { phase = waiting error }) c))
          (get_elem?-set_self c.calls i call _ first.at))
      ∙ unfold grant in refl

  -- the three events of a failed attempt
  abbrev attempt : Refreshed → Client
  attempt r = run c (responds i (answered 401 body) ∷ settles r ∷ resumes i ∷ [])

  attempt-eq :
      (r : Refreshed)
      → attempt r ≡ continue i (record call { phase = granted error r }) error r (to_resume r)
  unfolding run
  attempt-eq r =
      ap (λ d. step (step d (settles r)) (resumes i)) (after_401 c i call body first)
      ∙ resumed (to_resume r) i call error r (resumed_call r)

  -- A call that was sent with its retry switched on gets a 401, the refresh that it then shares is
  -- refused, and the call resumes: it is rejected with the error of its own 401, the token is
  -- forgotten and the page goes to the login screen.
  pub run-refused :
      (get_elem? (attempt refused).calls i
        ≡ some (record call { phase = finished (rejected error) }))
      × ((attempt refused).store.access_token ≡ none)
      × ((attempt refused).location ≡ some "/login")
  run-refused = rw (attempt-eq refused) (
      unfold continue clear_access_token in
      (get_elem?-set_self (to_resume refused).calls i _ _ (resumed_call refused), refl, refl))

  -- If the refresh after the 401 is granted with a token that is not empty, the token is stored and
  -- the call is sent once more under it, with the retry switched off.
  pub run-granted :
      (token : String)
      → truthy token ≡ true
      → (get_elem? (attempt (access token)).calls i
          ≡ some (record call {
            skip_auth_retry = true;
            bearer = some token;
            attempts = suc call.attempts;
            phase = sent;
          }))
        × ((attempt (access token)).store.access_token ≡ some token)
  run-granted token full = rw (attempt-eq (access token)) (
      unfold continue set_access_token in
      (
        rw full (
            get_elem?-set_self (to_resume (access token)).calls i _ _
              (resumed_call (access token))),
        refl,
      ))

-- What a response means to a call that will not be retried.
pub outcome_of : String → Response → Outcome
outcome_of url (threw m) = rejected (thrown_error m)
outcome_of url (answered status body) =
    if is_ok status then success status body else rejected (error_of url status body)

-- Any response, a 401 too, settles a call whose retry is switched off, and changes nothing else: no
-- refresh is started and the token stays.
responds-finishes :
    (c : Client) (i : ℕ) (call : Call) (r : Response)
    → get_elem? c.calls i ≡ some call
    → call.phase ≡ sent
    → call.skip_auth_retry ≡ true
    → step c (responds i r) ≡ put i (record call { phase = finished (outcome_of call.url r) }) c
unfolding step respond_at receive outcome_of
responds-finishes c i call (threw m) at s k = rw (at, respond_at, s) refl
responds-finishes c i call (answered status body) at s k = rw (at, respond_at, s, k) (ground arith)
