-- ===== src/Session/Client.antt =====
-- lib/api/client.ts: calls of the API, and the shared refresh behind a 401. Calls run side by side,
-- so a client is a list of calls, and an event moves one of them.
pub mod Invariant
pub mod Flow
use testnexa.Base.{
  ℕ, suc, String, Bool, true, false, not, ◌&&◌, Option, none, some, List, [], ◌∷◌, ◌++◌, map,
  truthy, num_eq, leb, ltb, get_elem?, set, if◌then◌else◌,
}
use testnexa.Json.{Json, null, bool, num, other_num, str, arr, obj, property}
use testnexa.Session.TokenStore.{TokenStore, set_access_token, clear_access_token, get_access_token}

-- The `message` of an `ApiError`, by where it comes from.
pub data Message : Type 0 where
  -- `error.message` of what `fetch` threw
  thrown : String → Message
  -- "Network request failed"
  network_failed : Message
  -- the body's own `message`
  served : String → Message
  -- `Request to ${url} failed with status ${status}`
  request_failed : String → ℕ → Message

pub record ApiError : Type 0 where
  pub message : Message
  pub status : ℕ
  pub body : Option Json

-- What `fetch` gives: it throws (an `Error` with its message, or something else), or answers with
-- a status and a body, of which `none` is one that `response.json()` cannot parse.
pub data Response : Type 0 where
  threw : Option String → Response
  answered : ℕ → Option Json → Response

pub data Outcome : Type 0 where
  -- `none` is `undefined`
  resolved : Option Json → Outcome
  rejected : ApiError → Outcome
  -- `response.json()` threw on a successful response
  unparsable : Outcome

-- What the shared refresh settles with.
pub data Refreshed : Type 0 where
  access : String → Refreshed
  refused : Refreshed

-- Where a call stands: awaiting its response, awaiting the refresh with its 401 kept, to be resumed
-- with the refresh's result, or settled.
pub data Phase : Type 0 where
  sent : Phase
  waiting : ApiError → Phase
  granted : ApiError → Refreshed → Phase
  finished : Outcome → Phase

pub record Call : Type 0 where
  pub url : String
  pub skip_auth_retry : Bool
  -- the token of the `Authorization` header
  pub bearer : Option String
  pub attempts : ℕ
  pub phase : Phase

pub record Client : Type 0 where
  pub store : TokenStore
  -- `refreshPromise !== null`
  pub refreshing : Bool
  -- `POST /auth/refresh` requests that were sent, and those that have settled
  pub refreshes : ℕ
  pub settled : ℕ
  -- the last argument of `window.location.assign`
  pub location : Option String
  pub calls : List Call

abbrev is_ok : ℕ → Bool
is_ok status = leb 200 status && ltb status 300

-- The body's text `message`, if it is an object that has one.
served_message : Option Json → Option String
served_message (some (obj fields)) = elim (property "message" fields) [
  | some (str s) ↦ some s
  | _ ↦ none
]
served_message _ = none

pub error_of : String → ℕ → Option Json → ApiError
unfolding served_message
error_of url status body = record {
  message = elim (served_message body) [ some s ↦ served s | none ↦ request_failed url status ];
  status = status;
  body = body;
}

pub thrown_error : Option String → ApiError
thrown_error (some m) = record { message = thrown m; status = 0; body = none }
thrown_error none = record { message = network_failed; status = 0; body = none }

-- A successful answer.
pub success : ℕ → Option Json → Outcome
success status body =
    if num_eq status 204
    then resolved none
    else elim body [ none ↦ unparsable | some value ↦ resolved (some value) ]

-- `token ? { Authorization: … } : {}`
abbrev bearer_of : TokenStore → Option String
bearer_of store = elim (get_access_token store) [
  | none ↦ none
  | some token ↦ if truthy token then some token else none
]

-- `requestRefresh()`
unfoldable pub request_refresh : Client → Client
request_refresh c =
    if c.refreshing then c else record c { refreshing = true; refreshes = suc c.refreshes }

abbrev pub put : ℕ → Call → Client → Client
put i call c = record c { calls = set c.calls i call }

-- `apiFetch(url, { skipAuthRetry })`, up to its `fetch`.
unfoldable pub start : String → Bool → Client → Client
start url skip c =
    let call : Call = record {
      url = url;
      skip_auth_retry = skip;
      bearer = bearer_of c.store;
      attempts = 1;
      phase = sent;
    } in
    record c { calls = c.calls ++ call ∷ [] }

-- The rest of `apiFetch`, up to a settled call or to the wait for the refresh.
receive : ℕ → Call → Response → Client → Client
unfolding error_of success thrown_error request_refresh
receive i call (threw m) c = put i (record call { phase = finished (rejected (thrown_error m)) }) c
receive i call (answered status body) c =
    if is_ok status
    then put i (record call { phase = finished (success status body) }) c
    else if num_eq status 401 && not call.skip_auth_retry
    then request_refresh (put i (record call { phase = waiting (error_of call.url status body) }) c)
    else put i (record call { phase = finished (rejected (error_of call.url status body)) }) c

-- The `try` and the `catch` around `requestRefresh()`, and the second `apiFetch`.
continue : ℕ → Call → ApiError → Refreshed → Client → Client
continue i call error (access token) c =
    let store = set_access_token token c.store in
    put i
      (record call {
        skip_auth_retry = true;
        bearer = bearer_of store;
        attempts = suc call.attempts;
        phase = sent;
      })
      (record c { store = store })
continue i call error refused c =
    put i (record call { phase = finished (rejected error) })
      (record c { store = clear_access_token c.store; location = some "/login" })

-- The refresh's result reaches a call that waits for it.
grant : Refreshed → Call → Call
grant r call = elim call.phase [
  | waiting error ↦ record call { phase = granted error r }
  | _ ↦ call
]

pub data Event : Type 0 where
  starts : String → Bool → Event
  responds : ℕ → Response → Event
  -- the boot-time refresh of `AuthContext`
  boots : Event
  settles : Refreshed → Event
  resumes : ℕ → Event

respond_at : ℕ → Response → Option Call → Client → Client
unfolding receive
respond_at i r none c = c
respond_at i r (some call) c = elim call.phase [ sent ↦ receive i call r c | _ ↦ c ]

resume_at : ℕ → Option Call → Client → Client
unfolding continue
resume_at i none c = c
resume_at i (some call) c = elim call.phase [ granted error r ↦ continue i call error r c | _ ↦ c ]

unfoldable pub settle : Refreshed → Client → Client
unfolding grant
settle r c =
    if c.refreshing
    then record c { refreshing = false; settled = suc c.settled; calls = map (grant r) c.calls }
    else c

-- An event that does not fit the state changes nothing.
unfoldable pub step : Client → Event → Client
unfolding start respond_at request_refresh settle resume_at
step c (starts url skip) = start url skip c
step c (responds i r) = respond_at i r (get_elem? c.calls i) c
step c boots = request_refresh c
step c (settles r) = settle r c
step c (resumes i) = resume_at i (get_elem? c.calls i) c

unfoldable pub run : Client → List Event → Client
unfolding step
run c [] = c
run c (e ∷ es) = run (step c e) es
