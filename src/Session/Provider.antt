-- ===== src/Session/Provider.antt =====
-- auth/AuthContext.tsx: the provider's state, and the two route guards that read it. What runs while
-- a request is under way is an event of its own.
pub mod Guarded
use testnexa.Base.{
  ℕ, String, Bool, true, false, Option, none, some, List, [], ◌∷◌, ◌++◌, map, any, get_elem?, set,
  truthy, if◌then◌else◌,
}
use testnexa.Session.TokenStore.{
  TokenStore, set_access_token, clear_access_token, is_subscribed, subscribe, unsubscribe,
}
use testnexa.Session.Client.{Refreshed, access, refused}

pub record OrgSummary : Type 0 where
  pub id : String
  pub name : String
  pub slug : String

-- `"auto" | "picker"`
pub data OrgContext : Type 0 where
  auto picker : OrgContext

-- The answer of a login, a signup and an accepted invite.
pub record LoginResponse : Type 0 where
  pub access_token : String
  pub org_context : OrgContext
  pub orgs : List OrgSummary

-- One run of the boot effect: under way, with its `cancelled` flag, or over.
pub data Boot : Type 0 where
  running : Bool → Boot
  over : Boot

pub record Provider : Type 0 where
  pub store : TokenStore
  -- the state that mirrors the store
  pub access_token : Option String
  pub org_context : Option OrgContext
  pub orgs : List OrgSummary
  pub is_initializing : Bool
  pub boots : List Boot

-- The callback that the provider subscribes.
abbrev pub mirror : ℕ
mirror = 0

-- The first render and its effects.
unfoldable pub mount : TokenStore → Provider
mount store = record {
  store = subscribe mirror store;
  access_token = store.access_token;
  org_context = none;
  orgs = [];
  is_initializing = true;
  boots = running false ∷ [];
}

-- A write to the store, which calls the callbacks that are subscribed: the mirror follows if the
-- provider's is one of them.
abbrev pub write : TokenStore → Provider → Provider
write store p = record p {
  store = store;
  access_token =
      if is_subscribed mirror store.subscribers then store.access_token else p.access_token;
}

-- The cleanup of a boot effect.
cancel : Boot → Boot
cancel (running c) = running true
cancel over = over

-- The effects run again, as in React's strict mode: the callback is taken out and subscribed anew,
-- the old boot run is cancelled, and a new one starts.
unfoldable pub remount : Provider → Provider
unfolding cancel
remount p = record p {
  store = subscribe mirror (unsubscribe mirror p.store);
  boots = map cancel p.boots ++ running false ∷ [];
}

-- The end of `bootRefresh`, for the run at an index.
settle_boot : ℕ → Refreshed → Option Boot → Provider → Provider
settle_boot i r none p = p
settle_boot i r (some over) p = p
settle_boot i r (some (running true)) p = record p { boots = set p.boots i over }
settle_boot i (access token) (some (running false)) p =
    write (set_access_token token p.store)
      (record p { boots = set p.boots i over; is_initializing = false })
settle_boot i refused (some (running false)) p = record p {
  boots = set p.boots i over;
  is_initializing = false;
}

-- The end of `login`, `signup` and `acceptInvite`, when the request succeeded.
unfoldable pub signed_in : LoginResponse → Provider → Provider
signed_in response p = record (write (set_access_token response.access_token p.store) p) {
  org_context = some response.org_context;
  orgs = response.orgs;
}

-- How the request of `logout` ends.
pub data LogoutReply : Type 0 where
  resolved rejected : LogoutReply

-- The `finally` of `logout`.
unfoldable pub sign_out_cleanup : Provider → Provider
sign_out_cleanup p = record (write (clear_access_token p.store) p) { org_context = none; orgs = [] }

-- The end of `logout`: the `catch` swallows a request that is rejected.
unfoldable pub signed_out : LogoutReply → Provider → Provider
unfolding sign_out_cleanup
signed_out resolved p = sign_out_cleanup p
signed_out rejected p = sign_out_cleanup p

pub data Event : Type 0 where
  remounts : Event
  boot_settles : ℕ → Refreshed → Event
  signs_in : LoginResponse → Event
  -- a failed sign-in throws before it changes anything
  sign_in_fails : Event
  -- the request of a logout has ended
  signs_out : LogoutReply → Event
  -- what the 401 interceptor of the API client does to the store
  token_renewed : String → Event
  token_dropped : Event

unfoldable pub step : Provider → Event → Provider
unfolding remount settle_boot signed_in signed_out
step p remounts = remount p
step p (boot_settles i r) = settle_boot i r (get_elem? p.boots i) p
step p (signs_in response) = signed_in response p
step p sign_in_fails = p
step p (signs_out reply) = signed_out reply p
step p (token_renewed token) = write (set_access_token token p.store) p
step p token_dropped = write (clear_access_token p.store) p

unfoldable pub run : Provider → List Event → Provider
unfolding step
run p [] = p
run p (e ∷ es) = run (step p e) es

-- What a guard renders.
pub data Screen : Type 0 where
  spinner : Screen
  navigate : String → Screen
  shell : Screen

-- `!accessToken`
abbrev pub has_token : Option String → Bool
has_token none = false
has_token (some token) = truthy token

-- auth/ProtectedRoute.tsx
unfoldable pub protected_route : Provider → Screen
protected_route p =
    if p.is_initializing
    then spinner
    else if has_token p.access_token
    then shell
    else navigate "/login"

-- pages/workflows/RootRedirect
unfoldable pub root_redirect : Provider → Screen
root_redirect p =
    if p.is_initializing
    then spinner
    else if has_token p.access_token
    then navigate "/dashboard"
    else navigate "/login"
