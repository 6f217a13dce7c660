-- ===== src/Session/TokenStore.antt =====
-- lib/auth/tokenStore.ts: the access token of the tab, and the callbacks that watch it.
use testnexa.Base.{
  ℕ, String, Bool, not, Option, none, some, List, [], ◌∷◌, ◌++◌, num_eq, any, filter, if◌then◌else◌,
}

-- The module's variables; a callback stands for its identity in the set. `run` logs the callbacks
-- in the order in which they were called.
pub record TokenStore : Type 0 where
  pub access_token : Option String
  pub subscribers : List ℕ
  pub run : List ℕ

abbrev pub initial : TokenStore
initial = record { access_token = none; subscribers = []; run = [] }

abbrev pub notify : TokenStore → TokenStore
notify s = record s { run = s.run ++ s.subscribers }

abbrev pub get_access_token : TokenStore → Option String
get_access_token s = s.access_token

unfoldable pub set_access_token : String → TokenStore → TokenStore
set_access_token token s = notify (record s { access_token = some token })

unfoldable pub clear_access_token : TokenStore → TokenStore
clear_access_token s = notify (record s { access_token = none })

abbrev pub is_subscribed : ℕ → List ℕ → Bool
is_subscribed callback = any (λ c. num_eq c callback)

unfoldable pub subscribe : ℕ → TokenStore → TokenStore
subscribe callback s =
    if is_subscribed callback s.subscribers
    then s
    else record s { subscribers = s.subscribers ++ callback ∷ [] }

-- The function that `subscribe` returns.
unfoldable pub unsubscribe : ℕ → TokenStore → TokenStore
unsubscribe callback s = record s {
  subscribers = filter (λ c. not (num_eq c callback)) s.subscribers;
}
