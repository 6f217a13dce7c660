-- ===== src/Session/Provider/Guarded.antt =====
-- What the guards show after any sequence of events.
use testnexa.Base.{
  ◌==◌, ℕ, zero, suc, ◌≡◌, refl, sym, ap, ◌∙◌, ◌↔◌, ◌≢◌, Bool, true, false, ◌||◌, Option, none,
  some, List, [], ◌∷◌, ◌++◌, map, any, arith, get_elem?, set, if◌then◌else◌, All, Bool-cases, inl,
  inr,
}
use testnexa.Session.TokenStore.{
  TokenStore, set_access_token, clear_access_token, is_subscribed, subscribe, unsubscribe,
}
use testnexa.Session.Client.{Refreshed, access, refused}
use testnexa.Session.Provider.{
  Boot, running, over, Provider, mirror, mount, write, cancel, settle_boot, LogoutReply, resolved,
  rejected, sign_out_cleanup, signed_in, signed_out, Event, remounts, boot_settles, signs_in,
  sign_in_fails, signs_out, token_renewed, token_dropped, step, run, Screen, spinner, navigate,
  shell, has_token, protected_route, root_redirect,
}

-- A run that will end the initialisation.
abbrev pub is_live : Boot → Bool
is_live (running false) = true
is_live _ = false

pub record IsProvider (p : Provider) : Type 0 where
  -- the callback of the mirror is subscribed
  pub watching : is_subscribed mirror p.store.subscribers ≡ true
  -- the mirrored token is the store's
  pub mirrored : p.access_token ≡ p.store.access_token
  -- while the spinner shows, a run is under way that will take it away
  pub live : p.is_initializing ≡ true → any is_live p.boots ≡ true

any-append : (p : Boot → Bool) (xs ys : List Boot) → any p (xs ++ ys) ≡ (any p xs || any p ys)
any-append p [] ys = refl
any-append p (x ∷ xs) ys = ground (arith, any-append p xs ys)

-- Ending a run that is not live leaves the live ones.
any-set_dead :
    (bs : List Boot) (i : ℕ) (b : Boot)
    → get_elem? bs i ≡ some b
    → is_live b ≡ false
    → any is_live (set bs i over) ≡ any is_live bs
any-set_dead [] i b at dead = refl
any-set_dead (x ∷ bs) zero b at dead = ground arith
any-set_dead (x ∷ bs) (suc i) b at dead = ground (arith, any-set_dead bs i b at dead)

token-subscribe : (s : TokenStore) → (subscribe mirror s).access_token ≡ s.access_token
unfolding subscribe
token-subscribe s = ground arith

is_subscribed-snoc : (c : ℕ) (cs : List ℕ) → is_subscribed c (cs ++ c ∷ []) ≡ true
is_subscribed-snoc c [] = ground arith
is_subscribed-snoc c (d ∷ cs) = ground (arith, is_subscribed-snoc c cs)

is_subscribed-subscribe :
    (s : TokenStore) → is_subscribed mirror (subscribe mirror s).subscribers ≡ true
unfolding subscribe
is_subscribed-subscribe s = elim (Bool-cases (is_subscribed mirror s.subscribers)) [
  | inl there ↦ rw there there
  | inr missing ↦ rw missing (is_subscribed-snoc mirror s.subscribers)
]

mount-IsProvider : (store : TokenStore) → IsProvider (mount store)
unfolding mount
mount-IsProvider store = record {
  watching = is_subscribed-subscribe store;
  mirrored = sym (token-subscribe store);
  live = λ _. refl;
}

-- A write is mirrored where the callback is subscribed.
write-IsProvider :
    (store : TokenStore) (p : Provider)
    → is_subscribed mirror store.subscribers ≡ true
    → (p.is_initializing ≡ true → any is_live p.boots ≡ true)
    → IsProvider (write store p)
write-IsProvider store p w l = record { watching = w; mirrored = rw w refl; live = l }

settle_boot-IsProvider :
    (i : ℕ) (r : Refreshed) (o : Option Boot) (p : Provider)
    → get_elem? p.boots i ≡ o
    → IsProvider p
    → IsProvider (settle_boot i r o p)
unfolding settle_boot
settle_boot-IsProvider i r none p at h = h
settle_boot-IsProvider i r (some over) p at h = h
settle_boot-IsProvider i r (some (running true)) p at h = record {
  watching = h.watching;
  mirrored = h.mirrored;
  live = λ k. any-set_dead p.boots i (running true) at refl ∙ h.live k;
}
settle_boot-IsProvider i (access token) (some (running false)) p at h =
    write-IsProvider (set_access_token token p.store)
      (record p { boots = set p.boots i over; is_initializing = false })
      (unfold set_access_token in h.watching) (λ k. cc)
settle_boot-IsProvider i refused (some (running false)) p at h = record {
  watching = h.watching;
  mirrored = h.mirrored;
  live = λ k. cc;
}

cleanup-IsProvider : (p : Provider) → IsProvider p → IsProvider (sign_out_cleanup p)
unfolding sign_out_cleanup clear_access_token
cleanup-IsProvider p h = record {
  watching = h.watching;
  mirrored = rw h.watching refl;
  live = h.live;
}

signed_out-IsProvider :
    (reply : LogoutReply) (p : Provider) → IsProvider p → IsProvider (signed_out reply p)
unfolding signed_out
signed_out-IsProvider resolved p h = cleanup-IsProvider p h
signed_out-IsProvider rejected p h = cleanup-IsProvider p h

step-IsProvider : (p : Provider) (e : Event) → IsProvider p → IsProvider (step p e)
unfolding step signed_in set_access_token clear_access_token unsubscribe
step-IsProvider p remounts h = record {
  watching = is_subscribed-subscribe (unsubscribe mirror p.store);
  mirrored = h.mirrored ∙ sym (token-subscribe (unsubscribe mirror p.store));
  live = λ _. ground (arith, any-append is_live (map cancel p.boots) (running false ∷ []));
}
step-IsProvider p (boot_settles i r) h = settle_boot-IsProvider i r (get_elem? p.boots i) p refl h
step-IsProvider p (signs_in response) h = record {
  watching = h.watching;
  mirrored = rw h.watching refl;
  live = h.live;
}
step-IsProvider p sign_in_fails h = h
step-IsProvider p (signs_out reply) h = signed_out-IsProvider reply p h
step-IsProvider p (token_renewed token) h =
    write-IsProvider (set_access_token token p.store) p h.watching h.live
step-IsProvider p token_dropped h =
    write-IsProvider (clear_access_token p.store) p h.watching h.live

run-keeps : (p : Provider) (es : List Event) → IsProvider p → IsProvider (run p es)
unfolding run
run-keeps p [] h = h
run-keeps p (e ∷ es) h = run-keeps (step p e) es (step-IsProvider p e h)

-- After any events the provider shows the store's token, and as long as it is initialising there is
-- a boot run under way that is not cancelled.
run-IsProvider : (store : TokenStore) (es : List Event) → IsProvider (run (mount store) es)
run-IsProvider store es = run-keeps (mount store) es (mount-IsProvider store)

guard_iff :
    (i t : Bool)
    → ((if i then spinner else if t then shell else navigate "/login") ≡ shell)
      ↔ (i ≡ false) × (t ≡ true)
guard_iff true t = ((λ e. ground arith), (λ (e, f). ground arith))
guard_iff false true = ((λ e. (refl, refl)), (λ e. refl))
guard_iff false false = ((λ e. ground arith), (λ (e, f). ground arith))

no_shell : (i : Bool) → (if i then spinner else navigate "/login") ≢ shell
no_shell true = λ e. ground arith
no_shell false = λ e. ground arith

abbrev is_dashboard : Screen → Bool
is_dashboard (navigate to) = to == "/dashboard"
is_dashboard _ = false

no_dashboard : (i : Bool) → (if i then spinner else navigate "/login") ≢ navigate "/dashboard"
no_dashboard true = λ e. ground arith
no_dashboard false = λ e. let f : false ≡ true = ap is_dashboard e in ground arith

dashboard_iff :
    (i t : Bool)
    → ((if i then spinner else if t then navigate "/dashboard" else navigate "/login")
        ≡ navigate "/dashboard")
      ↔ (i ≡ false) × (t ≡ true)
dashboard_iff true t = ((λ e. absurd (no_dashboard true e)), (λ (e, f). ground arith))
dashboard_iff false true = ((λ e. (refl, refl)), (λ e. refl))
dashboard_iff false false = ((λ e. absurd (no_dashboard false e)), (λ (e, f). ground arith))

-- The provider is initialised and its store holds a token that is not empty.
abbrev pub HasSession : Provider → Type 0
HasSession p = (p.is_initializing ≡ false) × (has_token p.store.access_token ≡ true)

guards_iff :
    (p : Provider)
    → IsProvider p
    → ((protected_route p ≡ shell) ↔ HasSession p)
      × ((root_redirect p ≡ navigate "/dashboard") ↔ HasSession p)
unfolding protected_route root_redirect
guards_iff p h = rw (sym h.mirrored) (
  guard_iff p.is_initializing (has_token p.access_token),
  dashboard_iff p.is_initializing (has_token p.access_token),
)

-- After any events, with a mirror that changes only when the store calls its callback, a page behind
-- the guard shows, and the root leads to the dashboard, exactly when the provider is initialised and
-- the store holds a token that is not empty.
pub protected_route-shell :
    (store : TokenStore) (es : List Event)
    → ((protected_route (run (mount store) es) ≡ shell) ↔ HasSession (run (mount store) es))
      × ((root_redirect (run (mount store) es) ≡ navigate "/dashboard")
          ↔ HasSession (run (mount store) es))
protected_route-shell store es = guards_iff (run (mount store) es) (run-IsProvider store es)

abbrev pub IsSignedOut : Provider → Type 0
IsSignedOut p =
    (p.access_token ≡ none)
    × (p.store.access_token ≡ none)
    × (p.org_context ≡ none)
    × (p.orgs ≡ [])
    × (protected_route p ≢ shell)
    × (root_redirect p ≢ navigate "/dashboard")

-- The events that bring a token: a sign-in, a renewed token, and a boot refresh that is granted.
abbrev pub grants : Event → Bool
grants (boot_settles i (access token)) = true
grants (signs_in response) = true
grants (token_renewed token) = true
grants _ = false

-- Nothing of the session is left, in a provider that watches the store.
record IsEmpty (p : Provider) : Type 0 where
  provider : IsProvider p
  no_token : p.store.access_token ≡ none
  no_context : p.org_context ≡ none
  no_orgs : p.orgs ≡ []

signed_out-IsEmpty :
    (reply : LogoutReply) (p : Provider) → IsProvider p → IsEmpty (signed_out reply p)
unfolding signed_out sign_out_cleanup clear_access_token
signed_out-IsEmpty resolved p h = record {
  provider = signed_out-IsProvider resolved p h;
  no_token = refl;
  no_context = refl;
  no_orgs = refl;
}
signed_out-IsEmpty rejected p h = record {
  provider = signed_out-IsProvider rejected p h;
  no_token = refl;
  no_context = refl;
  no_orgs = refl;
}

refused-IsEmpty :
    (i : ℕ) (o : Option Boot) (p : Provider)
    → get_elem? p.boots i ≡ o
    → IsEmpty p
    → IsEmpty (settle_boot i refused o p)
unfolding settle_boot
refused-IsEmpty i none p at h = h
refused-IsEmpty i (some over) p at h = h
refused-IsEmpty i (some (running true)) p at h = record {
  provider = settle_boot-IsProvider i refused (some (running true)) p at h.provider;
  no_token = h.no_token;
  no_context = h.no_context;
  no_orgs = h.no_orgs;
}
refused-IsEmpty i (some (running false)) p at h = record {
  provider = settle_boot-IsProvider i refused (some (running false)) p at h.provider;
  no_token = h.no_token;
  no_context = h.no_context;
  no_orgs = h.no_orgs;
}

step-IsEmpty : (p : Provider) (e : Event) → grants e ≡ false → IsEmpty p → IsEmpty (step p e)
unfolding step clear_access_token unsubscribe
step-IsEmpty p remounts g h = record {
  provider = step-IsProvider p remounts h.provider;
  no_token = token-subscribe (unsubscribe mirror p.store) ∙ h.no_token;
  no_context = h.no_context;
  no_orgs = h.no_orgs;
}
step-IsEmpty p (boot_settles i refused) g h = refused-IsEmpty i (get_elem? p.boots i) p refl h
step-IsEmpty p sign_in_fails g h = h
step-IsEmpty p (signs_out reply) g h = signed_out-IsEmpty reply p h.provider
step-IsEmpty p token_dropped g h = record {
  provider = step-IsProvider p token_dropped h.provider;
  no_token = refl;
  no_context = h.no_context;
  no_orgs = h.no_orgs;
}
step-IsEmpty p (boot_settles i (access token)) g h = cc
step-IsEmpty p (signs_in response) g h = cc
step-IsEmpty p (token_renewed token) g h = cc

run-IsEmpty :
    (p : Provider) (es : List Event)
    → All (λ e. grants e ≡ false) es
    → IsEmpty p
    → IsEmpty (run p es)
unfolding run
run-IsEmpty p [] g h = h
run-IsEmpty p (e ∷ es) (g, gs) h = run-IsEmpty (step p e) es gs (step-IsEmpty p e g h)

IsEmpty-IsSignedOut : (p : Provider) → IsEmpty p → IsSignedOut p
unfolding protected_route root_redirect
IsEmpty-IsSignedOut p h =
    let gone : p.access_token ≡ none = h.provider.mirrored ∙ h.no_token in
    (
      gone,
      h.no_token,
      h.no_context,
      h.no_orgs,
      rw gone (no_shell p.is_initializing),
      rw gone (no_dashboard p.is_initializing),
    )

signs_out-IsEmpty :
    (p : Provider) (before later : List Event) (reply : LogoutReply)
    → All (λ e. grants e ≡ false) later
    → IsProvider p
    → IsEmpty (run p (before ++ signs_out reply ∷ later))
unfolding run step
signs_out-IsEmpty p [] later reply g h =
    run-IsEmpty (signed_out reply p) later g (signed_out-IsEmpty reply p h)
signs_out-IsEmpty p (e ∷ before) later reply g h =
    signs_out-IsEmpty (step p e) before later reply g (step-IsProvider p e h)

-- A logout, whatever came before it and whether its request has succeeded or failed, leaves no token
-- in the store and none in the state that mirrors it, no organisations and no organisation context,
-- and no page behind the guards, until an event brings a token: a sign-in, a renewed token, or a
-- boot refresh that is granted.
pub run-signs_out :
    (store : TokenStore) (before later : List Event) (reply : LogoutReply)
    → All (λ e. grants e ≡ false) later
    → IsSignedOut (run (mount store) (before ++ signs_out reply ∷ later))
run-signs_out store before later reply g =
    IsEmpty-IsSignedOut (run (mount store) (before ++ signs_out reply ∷ later))
      (signs_out-IsEmpty (mount store) before later reply g (mount-IsProvider store))
