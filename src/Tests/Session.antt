-- ===== src/Tests/Session.antt =====
-- The session on concrete runs.
use testnexa.Base.{◌≡◌, refl, ◌↔◌, true, false, Option, none, some, List, [], ◌∷◌, ◌++◌, get_elem?}
use testnexa.Session.TokenStore.{initial}
use testnexa.Session.Client.{
  Call, Client, Event, starts, responds, boots, settles, resumes, answered, access, refused, sent,
  finished, rejected, error_of, run,
}
use testnexa.Session.Client.Invariant.{IsClient, run-IsClient, fresh, fresh-IsClient}
use testnexa.Session.Client.Flow.{IsFirst, run-refused, run-granted}
use testnexa.Session.Provider.{
  auto, LoginResponse, mount, signs_in, signs_out, boot_settles, remounts, Event as ProviderEvent,
  shell, navigate, rejected, protected_route, root_redirect, run as run_provider,
}
use testnexa.Session.Provider.Guarded.{
  HasSession, IsSignedOut, protected_route-shell, run-signs_out,
}
use testnexa.Session.Permissions.{MyPermissionsResponse, has}

-- Two calls fail with a 401 while the boot refresh is under way, and share it.
abbrev shared_refresh : List Event
shared_refresh =
    starts "/a" false
    ∷ boots
    ∷ starts "/b" false
    ∷ responds 0 (answered 401 none)
    ∷ responds 1 (answered 401 none)
    ∷ settles (access "new")
    ∷ resumes 1
    ∷ resumes 0
    ∷ responds 1 (answered 401 none)
    ∷ []

run-IsClient_example : IsClient (run fresh shared_refresh)
run-IsClient_example = run-IsClient fresh shared_refresh fresh-IsClient

shared_refresh-refreshes : (run fresh shared_refresh).refreshes ≡ 1
unfolding run
shared_refresh-refreshes = refl

abbrev first_call : Call
first_call = record {
  url = "/a";
  skip_auth_retry = false;
  bearer = none;
  attempts = 1;
  phase = sent;
}

abbrev one_call : Client
one_call = record {
  store = initial;
  refreshing = false;
  refreshes = 0;
  settled = 0;
  location = none;
  calls = first_call ∷ [];
}

one_call-IsFirst : IsFirst one_call 0 first_call
one_call-IsFirst = record { at = refl; was_sent = refl; may_retry = refl }

run-refused_example :
    (get_elem?
        (run one_call (responds 0 (answered 401 none) ∷ settles refused ∷ resumes 0 ∷ [])).calls
        0
      ≡ some (record first_call { phase = finished (rejected (error_of "/a" 401 none)) }))
    × ((run one_call
          (responds 0 (answered 401 none) ∷ settles refused ∷ resumes 0 ∷ [])).store.access_token
        ≡ none)
    × ((run one_call (responds 0 (answered 401 none) ∷ settles refused ∷ resumes 0 ∷ [])).location
        ≡ some "/login")
run-refused_example = run-refused one_call 0 first_call none one_call-IsFirst

run-granted_example :
    (get_elem?
        (run one_call
          (responds 0 (answered 401 none) ∷ settles (access "t") ∷ resumes 0 ∷ [])).calls
        0
      ≡ some (record first_call {
        skip_auth_retry = true;
        bearer = some "t";
        attempts = 2;
        phase = sent;
      }))
    × ((run one_call (
          responds 0 (answered 401 none)
          ∷ settles (access "t")
          ∷ resumes 0
          ∷ [])).store.access_token
        ≡ some "t")
run-granted_example = run-granted one_call 0 first_call none one_call-IsFirst "t" refl

abbrev retried_call : Call
retried_call = record {
  url = "/a";
  skip_auth_retry = true;
  bearer = some "t";
  attempts = 2;
  phase = sent;
}

abbrev one_retry : Client
one_retry = record one_call { calls = retried_call ∷ [] }

abbrev login : LoginResponse
login = record { access_token = "t"; org_context = auto; orgs = [] }

abbrev boot_and_login : List ProviderEvent
boot_and_login = remounts ∷ boot_settles 0 refused ∷ boot_settles 1 refused ∷ signs_in login ∷ []

protected_route-shell_example :
    ((protected_route (run_provider (mount initial) boot_and_login) ≡ shell)
      ↔ HasSession (run_provider (mount initial) boot_and_login))
    × ((root_redirect (run_provider (mount initial) boot_and_login) ≡ navigate "/dashboard")
        ↔ HasSession (run_provider (mount initial) boot_and_login))
protected_route-shell_example = protected_route-shell initial boot_and_login

run-signs_out_example : IsSignedOut (
    run_provider
      (mount initial)
      (boot_and_login ++ signs_out rejected ∷ remounts ∷ boot_settles 2 refused ∷ []))
run-signs_out_example =
    run-signs_out initial boot_and_login (remounts ∷ boot_settles 2 refused ∷ []) rejected
      (refl, (refl, tt))

abbrev two_grants : Option MyPermissionsResponse
two_grants = some (record {
  codes =
      record { code = "project.read"; project_id = none }
      ∷ record { code = "defect.create"; project_id = some "p" }
      ∷ [];
})

-- The grant in one project is none in another, and nothing is granted before the answer is there.
two_grants-has :
    (has two_grants "defect.create" (some "p") ≡ true)
    × (has two_grants "defect.create" (some "q") ≡ false)
    × (has two_grants "project.read" (some "q") ≡ true)
    × (has none "project.read" (some "q") ≡ false)
unfolding has
two_grants-has = (refl, refl, refl, refl)
