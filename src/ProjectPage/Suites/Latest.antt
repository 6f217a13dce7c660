-- ===== src/ProjectPage/Suites/Latest.antt =====
-- Whose members are shown under the suite that is open.
use testnexa.Base.{
  ◌≡◌, refl, ap, ◌∙◌, String, Bool, true, false, ◌==◌, Option, none, some, List, [], ◌∷◌,
  if◌then◌else◌,
}
use testnexa.Workflow.{FieldMessage, Reply, ok, failed, error_message, receive_load}
use testnexa.TestPlan.{TestSuiteSummary, TestCaseSummary}
use testnexa.ProjectPage.{field_error}
use testnexa.ProjectPage.Suites.{
  Section, on_submit_test_suite, refused, is_open, dismiss_add_to_suite_error, fetch_test_suites,
  fetch_suite_members, receive_suites, receive_members, create_settled, toggle_suite_membership,
  with_error, remove_settled, add_settled, Event, open_modal, close_modal, submit_suite, created,
  suites_answered, toggle_members, members_answered, remove_member, removed, add_member, added,
  dismiss_error, step, after,
}

-- The suite is the one that is open.
abbrev pub is_suite : Option String → String → Bool
is_suite none id = false
is_suite (some other) id = other == id

-- What the history alone says: the suite that is open, the latest answer for members that has not
-- failed since a suite was opened, with the suite that it is about, and the suites.
abbrev pub open_suite : List Event → Option String
open_suite [] = none
open_suite (toggle_members id ∷ es) = if is_suite (open_suite es) id then none else some id
open_suite (_ ∷ es) = open_suite es

abbrev pub latest_answer : List Event → Option (String × List TestCaseSummary)
latest_answer [] = none
latest_answer (toggle_members id ∷ es) =
    let before = latest_answer es in if is_suite (open_suite es) id then before else none
latest_answer (members_answered id (ok cases) ∷ es) = some (id, cases)
latest_answer (_ ∷ es) = latest_answer es

abbrev pub latest_suites : List Event → List TestSuiteSummary
latest_suites [] = []
latest_suites (suites_answered (ok suites) ∷ es) = suites
latest_suites (_ ∷ es) = latest_suites es

-- The suites whose members have to be asked for: one that is opened, one of which a case has been
-- removed or not, and the open one when a case has been added to it.
abbrev pub required : List Event → List String
required [] = []
required (toggle_members id ∷ es) =
    let before = required es in if is_suite (open_suite es) id then before else id ∷ before
required (removed id case_id reply ∷ es) = id ∷ required es
required (added open_then id case_id (ok _) ∷ es) =
    let before = required es in if is_suite open_then id then id ∷ before else before
required (_ ∷ es) = required es

abbrev pub cases_of : Option (String × List TestCaseSummary) → List TestCaseSummary
cases_of none = []
cases_of (some (id, cases)) = cases

-- A section with this open suite, these members and these suites, which has asked for the members of
-- these.
abbrev pub Shows :
    Option String
    → Option (String × List TestCaseSummary)
    → List TestSuiteSummary
    → List String
    → Section
    → Type 0
Shows id answer suites asked s =
    (s.expanded_suite_id ≡ id)
    × (s.members.value ≡ cases_of answer)
    × (s.suites.value ≡ suites)
    × (s.requested ≡ asked)

open-is_suite : (o : Option String) (id : String) → is_open o id ≡ is_suite o id
unfolding is_open
open-is_suite none id = refl
open-is_suite (some other) id = refl

module _ (id : Option String) (answer : Option (String × List TestCaseSummary))
    (suites : List TestSuiteSummary) (asked : List String) where
  refused-Shows :
      (name purpose : Option FieldMessage) (message : String) (s : Section)
      → Shows id answer suites asked s
      → Shows id answer suites asked (refused name purpose message s)
  unfolding refused
  refused-Shows (some name) purpose message s h = h
  refused-Shows none (some purpose) message s h = h
  refused-Shows none none message s h = h

  create_settled-Shows :
      (reply : Reply (Unit {0})) (s : Section)
      → Shows id answer suites asked s
      → Shows id answer suites asked (create_settled reply s)
  unfolding create_settled fetch_test_suites
  create_settled-Shows (ok _) s h = h
  create_settled-Shows (failed e) s h =
      refused-Shows (field_error e "name") (field_error e "purpose") (error_message e) s h

  remove_settled-Shows :
      (i : String) (reply : Reply (Unit {0})) (s : Section)
      → Shows id answer suites asked s
      → Shows id answer suites (i ∷ asked) (remove_settled i reply s)
  unfolding remove_settled with_error fetch_suite_members
  remove_settled-Shows i (ok _) s h = (h.0, h.1, h.2, ap (λ l. i ∷ l) h.3)
  remove_settled-Shows i (failed e) s h = (h.0, h.1, h.2, ap (λ l. i ∷ l) h.3)

  -- The suites that have been asked for once an addition has ended.
  asked_after : Option String → String → Reply (Unit {0}) → List String
  asked_after open_then i (ok _) = if is_suite open_then i then i ∷ asked else asked
  asked_after open_then i (failed e) = asked

  added_if :
      (b : Bool) (i : String) (s : Section)
      → Shows id answer suites asked s
      → Shows id answer suites
          (if b then i ∷ asked else asked)
          (if b then fetch_suite_members i s else s)
  unfolding fetch_suite_members
  added_if true i s h = (h.0, h.1, h.2, ap (λ l. i ∷ l) h.3)
  added_if false i s h = h

  add_settled-Shows :
      (open_then : Option String) (i case_id : String) (reply : Reply (Unit {0})) (s : Section)
      → Shows id answer suites asked s
      → Shows id answer suites
          (asked_after open_then i reply)
          (add_settled open_then i case_id reply s)
  unfolding add_settled asked_after
  add_settled-Shows open_then i case_id (ok _) s h =
      rw (open-is_suite open_then i) (added_if (is_suite open_then i) i s h)
  add_settled-Shows open_then i case_id (failed e) s h = h

  toggled-Shows :
      (b : Bool) (i : String) (s : Section)
      → Shows id answer suites asked s
      → Shows
          (if b then none else some i)
          (if b then answer else none)
          suites
          (if b then asked else i ∷ asked)
          (if b
            then record s { expanded_suite_id = none }
            else fetch_suite_members i (record s {
              expanded_suite_id = some i;
              members = record s.members { value = [] };
            }))
  unfolding fetch_suite_members
  toggled-Shows true i s h = (refl, h.1, h.2, h.3)
  toggled-Shows false i s h = (refl, refl, h.2, ap (λ l. i ∷ l) h.3)

  toggle-Shows :
      (i : String) (s : Section)
      → Shows id answer suites asked s
      → Shows
          (if is_suite id i then none else some i)
          (if is_suite id i then answer else none)
          suites
          (if is_suite id i then asked else i ∷ asked)
          (toggle_suite_membership i s)
  unfolding toggle_suite_membership
  toggle-Shows i s h =
      let same : is_open s.expanded_suite_id i ≡ is_suite id i =
        open-is_suite s.expanded_suite_id i ∙ ap (λ o. is_suite o i) h.0 in
      rw same (toggled-Shows (is_suite id i) i s h)

-- After every history, with answers at any time and in any order: the suite that is open is the one
-- that the toggles leave open, its members are those of the latest answer that has come, and not
-- failed, since a suite was opened, whichever suite that answer is about, and none where no such
-- answer has come; the suites are those of the latest answer that has not failed; and members have
-- been asked for exactly where a suite was opened, where a removal has ended, granted or not, and
-- where an addition to the suite that was open at its click has succeeded.
pub after-IsOfHistory :
    (es : List Event)
    → Shows (open_suite es) (latest_answer es) (latest_suites es) (required es) (after es)
unfolding after step dismiss_add_to_suite_error on_submit_test_suite receive_suites receive_members
    receive_load asked_after
after-IsOfHistory [] = (refl, refl, refl, refl)
after-IsOfHistory (open_modal ∷ es) = after-IsOfHistory es
after-IsOfHistory (close_modal ∷ es) = after-IsOfHistory es
after-IsOfHistory (submit_suite name purpose ∷ es) = after-IsOfHistory es
after-IsOfHistory (created reply ∷ es) =
    create_settled-Shows (open_suite es) (latest_answer es) (latest_suites es) (required es) reply
      (after es) (after-IsOfHistory es)
after-IsOfHistory (suites_answered (ok suites) ∷ es) =
    let h = after-IsOfHistory es in (h.0, h.1, refl, h.3)
after-IsOfHistory (suites_answered (failed e) ∷ es) = after-IsOfHistory es
after-IsOfHistory (toggle_members id ∷ es) =
    toggle-Shows (open_suite es) (latest_answer es) (latest_suites es) (required es) id (after es)
      (after-IsOfHistory es)
after-IsOfHistory (members_answered id (ok cases) ∷ es) =
    let h = after-IsOfHistory es in (h.0, refl, h.2, h.3)
after-IsOfHistory (members_answered id (failed e) ∷ es) = after-IsOfHistory es
after-IsOfHistory (remove_member id case_id ∷ es) = after-IsOfHistory es
after-IsOfHistory (removed id case_id reply ∷ es) =
    remove_settled-Shows (open_suite es) (latest_answer es) (latest_suites es) (required es) id
      reply (after es) (after-IsOfHistory es)
after-IsOfHistory (add_member id case_id ∷ es) = after-IsOfHistory es
after-IsOfHistory (added open_then id case_id (ok r) ∷ es) =
    add_settled-Shows (open_suite es) (latest_answer es) (latest_suites es) (required es) open_then
      id case_id (ok r) (after es) (after-IsOfHistory es)
after-IsOfHistory (added open_then id case_id (failed e) ∷ es) =
    add_settled-Shows (open_suite es) (latest_answer es) (latest_suites es) (required es) open_then
      id case_id (failed e) (after es) (after-IsOfHistory es)
after-IsOfHistory (dismiss_error case_id ∷ es) = after-IsOfHistory es

-- A removal that has been refused leaves no message: the members are fetched, which resets it.
removed-load_error :
    (id case_id : String) (reply : Reply (Unit {0})) (es : List Event)
    → (after (removed id case_id reply ∷ es)).members.load_error ≡ none
unfolding after step remove_settled fetch_suite_members
removed-load_error id case_id reply es = refl
