-- ===== src/Header/Switcher.antt =====
-- components/organisms/app-header/app-header.tsx: the menu of organisations. Requests are numbered by
-- the opening that sends them, and an answer may come at any time after that.
pub mod Latest
use testnexa.Base.{
  ℕ, suc, String, Bool, true, false, not, ◌<>◌, Option, none, some, List, [], ◌∷◌, num_eq,
  if◌then◌else◌,
}
use testnexa.Session.Provider.{OrgSummary}

pub data OrgListState : Type 0 where
  idle loading error : OrgListState
  loaded : List OrgSummary → OrgListState

pub record Switcher : Type 0 where
  pub is_open : Bool
  pub org_list : OrgListState
  -- `requestSeqRef.current`
  pub requests : ℕ
  -- where the page has navigated to
  pub location : Option String

abbrev pub start : Switcher
start = record { is_open = false; org_list = idle; requests = 0; location = none }

-- What a request gives: the organisations, or a failure of any kind.
abbrev pub Answer : Type 0
Answer = Option (List OrgSummary)

list_of : Answer → OrgListState
list_of none = error
list_of (some orgs) = loaded orgs

-- Up to the request.
unfoldable pub handle_org_dropdown_show : Switcher → Switcher
handle_org_dropdown_show s = record s { requests = suc s.requests; org_list = loading }

-- The rest of `handleOrgDropdownShow`, for the request with this number.
unfoldable pub receive : ℕ → Answer → Switcher → Switcher
unfolding list_of
receive seq answer s = if num_eq seq s.requests then record s { org_list = list_of answer } else s

unfoldable pub handle_org_dropdown_hide : Switcher → Switcher
handle_org_dropdown_hide s = record s { org_list = idle }

flip_switcher : Bool → Switcher → Switcher
unfolding handle_org_dropdown_show handle_org_dropdown_hide
flip_switcher true s = handle_org_dropdown_hide (record s { is_open = false })
flip_switcher false s = handle_org_dropdown_show (record s { is_open = true })

unfoldable pub toggle_org_switcher : Switcher → Switcher
unfolding flip_switcher
toggle_org_switcher s = flip_switcher s.is_open s

-- `handleClickOutside`, which listens only while the menu is open.
unfoldable pub handle_click_outside : Switcher → Switcher
unfolding handle_org_dropdown_hide
handle_click_outside s =
    if s.is_open then handle_org_dropdown_hide (record s { is_open = false }) else s

unfoldable pub handle_select_org : String → Switcher → Switcher
unfolding handle_org_dropdown_hide
handle_select_org target s = record (handle_org_dropdown_hide (record s { is_open = false })) {
  location = some ("/orgs/" <> target);
}

pub data Event : Type 0 where
  toggle click_outside : Event
  select : String → Event
  -- The answer to the request of the opening with this number, counted from 0.
  answer : ℕ → Answer → Event

unfoldable pub step : Event → Switcher → Switcher
unfolding toggle_org_switcher handle_click_outside handle_select_org receive
step toggle s = toggle_org_switcher s
step click_outside s = handle_click_outside s
step (select target) s = handle_select_org target s
step (answer n a) s = receive (suc n) a s

-- After a history, the latest event first.
unfoldable pub after : List Event → Switcher
unfolding step
after [] = start
after (e ∷ es) = step e (after es)

-- What the menu shows.
pub data Menu : Type 0 where
  closed waiting : Menu
  showing : Answer → Menu

shown : OrgListState → Menu
shown idle = closed
shown loading = waiting
shown error = showing none
shown (loaded orgs) = showing (some orgs)

unfoldable pub view : Switcher → Menu
unfolding shown
view s = if s.is_open then shown s.org_list else closed
