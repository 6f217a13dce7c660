-- ===== src/Pickers/Selector.antt =====
-- components/molecules/scope-selector/scope-selector.tsx: the choice of a scope, in one step or two.
-- The log has what onResolved has been called with, the latest call first.
pub mod Reported
use testnexa.Base.{
  ℕ, String, Bool, true, false, not, ◌&&◌, Option, none, some, List, [], ◌∷◌, get_elem?, present,
  is_some, truthy, get_or, if◌then◌else◌,
}
use testnexa.Base.Dict.{insert}
use testnexa.Entity.{
  SelectorFields, ScopeSelectorOption, direct, through, ScopeSelector, one, several,
}

-- `Array.isArray(options) ? options : [options]`
unfoldable pub option_list : ScopeSelector → List ScopeSelectorOption
option_list (one option) = option ∷ []
option_list (several options) = options

unfoldable pub fields_of : ScopeSelectorOption → SelectorFields
fields_of (direct fields) = fields
fields_of (through fields via) = fields

unfoldable pub via_of : ScopeSelectorOption → Option ScopeSelectorOption
via_of (direct fields) = none
via_of (through fields via) = some via

pub record Selector : Type 0 where
  pub active_index : ℕ
  pub value : Option String
  pub via_value : Option String
  pub resolved : List (String × String)

abbrev pub start : Selector
start = record { active_index = 0; value = none; via_value = none; resolved = [] }

-- `Boolean(active.via) && !viaValue`
unfoldable pub needs_via_first : ScopeSelectorOption → Selector → Bool
unfolding via_of
needs_via_first active s = is_some (via_of active) && not (present s.via_value)

-- A button of the group, which is there for each option.
unfoldable pub select_option : List ScopeSelectorOption → ℕ → Selector → Selector
select_option options index s =
    if is_some (get_elem? options index)
    then record s { active_index = index; value = none; via_value = none }
    else s

unfoldable pub report : Option String → String → Selector → Selector
report none name s = s
report (some id) name s = if truthy id then record s { resolved = (name, id) ∷ s.resolved } else s

unfoldable pub handle_change : ScopeSelectorOption → Option String → Selector → Selector
unfolding report fields_of
handle_change active id s = report id (fields_of active).param_name (record s { value = id })

-- `(id) => id && setViaValue(id)`
unfoldable pub pick_via : Option String → Selector → Selector
pick_via id s = if present id then record s { via_value = id } else s

-- The button that goes back to the first step.
unfoldable pub change_via : Selector → Selector
change_via s = record s { via_value = none; value = none }

-- `active.via ? { ...extraParams, [active.via.paramName]: viaValue } : extraParams`
unfoldable pub control_params :
    ScopeSelectorOption → List (String × Option String) → Selector → List (String × Option String)
unfolding fields_of
control_params (direct fields) extra s = extra
control_params (through fields via) extra s = insert (fields_of via).param_name s.via_value extra

pub data Event : Type 0 where
  choose_option : ℕ → Event
  -- A pick of the control that is shown.
  pick : Option String → Event
  back : Event

unfoldable pub pick_in : Option ScopeSelectorOption → Option String → Selector → Selector
unfolding needs_via_first pick_via handle_change
pick_in none id s = s
pick_in (some active) id s =
    if needs_via_first active s then pick_via id s else handle_change active id s

unfoldable pub go_back : Option ScopeSelectorOption → Selector → Selector
unfolding needs_via_first via_of change_via
go_back none s = s
go_back (some active) s =
    if is_some (via_of active) && not (needs_via_first active s) then change_via s else s

module _ (options : List ScopeSelectorOption) where
  unfoldable pub step : Event → Selector → Selector
  unfolding select_option pick_in go_back
  step (choose_option index) s = select_option options index s
  step (pick id) s = pick_in (get_elem? options s.active_index) id s
  step back s = go_back (get_elem? options s.active_index) s

  -- After a history, the latest event first.
  unfoldable pub after : List Event → Selector
  unfolding step
  after [] = start
  after (e ∷ es) = step e (after es)
