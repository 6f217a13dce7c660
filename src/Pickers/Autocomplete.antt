-- ===== src/Pickers/Autocomplete.antt =====
-- components/molecules/fk-autocomplete/fk-autocomplete.tsx: the field that searches a referenced entity,
-- with its configuration there and its list method allowed. The parent is taken to pass on the value
-- that onChange gives it. The two requests are answered at any later time, and the timer of the search
-- fires at any later time.
pub mod Debounced
use testnexa.Base.{
  ℕ, suc, String, Bool, true, false, not, ◌&&◌, ◌==◌, Option, none, some, List, [], ◌∷◌, truthy,
  is_empty, num_eq, if◌then◌else◌,
}
use testnexa.Json.{Json, null, str, Fields, property}
use testnexa.Json.Text.{string_of}

pub record Autocomplete : Type 0 where
  -- the prop, and how often its effect has run
  pub value : Option String
  pub value_effects : ℕ
  pub query : String
  pub results : List Fields
  pub is_open : Bool
  pub is_loading : Bool
  -- the text that the pending timer will search for
  pub debounce : Option String
  pub has_user_typed : Bool

-- `String(row.id ?? "")`
id_text : Option Json → String
id_text none = ""
id_text (some null) = ""
id_text (some v) = string_of v

-- `raw === null || raw === undefined || raw === "" ? ... : String(raw)`
raw_text : Option Json → String → String
raw_text none id = id
raw_text (some null) id = id
raw_text (some (str s)) id = if truthy s then s else id
raw_text (some v) id = string_of v

label_by : Option String → Fields → String → String
unfolding raw_text
label_by none row id = id
label_by (some field) row id = if truthy field then raw_text (property field row) id else id

unfoldable pub label_for : Fields → Option String → String
unfolding label_by id_text
label_for row label_field = label_by label_field row (id_text (property "id" row))

-- The effect of the query, where the query has changed: the old timer is cleared, and a new one is set
-- where the user has typed.
unfoldable pub query_changed : Autocomplete → Autocomplete
query_changed s =
    if not s.has_user_typed
    then record s { debounce = none }
    else if truthy s.query
    then record s { debounce = some s.query }
    else record s { debounce = none; results = [] }

-- `setQuery`, with the effect that follows it.
unfoldable pub set_query : String → Autocomplete → Autocomplete
unfolding query_changed
set_query query s = if query == s.query then s else query_changed (record s { query = query })

-- The effect of the value, where the value has changed, up to its request.
unfoldable pub value_changed : Option String → Autocomplete → Autocomplete
unfolding set_query
value_changed none s =
    set_query ""
      (record s { value = none; value_effects = suc s.value_effects; has_user_typed = false })
value_changed (some id) s = record s {
  value = some id;
  value_effects = suc s.value_effects;
  has_user_typed = false;
}

same_value : Option String → Option String → Bool
same_value none none = true
same_value (some a) (some b) = a == b
same_value _ _ = false

unfoldable pub set_value : Option String → Autocomplete → Autocomplete
unfolding value_changed same_value
set_value value s = if same_value value s.value then s else value_changed value s

-- A change of the text by the user. The effect of the value runs before that of the query.
unfoldable pub handle_input : String → Autocomplete → Autocomplete
unfolding set_value set_query
handle_input text s =
    let typed = record s { has_user_typed = true } in
    set_query text (if truthy text then typed else set_value none typed)

-- `String(row.id)`
string_of_id : Option Json → String
string_of_id none = "undefined"
string_of_id (some v) = string_of v

unfoldable pub handle_select : Option String → Fields → Autocomplete → Autocomplete
unfolding set_value set_query string_of_id
handle_select label_field row s = set_query (label_for row label_field) (
    set_value (some (string_of_id (property "id" row)))
      (record s { has_user_typed = false; is_open = false }))

-- The answer to the request of the label that this run of the effect has sent: a run that is no longer
-- the latest is cancelled.
unfoldable pub labelled :
    Option String → Option Fields → Option String → Autocomplete → Autocomplete
unfolding set_query
labelled label_field row none s = s
labelled label_field none (some value) s = set_query value s
labelled label_field (some row) (some value) s = set_query (label_for row label_field) s

unfoldable pub receive_label : Option String → ℕ → Option Fields → Autocomplete → Autocomplete
unfolding labelled
receive_label label_field n row s =
    if num_eq n s.value_effects then labelled label_field row s.value s else s

-- The timer fires; `none` where there is none.
unfoldable pub search_for : Option String → Autocomplete → Autocomplete
search_for none s = s
search_for (some query) s = record s { debounce = none; is_loading = true }

unfoldable pub fire : Autocomplete → Autocomplete
unfolding search_for
fire s = search_for s.debounce s

-- The answer to a search, whichever it is.
unfoldable pub receive_results : Option (List Fields) → Autocomplete → Autocomplete
receive_results none s = record s { results = []; is_loading = false }
receive_results (some rows) s = record s { results = rows; is_open = true; is_loading = false }

unfoldable pub handle_focus : Autocomplete → Autocomplete
handle_focus s = if is_empty s.results then s else record s { is_open = true }

unfoldable pub handle_blur : Autocomplete → Autocomplete
handle_blur s = record s { is_open = false }

pub data Event : Type 0 where
  input : String → Event
  select : Fields → Event
  timer focus blur : Event
  -- The answers to a search, and to the request of a label.
  found : Option (List Fields) → Event
  named : ℕ → Option Fields → Event

module _ (label_field : Option String) where
  unfoldable pub step : Event → Autocomplete → Autocomplete
  unfolding handle_input handle_select fire handle_focus handle_blur receive_results receive_label
  step (input text) s = handle_input text s
  step (select row) s = handle_select label_field row s
  step timer s = fire s
  step focus s = handle_focus s
  step blur s = handle_blur s
  step (found reply) s = receive_results reply s
  step (named n row) s = receive_label label_field n row s

  -- The field is rendered with a value, and then lives through a history, the latest event first.
  unfoldable pub after : Option String → List Event → Autocomplete
  unfolding step value_changed
  after value [] = value_changed value (record {
    value = none;
    value_effects = 0;
    query = "";
    results = [];
    is_open = false;
    is_loading = false;
    debounce = none;
    has_user_typed = false;
  })
  after value (e ∷ es) = step e (after value es)
