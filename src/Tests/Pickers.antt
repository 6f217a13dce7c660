-- ===== src/Tests/Pickers.antt =====
-- The two pickers in concrete histories.
use testnexa.Base.{◌≡◌, refl, String, none, some, List, [], ◌∷◌}
use testnexa.Json.{Fields, str, field, end}
use testnexa.Entity.{SelectorFields, ScopeSelectorOption, direct, through}
use testnexa.Pickers.Autocomplete as Search
use testnexa.Pickers.Autocomplete.Debounced.{IsDebounced, after-IsDebounced}
use testnexa.Pickers.Selector as Selector
use testnexa.Pickers.Selector.Reported.{IsConsistent, after-IsConsistent}

abbrev named_row : String → Fields
named_row name = field "id" (str name) end

-- Two searches, of which the first is answered last, and a third one that is waiting.
abbrev typing : List Search.Event
typing =
    Search.found (some (named_row "a1" ∷ []))
    ∷ Search.found (some (named_row "ab1" ∷ []))
    ∷ Search.timer
    ∷ Search.input "ab"
    ∷ Search.timer
    ∷ Search.input "a"
    ∷ []

-- The rows for the first text are offered under the second.
typing-results : (Search.after none none typing).results ≡ named_row "a1" ∷ []
unfolding Search.after
typing-results = refl

typing-query : (Search.after none none typing).query ≡ "ab"
unfolding Search.after
typing-query = refl

abbrev typing_on : List Search.Event
typing_on = Search.input "abc" ∷ typing

after-IsDebounced_example : IsDebounced (Search.after (some "name") none typing_on)
after-IsDebounced_example = after-IsDebounced (some "name") none typing_on

abbrev fields_named : String → SelectorFields
fields_named name = record {
  ref_entity = name;
  param_name = name;
  label = none;
  select = none;
  label_field = none;
}

abbrev two_options : List ScopeSelectorOption
two_options =
    direct (fields_named "requirement_id")
    ∷ through (fields_named "test_cycle_id") (direct (fields_named "test_plan_id"))
    ∷ []

abbrev two_steps : List Selector.Event
two_steps =
    Selector.pick (some "c")
    ∷ Selector.pick (some "t")
    ∷ Selector.choose_option 1
    ∷ Selector.pick (some "r")
    ∷ []

two_steps-resolved :
    (Selector.after two_options two_steps).resolved
    ≡ ("test_cycle_id", "c") ∷ ("requirement_id", "r") ∷ []
unfolding Selector.after
two_steps-resolved = refl

after-IsConsistent_example : IsConsistent two_options (Selector.after two_options two_steps)
after-IsConsistent_example = after-IsConsistent two_options two_steps
