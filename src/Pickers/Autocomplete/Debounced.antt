-- ===== src/Pickers/Autocomplete/Debounced.antt =====
-- A search is for the text of the field.
use testnexa.Base.{
  ◌≡◌, ◌⊎◌, inl, inr, refl, String, true, not, ◌==◌, Option, none, some, List, [], ◌∷◌, truthy,
  is_empty, num_eq, if_keeps,
}
use testnexa.Json.{Fields, property}
use testnexa.Pickers.Autocomplete.{
  Autocomplete, label_for, query_changed, set_query, value_changed, set_value, handle_input,
  string_of_id, handle_select, labelled, receive_label, search_for, fire, receive_results,
  handle_focus, handle_blur, Event, input, select, timer, focus, blur, found, named, step, after,
  same_value,
}

-- No timer is pending, or one for the text of the field, which is not empty.
abbrev pub IsDebounced : Autocomplete → Type 0
IsDebounced s = (s.debounce ≡ none) ⊎ ((s.debounce ≡ some s.query) × (truthy s.query ≡ true))

query_changed-IsDebounced : (s : Autocomplete) → IsDebounced (query_changed s)
unfolding query_changed
query_changed-IsDebounced s =
    if_keeps IsDebounced (not s.has_user_typed) _ _ (λ _. inl refl)
      (λ _. if_keeps IsDebounced (truthy s.query) _ _ (λ h. inr (refl, h)) (λ _. inl refl))

set_query-IsDebounced :
    (query : String) (s : Autocomplete) → IsDebounced s → IsDebounced (set_query query s)
unfolding set_query
set_query-IsDebounced query s h =
    if_keeps IsDebounced (query == s.query) _ _ (λ _. h)
      (λ _. query_changed-IsDebounced (record s { query = query }))

value_changed-IsDebounced :
    (value : Option String) (s : Autocomplete) → IsDebounced s → IsDebounced (value_changed value s)
unfolding value_changed
value_changed-IsDebounced none s h = set_query-IsDebounced "" _ h
value_changed-IsDebounced (some id) s h = h

set_value-IsDebounced :
    (value : Option String) (s : Autocomplete) → IsDebounced s → IsDebounced (set_value value s)
unfolding set_value
set_value-IsDebounced value s h =
    if_keeps IsDebounced (same_value value s.value) _ _ (λ _. h)
      (λ _. value_changed-IsDebounced value s h)

handle_input-IsDebounced :
    (text : String) (s : Autocomplete) → IsDebounced s → IsDebounced (handle_input text s)
unfolding handle_input
handle_input-IsDebounced text s h = set_query-IsDebounced text _ (
    if_keeps IsDebounced (truthy text) _ _ (λ _. h)
      (λ _. set_value-IsDebounced none (record s { has_user_typed = true }) h))

labelled-IsDebounced :
    (label_field : Option String) (row : Option Fields) (value : Option String) (s : Autocomplete)
    → IsDebounced s
    → IsDebounced (labelled label_field row value s)
unfolding labelled
labelled-IsDebounced label_field row none s h = h
labelled-IsDebounced label_field none (some value) s h = set_query-IsDebounced value s h
labelled-IsDebounced label_field (some row) (some value) s h =
    set_query-IsDebounced (label_for row label_field) s h

search_for-IsDebounced :
    (query : Option String) (s : Autocomplete) → IsDebounced s → IsDebounced (search_for query s)
unfolding search_for
search_for-IsDebounced none s h = h
search_for-IsDebounced (some query) s h = inl refl

receive_results-IsDebounced :
    (reply : Option (List Fields)) (s : Autocomplete)
    → IsDebounced s
    → IsDebounced (receive_results reply s)
unfolding receive_results
receive_results-IsDebounced none s h = h
receive_results-IsDebounced (some rows) s h = h

module _ (label_field : Option String) (value : Option String) where
  -- After every history of inputs, selections, answers and timers, in any order, the search that is
  -- waiting for its timer, where there is one, is for the text that the field has, and that text is
  -- not empty: the search of an older text is never sent after the text has changed.
  pub after-IsDebounced : (es : List Event) → IsDebounced (after label_field value es)
  unfolding after step handle_select fire handle_focus handle_blur receive_label
  after-IsDebounced [] = value_changed-IsDebounced value _ (inl refl)
  after-IsDebounced (input text ∷ es) =
      handle_input-IsDebounced text (after label_field value es) (after-IsDebounced es)
  after-IsDebounced (select row ∷ es) =
      set_query-IsDebounced (label_for row label_field) _
        (set_value-IsDebounced (some (string_of_id (property "id" row))) _ (after-IsDebounced es))
  after-IsDebounced (timer ∷ es) =
      let s = after label_field value es in
      search_for-IsDebounced s.debounce s (after-IsDebounced es)
  after-IsDebounced (focus ∷ es) =
      let s = after label_field value es in
      if_keeps IsDebounced (is_empty s.results) _ _ (λ _. after-IsDebounced es)
        (λ _. after-IsDebounced es)
  after-IsDebounced (blur ∷ es) = after-IsDebounced es
  after-IsDebounced (found reply ∷ es) =
      receive_results-IsDebounced reply (after label_field value es) (after-IsDebounced es)
  after-IsDebounced (named n row ∷ es) =
      let s = after label_field value es in
      if_keeps IsDebounced (num_eq n s.value_effects) _ _
        (λ _. labelled-IsDebounced label_field row s.value s (after-IsDebounced es))
        (λ _. after-IsDebounced es)
