-- ===== src/Pickers/Selector/Reported.antt =====
-- What a selector reports is what it shows.
use testnexa.Base.{
  ◌≡◌, ◌⊎◌, ◌∙◌, refl, sym, ap, ℕ, String, true, false, not, ◌&&◌, Option, none, some, List, [],
  ◌∷◌, get_elem?, present, is_some, truthy, if_keeps, inl, inr,
}
use testnexa.Entity.{ScopeSelectorOption}
use testnexa.Pickers.Selector.{
  Selector, start, fields_of, via_of, needs_via_first, select_option, report, handle_change,
  pick_via, change_via, Event, choose_option, pick, back, pick_in, go_back, step, after,
}

-- No value is shown, or the intermediate pick that the option wants has been made, and the value is
-- the last one that has been reported, under the parameter of the option, where it is not empty.
abbrev pub IsReported : ScopeSelectorOption → Option String → Selector → Type 0
IsReported active none s = Unit {0}
IsReported active (some id) s =
    (needs_via_first active s ≡ false)
    × ((truthy id ≡ false) ⊎ (get_elem? s.resolved 0 ≡ some ((fields_of active).param_name, id)))

abbrev pub IsShown : Option ScopeSelectorOption → Selector → Type 0
IsShown none s = Unit {0}
IsShown (some active) s = IsReported active s.value s

abbrev IsAt : ℕ → Selector → Type 0
IsAt index s = s.active_index ≡ index

report-index :
    (id : Option String) (name : String) (s : Selector)
    → (report id name s).active_index ≡ s.active_index
unfolding report
report-index none name s = refl
report-index (some id) name s =
    if_keeps (IsAt s.active_index) (truthy id) _ _ (λ _. refl) (λ _. refl)

pick_in-index :
    (o : Option ScopeSelectorOption) (id : Option String) (s : Selector)
    → (pick_in o id s).active_index ≡ s.active_index
unfolding pick_in pick_via handle_change
pick_in-index none id s = refl
pick_in-index (some active) id s =
    if_keeps (IsAt s.active_index) (needs_via_first active s) _ _
      (λ _. if_keeps (IsAt s.active_index) (present id) _ _ (λ _. refl) (λ _. refl))
      (λ _. report-index id (fields_of active).param_name (record s { value = id }))

go_back-index :
    (o : Option ScopeSelectorOption) (s : Selector) → (go_back o s).active_index ≡ s.active_index
unfolding go_back change_via
go_back-index none s = refl
go_back-index (some active) s =
    if_keeps (IsAt s.active_index) (is_some (via_of active) && not (needs_via_first active s)) _ _
      (λ _. refl) (λ _. refl)

handle_change-IsShown :
    (active : ScopeSelectorOption) (id : Option String) (s : Selector)
    → needs_via_first active s ≡ false
    → IsShown (some active) (handle_change active id s)
unfolding handle_change report needs_via_first
handle_change-IsShown active none s h = tt
handle_change-IsShown active (some id) s h =
    if_keeps (IsShown (some active)) (truthy id) _ _ (λ _. (h, inr refl)) (λ empty. (h, inl empty))

pick_via-IsShown :
    (active : ScopeSelectorOption) (id value : Option String) (s : Selector)
    → s.value ≡ value
    → needs_via_first active s ≡ true
    → IsReported active value s
    → IsShown (some active) (pick_via id s)
unfolding pick_via
pick_via-IsShown active id none s e n h =
    if_keeps (IsShown (some active)) (present id) _ _ (λ _. rw e tt) (λ _. rw e tt)
pick_via-IsShown active id (some value) s e n h = let impossible : true ≡ false = sym n ∙ h.0 in cc

pick_in-IsShown :
    (o : Option ScopeSelectorOption) (id : Option String) (s : Selector)
    → IsShown o s
    → IsShown o (pick_in o id s)
unfolding pick_in
pick_in-IsShown none id s h = h
pick_in-IsShown (some active) id s h =
    if_keeps (IsShown (some active)) (needs_via_first active s) _ _
      (λ n. pick_via-IsShown active id s.value s refl n h)
      (λ n. handle_change-IsShown active id s n)

go_back-IsShown :
    (o : Option ScopeSelectorOption) (s : Selector) → IsShown o s → IsShown o (go_back o s)
unfolding go_back change_via
go_back-IsShown none s h = h
go_back-IsShown (some active) s h =
    if_keeps (IsShown (some active)) (is_some (via_of active) && not (needs_via_first active s)) _ _
      (λ _. tt) (λ _. h)

module _ (options : List ScopeSelectorOption) where
  -- The selector shows what it has reported, for the option that is active.
  abbrev pub IsConsistent : Selector → Type 0
  IsConsistent s = IsShown (get_elem? options s.active_index) s

  shown-index :
      (o : Option ScopeSelectorOption) (s : Selector)
      → IsShown o s
      → get_elem? options s.active_index ≡ o
      → IsConsistent s
  shown-index o s h e = rw e h

  unshown : (o : Option ScopeSelectorOption) (s : Selector) → s.value ≡ none → IsShown o s
  unshown none s e = tt
  unshown (some active) s e = rw e tt

  -- After every history of choices, picks and steps back, the selector shows no value, or shows the
  -- last value that it has reported, unless that is empty, under the parameter of the option that is
  -- active, and then the intermediate pick that the option wants has been made.
  pub after-IsConsistent : (es : List Event) → IsConsistent (after options es)
  unfolding after step select_option
  after-IsConsistent [] = unshown (get_elem? options 0) start refl
  after-IsConsistent (choose_option index ∷ es) =
      if_keeps IsConsistent (is_some (get_elem? options index)) _ _
        (λ _. unshown (get_elem? options index) _ refl) (λ _. after-IsConsistent es)
  after-IsConsistent (pick id ∷ es) =
      let s = after options es in
      let o = get_elem? options s.active_index in
      shown-index o (pick_in o id s) (pick_in-IsShown o id s (after-IsConsistent es))
        (ap (get_elem? options) (pick_in-index o id s))
  after-IsConsistent (back ∷ es) =
      let s = after options es in
      let o = get_elem? options s.active_index in
      shown-index o (go_back o s) (go_back-IsShown o s (after-IsConsistent es))
        (ap (get_elem? options) (go_back-index o s))
