-- ===== src/Header/Switcher/Latest.antt =====
-- The menu shows the answer to the request of its latest opening.
use testnexa.Base.{
  ◌≡◌, refl, sym, ap, ℕ, suc, ◌<◌, Bool, true, false, not, Option, none, some, List, [], ◌∷◌, arith,
  num_eq, if◌then◌else◌,
}
use testnexa.Header.Switcher.{
  Switcher, Answer, list_of, flip_switcher, toggle_org_switcher, handle_click_outside,
  handle_select_org, handle_org_dropdown_hide, handle_org_dropdown_show, receive, Event, toggle,
  click_outside, select, answer, step, after, Menu, closed, waiting, showing, shown, view,
}

-- What the history says, without the code's state.
abbrev pub is_open_after : List Event → Bool
is_open_after [] = false
is_open_after (toggle ∷ es) = not (is_open_after es)
is_open_after (click_outside ∷ es) = false
is_open_after (select target ∷ es) = false
is_open_after (answer n a ∷ es) = is_open_after es

-- How often the menu has been opened.
abbrev pub openings : List Event → ℕ
openings [] = 0
openings (toggle ∷ es) = if is_open_after es then openings es else suc (openings es)
openings (click_outside ∷ es) = openings es
openings (select target ∷ es) = openings es
openings (answer n a ∷ es) = openings es

-- The latest answer to the request with this number.
abbrev pub answer_to : ℕ → List Event → Option Answer
answer_to k [] = none
answer_to k (toggle ∷ es) = answer_to k es
answer_to k (click_outside ∷ es) = answer_to k es
answer_to k (select target ∷ es) = answer_to k es
answer_to k (answer n a ∷ es) = if num_eq (suc n) k then some a else answer_to k es

abbrev pub menu_of : Option Answer → Menu
menu_of none = waiting
menu_of (some a) = showing a

abbrev pub expected : List Event → Menu
expected es = if is_open_after es then menu_of (answer_to (openings es) es) else closed

-- Every answer is one to a request that has been sent.
abbrev pub IsCausal : List Event → Type 0
IsCausal [] = Unit {0}
IsCausal (toggle ∷ es) = IsCausal es
IsCausal (click_outside ∷ es) = IsCausal es
IsCausal (select target ∷ es) = IsCausal es
IsCausal (answer n a ∷ es) = (n < openings es) × IsCausal es

answer_to-new : (k : ℕ) (es : List Event) → IsCausal es → openings es < k → answer_to k es ≡ none
answer_to-new k [] c h = refl
answer_to-new k (toggle ∷ es) c h = answer_to-new k es c (ground (arith, h))
answer_to-new k (click_outside ∷ es) c h = answer_to-new k es c h
answer_to-new k (select target ∷ es) c h = answer_to-new k es c h
answer_to-new k (answer n a ∷ es) c h = ground (arith, answer_to-new k es c.1 h)

-- The state that a history leads to.
record Follows (s : Switcher) (es : List Event) : Type 0 where
  open_eq : s.is_open ≡ is_open_after es
  requests_eq : s.requests ≡ openings es
  list_eq : is_open_after es ≡ true → shown s.org_list ≡ menu_of (answer_to (openings es) es)

shown-list_of : (a : Answer) → shown (list_of a) ≡ showing a
unfolding shown list_of
shown-list_of none = refl
shown-list_of (some orgs) = refl

toggle-Follows :
    (b : Bool) (s : Switcher) (es : List Event)
    → is_open_after es ≡ b
    → IsCausal es
    → Follows s es
    → Follows (flip_switcher b s) (toggle ∷ es)
unfolding flip_switcher handle_org_dropdown_show handle_org_dropdown_hide shown
toggle-Follows true s es e c f = record {
  open_eq = rw e refl;
  requests_eq = rw e f.requests_eq;
  list_eq = rw e (λ h. cc);
}
toggle-Follows false s es e c f = record {
  open_eq = rw e refl;
  requests_eq = rw e (ap suc f.requests_eq);
  list_eq = λ h. sym (ap menu_of (answer_to-new (openings (toggle ∷ es)) es c (ground (arith, e))));
}

outside-Follows :
    (b : Bool) (s : Switcher) (es : List Event)
    → s.is_open ≡ b
    → Follows s es
    → Follows
        (if b then handle_org_dropdown_hide (record s { is_open = false }) else s)
        (click_outside ∷ es)
unfolding handle_org_dropdown_hide
outside-Follows true s es e f = record {
  open_eq = refl;
  requests_eq = f.requests_eq;
  list_eq = λ h. cc;
}
outside-Follows false s es e f = record {
  open_eq = e;
  requests_eq = f.requests_eq;
  list_eq = λ h. cc;
}

answer-Follows :
    (b : Bool) (n : ℕ) (a : Answer) (s : Switcher) (es : List Event)
    → num_eq (suc n) (openings es) ≡ b
    → Follows s es
    → Follows (if b then record s { org_list = list_of a } else s) (answer n a ∷ es)
answer-Follows true n a s es e f = record {
  open_eq = f.open_eq;
  requests_eq = f.requests_eq;
  list_eq = λ h. rw e (shown-list_of a);
}
answer-Follows false n a s es e f = record {
  open_eq = f.open_eq;
  requests_eq = f.requests_eq;
  list_eq = rw e f.list_eq;
}

after-Follows : (es : List Event) → IsCausal es → Follows (after es) es
unfolding after step toggle_org_switcher handle_click_outside handle_select_org receive
    handle_org_dropdown_hide
after-Follows [] c = record { open_eq = refl; requests_eq = refl; list_eq = λ h. cc }
after-Follows (toggle ∷ es) c =
    let f = after-Follows es c in
    toggle-Follows (after es).is_open (after es) es (sym f.open_eq) c f
after-Follows (click_outside ∷ es) c =
    let f = after-Follows es c in outside-Follows (after es).is_open (after es) es refl f
after-Follows (select target ∷ es) c = record {
  open_eq = refl;
  requests_eq = (after-Follows es c).requests_eq;
  list_eq = λ h. cc;
}
after-Follows (answer n a ∷ es) c =
    let f = after-Follows es c.1 in
    answer-Follows (num_eq (suc n) (after es).requests) n a (after es) es
      (ap (num_eq (suc n)) (sym f.requests_eq)) f

view-Follows :
    (b : Bool) (s : Switcher) (m : Menu)
    → s.is_open ≡ b
    → (b ≡ true → shown s.org_list ≡ m)
    → view s ≡ (if b then m else closed)
unfolding view
view-Follows true s m e h = rw e (h refl)
view-Follows false s m e h = rw e refl

-- Whatever the order in which the menu is opened, closed and left and in which answers come, as long
-- as no answer comes before its request, the menu shows what its history says: nothing while it is
-- closed, and while it is open the answer to the request of its latest opening, a failure included,
-- or that it waits for it; never the answer to the request of an earlier opening.
pub view-after : (es : List Event) → IsCausal es → view (after es) ≡ expected es
view-after es c =
    let f = after-Follows es c in
    view-Follows (is_open_after es) (after es) (menu_of (answer_to (openings es) es)) f.open_eq
      f.list_eq
