-- ===== src/Header/ColorMode/Themed.antt =====
-- The attribute of the page follows the mode and the system, and the mode outlives the page.
use testnexa.Base.{
  ◌≡◌, refl, ap, ◌∙◌, String, Bool, true, false, ◌==◌, Option, none, some, List, [], ◌∷◌, arith,
  if◌then◌else◌,
}
use testnexa.Header.ColorMode.{
  ColorMode, light, dark, auto, text_of, Page, mode_of, get_stored_color_mode, theme_of,
  apply_color_mode, initial_mode, color_mode_changed, mount, select_color_mode, follows_system,
  handle_change, Event, select, system_changes, step, run,
}

-- The attribute is the theme of the mode, and the mode is the one that is stored.
abbrev IsThemed : Page → Type 0
IsThemed p =
    (p.attribute ≡ some (theme_of p.color_mode p.prefers_dark))
    × (p.stored ≡ some (text_of p.color_mode))

get_stored-text_of : (mode : ColorMode) → get_stored_color_mode (some (text_of mode)) ≡ some mode
unfolding get_stored_color_mode
get_stored-text_of light = refl
get_stored-text_of dark = refl
get_stored-text_of auto = refl

color_mode_changed-IsThemed : (p : Page) → IsThemed (color_mode_changed p)
unfolding color_mode_changed
color_mode_changed-IsThemed p = (refl, refl)

-- A change of the system that is not followed leaves the theme as it is.
handle_change-theme :
    (mode : ColorMode) (b : Bool) (p : Page)
    → p.attribute ≡ some (theme_of mode p.prefers_dark)
    → p.stored ≡ some (text_of mode)
    → p.color_mode ≡ mode
    → IsThemed (handle_change b p)
unfolding handle_change theme_of get_stored_color_mode follows_system apply_color_mode
handle_change-theme light b p h k e = rw (k, e) (h, refl)
handle_change-theme dark b p h k e = rw (k, e) (h, refl)
handle_change-theme auto b p h k e = rw (k, e) (refl, refl)

step-IsThemed : (p : Page) (e : Event) → IsThemed p → IsThemed (step p e)
unfolding step select_color_mode
step-IsThemed p (select mode) h = color_mode_changed-IsThemed (record p { color_mode = mode })
step-IsThemed p (system_changes b) h = handle_change-theme p.color_mode b p h.0 h.1 refl

run-keeps : (p : Page) (es : List Event) → IsThemed p → IsThemed (run p es)
unfolding run
run-keeps p [] h = h
run-keeps p (e ∷ es) h = run-keeps (step p e) es (step-IsThemed p e h)

mount-stored : (p : Page) (b : Bool) → IsThemed p → (mount p.stored b).color_mode ≡ p.color_mode
unfolding mount color_mode_changed initial_mode
mount-stored p b h = rw (h.1, get_stored-text_of p.color_mode) refl

mount-IsThemed : (stored : Option String) (b : Bool) → IsThemed (mount stored b)
unfolding mount color_mode_changed
mount-IsThemed stored b = (refl, refl)

-- What the attribute has to be: `dark` for the dark mode, and for the automatic mode where the system
-- prefers dark.
abbrev pub expected_theme : ColorMode → Bool → String
expected_theme light prefers_dark = "light"
expected_theme dark prefers_dark = "dark"
expected_theme auto true = "dark"
expected_theme auto false = "auto"

-- The mode that was selected last, and what the system prefers in the end, from the history alone.
abbrev pub chosen : ColorMode → List Event → ColorMode
chosen mode [] = mode
chosen mode (select next ∷ es) = chosen next es
chosen mode (system_changes prefers_dark ∷ es) = chosen mode es

abbrev pub preferred : Bool → List Event → Bool
preferred prefers_dark [] = prefers_dark
preferred prefers_dark (select next ∷ es) = preferred prefers_dark es
preferred prefers_dark (system_changes b ∷ es) = preferred b es

theme-expected : (mode : ColorMode) (b : Bool) → theme_of mode b ≡ expected_theme mode b
unfolding theme_of
theme-expected light b = refl
theme-expected dark b = refl
theme-expected auto true = refl
theme-expected auto false = refl

handle_change-mode : (b : Bool) (p : Page) → (handle_change b p).color_mode ≡ p.color_mode
unfolding handle_change apply_color_mode
handle_change-mode b p = ground arith

handle_change-prefers : (b : Bool) (p : Page) → (handle_change b p).prefers_dark ≡ b
unfolding handle_change apply_color_mode
handle_change-prefers b p = ground arith

run-mode : (p : Page) (es : List Event) → (run p es).color_mode ≡ chosen p.color_mode es
unfolding run step select_color_mode color_mode_changed apply_color_mode
run-mode p [] = refl
run-mode p (select mode ∷ es) = run-mode (step p (select mode)) es
run-mode p (system_changes b ∷ es) =
    run-mode (handle_change b p) es ∙ ap (λ m. chosen m es) (handle_change-mode b p)

run-prefers : (p : Page) (es : List Event) → (run p es).prefers_dark ≡ preferred p.prefers_dark es
unfolding run step select_color_mode color_mode_changed apply_color_mode
run-prefers p [] = refl
run-prefers p (select mode ∷ es) = run-prefers (step p (select mode)) es
run-prefers p (system_changes b ∷ es) =
    run-prefers (handle_change b p) es ∙ ap (λ x. preferred x es) (handle_change-prefers b p)

-- The stored text is this one.
abbrev pub is_text : Option String → String → Bool
is_text none text = false
is_text (some s) text = s == text

-- The mode that a header starts with: the stored one, or else the one that the system prefers.
abbrev pub first_mode : Option String → Bool → ColorMode
first_mode stored prefers_dark =
    if is_text stored "light"
    then light
    else if is_text stored "dark"
    then dark
    else if is_text stored "auto"
    then auto
    else if prefers_dark
    then dark
    else light

mount-mode : (stored : Option String) (b : Bool) → (mount stored b).color_mode ≡ first_mode stored b
unfolding mount color_mode_changed apply_color_mode get_stored_color_mode initial_mode mode_of
mount-mode none b = refl
mount-mode (some s) b = ground arith

-- From any stored text and any preference of the system, after every sequence of selections and of
-- changes of the system: the attribute of the page is `light` for the light mode, `dark` for the dark
-- one, and for the automatic one `dark` where the system prefers it by then and `auto` else, the mode
-- being the one that was selected last or else the first one; and a header that is mounted anew over
-- what is then stored starts with that mode, whatever the system prefers.
pub run-IsThemed :
    (stored : Option String) (prefers_dark later : Bool) (es : List Event)
    → ((run (mount stored prefers_dark) es).attribute
        ≡ some (
            expected_theme
              (chosen (first_mode stored prefers_dark) es)
              (preferred prefers_dark es)))
      × ((mount (run (mount stored prefers_dark) es).stored later).color_mode
          ≡ chosen (first_mode stored prefers_dark) es)
unfolding mount
run-IsThemed stored prefers_dark later es =
    let first = mount stored prefers_dark in
    let themed = run-keeps first es (mount-IsThemed stored prefers_dark) in
    let mode : (run first es).color_mode ≡ chosen (first_mode stored prefers_dark) es =
      run-mode first es ∙ ap (λ m. chosen m es) (mount-mode stored prefers_dark) in
    (
      themed.0
          ∙ ap some (theme-expected (run first es).color_mode (run first es).prefers_dark)
          ∙ rw (mode, run-prefers first es) refl,
      mount-stored (run first es) later themed ∙ mode,
    )
