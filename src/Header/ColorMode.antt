-- ===== src/Header/ColorMode.antt =====
-- components/organisms/app-header/app-header.tsx: the color mode, its place in localStorage and the
-- attribute of the page. Only this key of the storage is seen.
pub mod Themed
use testnexa.Base.{
  String, Bool, true, false, not, ◌&&◌, ◌||◌, ◌==◌, Option, none, some, List, [], ◌∷◌,
  if◌then◌else◌,
}

-- `"light" | "dark" | "auto"`
pub data ColorMode : Type 0 where
  light dark auto : ColorMode

-- The text of a mode, which is what is stored.
abbrev pub text_of : ColorMode → String
text_of light = "light"
text_of dark = "dark"
text_of auto = "auto"

-- `useColorMode` with the world around it: the stored text, the preference of the system and the
-- attribute `data-bs-theme`.
pub record Page : Type 0 where
  pub stored : Option String
  pub prefers_dark : Bool
  pub attribute : Option String
  pub color_mode : ColorMode

mode_of : String → Option ColorMode
mode_of s =
    if s == "light"
    then some light
    else if s == "dark"
    then some dark
    else if s == "auto"
    then some auto
    else none

unfoldable pub get_stored_color_mode : Option String → Option ColorMode
unfolding mode_of
get_stored_color_mode none = none
get_stored_color_mode (some s) = mode_of s

-- The value that `applyColorMode` gives the attribute.
unfoldable pub theme_of : ColorMode → Bool → String
theme_of light prefers_dark = "light"
theme_of dark prefers_dark = "dark"
theme_of auto prefers_dark = if prefers_dark then "dark" else "auto"

unfoldable pub apply_color_mode : ColorMode → Page → Page
unfolding theme_of
apply_color_mode mode p = record p { attribute = some (theme_of mode p.prefers_dark) }

initial_mode : Option ColorMode → Bool → ColorMode
initial_mode (some mode) prefers_dark = mode
initial_mode none prefers_dark = if prefers_dark then dark else light

-- The effect on a color mode.
unfoldable pub color_mode_changed : Page → Page
unfolding apply_color_mode
color_mode_changed p =
    apply_color_mode p.color_mode (record p { stored = some (text_of p.color_mode) })

-- A header is mounted over what is stored and what the system prefers.
unfoldable pub mount : Option String → Bool → Page
unfolding color_mode_changed initial_mode get_stored_color_mode
mount stored prefers_dark = color_mode_changed (record {
  stored = stored;
  prefers_dark = prefers_dark;
  attribute = none;
  color_mode = initial_mode (get_stored_color_mode stored) prefers_dark;
})

unfoldable pub select_color_mode : ColorMode → Page → Page
unfolding color_mode_changed
select_color_mode mode p = color_mode_changed (record p { color_mode = mode })

-- `stored !== "light" && stored !== "dark"`
follows_system : Option ColorMode → Bool
follows_system (some light) = false
follows_system (some dark) = false
follows_system _ = true

-- `handleChange`, after the preference of the system has changed.
unfoldable pub handle_change : Bool → Page → Page
unfolding apply_color_mode get_stored_color_mode follows_system
handle_change prefers_dark p =
    let changed = record p { prefers_dark = prefers_dark } in
    if follows_system (get_stored_color_mode p.stored)
    then apply_color_mode p.color_mode changed
    else changed

pub data Event : Type 0 where
  select : ColorMode → Event
  system_changes : Bool → Event

unfoldable pub step : Page → Event → Page
unfolding select_color_mode handle_change
step p (select mode) = select_color_mode mode p
step p (system_changes prefers_dark) = handle_change prefers_dark p

unfoldable pub run : Page → List Event → Page
unfolding step
run p [] = p
run p (e ∷ es) = run (step p e) es
