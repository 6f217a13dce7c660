-- ===== src/Tests/Header.antt =====
-- The header in concrete histories.
use testnexa.Base.{◌≡◌, refl, arith, true, false, none, some, List, [], ◌∷◌}
use testnexa.Header.ColorMode as Mode
use testnexa.Header.ColorMode.Themed.{expected_theme, chosen, preferred, first_mode, run-IsThemed}
use testnexa.Header.Switcher.{Event, toggle, click_outside, answer, after, showing, view}
use testnexa.Header.Switcher.Latest.{expected, view-after}

abbrev chosen_dark : List Mode.Event
chosen_dark = Mode.select Mode.auto ∷ Mode.system_changes true ∷ Mode.select Mode.dark ∷ []

run-IsThemed_example :
    ((Mode.run (Mode.mount (some "blue") false) chosen_dark).attribute
      ≡ some (
          expected_theme
            (chosen (first_mode (some "blue") false) chosen_dark)
            (preferred false chosen_dark)))
    × ((Mode.mount (Mode.run (Mode.mount (some "blue") false) chosen_dark).stored false).color_mode
        ≡ chosen (first_mode (some "blue") false) chosen_dark)
run-IsThemed_example = run-IsThemed (some "blue") false false chosen_dark

-- The menu is opened twice, and the first answer comes last.
abbrev late_answer : List Event
late_answer = answer 0 none ∷ answer 1 (some []) ∷ toggle ∷ click_outside ∷ toggle ∷ []

late_answer-view : view (after late_answer) ≡ showing (some [])
unfolding after view
late_answer-view = refl

view-after_example : view (after late_answer) ≡ expected late_answer
view-after_example = view-after late_answer (omega arith, (omega arith, tt))
