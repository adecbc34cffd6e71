-- ===== src/Keyboard/Examples.antt =====
-- A key that is held in the viewer, and a search from there.
use photo_viewer.Base.{◌≡◌, refl, false, none, some, List, [], ◌∷◌}
use photo_viewer.Keyboard.{named, lower_f, viewer, key_eq, number_of}
use photo_viewer.Keyboard.Bindings.{
  ModifierType, plain, control_mask, viewer_binding, scoped_binding, resolve_binding,
}
use photo_viewer.Keyboard.Router.{handled, KeyEvent, pressed, released, key_pressed, key_released}
use photo_viewer.Keyboard.Presses.{trace, IsOnce, trace-IsOnce}

abbrev no_mask : ModifierType
no_mask = record { control_mask = false; shift_mask = false; alt_mask = false; meta_mask = false }

abbrev press_f : KeyEvent
press_f = pressed (named lower_f) no_mask viewer (λ action. handled)

-- Held for two repeats, and pressed again.
abbrev held : List KeyEvent
held = press_f ∷ press_f ∷ press_f ∷ released (named lower_f) no_mask ∷ press_f ∷ []

held-trace : trace held none ≡ some (plain lower_f) ∷ none ∷ some (plain lower_f) ∷ []
unfolding trace key_pressed key_released resolve_binding scoped_binding viewer_binding key_eq
    number_of
held-trace = refl

trace-IsOnce_example : IsOnce none (trace held none)
trace-IsOnce_example = trace-IsOnce held none
