-- ===== src/Keyboard/Router.antt =====
-- src/ui/keyboard/router.rs: the router dispatches an action for a press, and is latched until a release.
use photo_viewer.Base.{Bool, true, false, Option, none, some, if◌then◌else◌}
use photo_viewer.Keyboard.{Key, KeyboardAction, KeyboardScope}
use photo_viewer.Keyboard.Bindings.{ModifierType, KeyCombo, combo_eq, resolve_binding}

pub data KeyboardResult : Type 0 where
  handled : KeyboardResult
  ignored : KeyboardResult

abbrev pub is_handled : KeyboardResult → Bool
is_handled handled = true
is_handled ignored = false

pub data Propagation : Type 0 where
  proceed : Propagation
  stop : Propagation

-- A press asks for the scope and has its action handled; a release has the key and the modifiers too.
pub data KeyEvent : Type 0 where
  pressed : Key → ModifierType → KeyboardScope → (KeyboardAction → KeyboardResult) → KeyEvent
  released : Key → ModifierType → KeyEvent

-- What a press comes to: the next latch, the action that the handler was called with and handled or not,
-- and the propagation.
pub record Pressed : Type 0 where
  pub latched : Option KeyCombo
  pub action : Option KeyboardAction
  pub propagation : Propagation

abbrev pub is_latched : Option KeyCombo → KeyCombo → Bool
is_latched none c = false
is_latched (some latched) c = combo_eq latched c

abbrev pub dispatch :
    Option KeyCombo → KeyCombo → (KeyboardAction → KeyboardResult) → Option KeyboardAction → Pressed
dispatch latched c handle_action none = record {
  latched = latched;
  action = none;
  propagation = proceed;
}
dispatch latched c handle_action (some action) =
    if is_handled (handle_action action)
    then record { latched = some c; action = some action; propagation = stop }
    else record { latched = latched; action = some action; propagation = proceed }

unfoldable pub key_pressed :
    Option KeyCombo → KeyCombo → KeyboardScope → (KeyboardAction → KeyboardResult) → Pressed
key_pressed latched c scope handle_action =
    if is_latched latched c
    then record { latched = latched; action = none; propagation = proceed }
    else dispatch latched c handle_action (resolve_binding scope c)

-- The handler of a release, of whatever key.
unfoldable pub key_released : Option KeyCombo → KeyCombo → Option KeyCombo
key_released latched c = none
