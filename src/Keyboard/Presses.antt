-- ===== src/Keyboard/Presses.antt =====
-- One physical press dispatches at most one action that is handled.
use photo_viewer.Base.{
  ◌≡◌, ◌≢◌, refl, Bool, true, false, Option, none, some, List, [], ◌∷◌, if◌then◌else◌,
}
use photo_viewer.Keyboard.{KeyboardAction, key_eq_iff}
use photo_viewer.Keyboard.Bindings.{KeyCombo, new_combo, same, combo_eq, resolve_binding}
use photo_viewer.Keyboard.Router.{
  KeyboardResult, handled, ignored, is_handled, Propagation, proceed, stop, KeyEvent, pressed,
  released, Pressed, is_latched, dispatch, key_pressed, key_released,
}

-- What was seen of a press: the combination of one that was handled.
abbrev pub seen : Propagation → KeyCombo → List (Option KeyCombo) → List (Option KeyCombo)
seen proceed c later = later
seen stop c later = some c ∷ later

-- The combinations that were handled, with `none` for a release between them.
unfoldable pub trace : List KeyEvent → Option KeyCombo → List (Option KeyCombo)
unfolding key_pressed key_released
trace [] latched = []
trace (pressed key state scope handle_action ∷ events) latched =
    let c = new_combo key state in
    let press = key_pressed latched c scope handle_action in
    seen press.propagation c (trace events press.latched)
trace (released key state ∷ events) latched =
    none ∷ trace events (key_released latched (new_combo key state))

-- No combination stands twice in a row, with what stood before the list.
abbrev pub IsOnce : Option KeyCombo → List (Option KeyCombo) → Type 0
IsOnce before [] = Unit
IsOnce before (none ∷ later) = IsOnce none later
IsOnce none (some c ∷ later) = IsOnce (some c) later
IsOnce (some b) (some c ∷ later) = (b ≢ c) × IsOnce (some c) later

same_refl : (b : Bool) → same b b ≡ true
same_refl true = refl
same_refl false = refl

combo_eq_refl : (c : KeyCombo) → combo_eq c c ≡ true
combo_eq_refl c =
    rw ((key_eq_iff c.key c.key).1 refl, same_refl c.ctrl, same_refl c.shift, same_refl c.alt) refl

next-IsOnce :
    (latched : Option KeyCombo) (c : KeyCombo) (later : List (Option KeyCombo))
    → is_latched latched c ≡ false
    → IsOnce (some c) later
    → IsOnce latched (some c ∷ later)
next-IsOnce none c later h once = once
next-IsOnce (some b) c later h once =
    ((λ e. let eq : combo_eq b c ≡ true = rw e (combo_eq_refl c) in absurd cc), once)

module _ (rest : Option KeyCombo → List (Option KeyCombo))
    (once : (l : Option KeyCombo) → IsOnce l (rest l)) where
  dispatch-IsOnce :
      (latched : Option KeyCombo) (c : KeyCombo) (action : KeyboardAction) (result : KeyboardResult)
      → is_latched latched c ≡ false
      → (let press : Pressed =
            if is_handled result
            then record { latched = some c; action = some action; propagation = stop }
            else record { latched = latched; action = some action; propagation = proceed } in
          IsOnce latched (seen press.propagation c (rest press.latched)))
  dispatch-IsOnce latched c action handled h =
      next-IsOnce latched c (rest (some c)) h (once (some c))
  dispatch-IsOnce latched c action ignored h = once latched

  press-IsOnce :
      (latched : Option KeyCombo) (c : KeyCombo) (handle_action : KeyboardAction → KeyboardResult)
      (b : Bool) (found : Option KeyboardAction)
      → is_latched latched c ≡ b
      → (let press : Pressed =
            if b
            then record { latched = latched; action = none; propagation = proceed }
            else dispatch latched c handle_action found in
          IsOnce latched (seen press.propagation c (rest press.latched)))
  press-IsOnce latched c handle_action true found h = once latched
  press-IsOnce latched c handle_action false none h = once latched
  press-IsOnce latched c handle_action false (some action) h =
      dispatch-IsOnce latched c action (handle_action action) h

-- Whatever keys are pressed and released, in whatever scopes and whatever the handler answers: between two
-- handled actions of one combination a key was released or an action of another combination was handled.
-- The combination that is latched at the start counts as one that was handled before.
pub trace-IsOnce :
    (events : List KeyEvent) (latched : Option KeyCombo) → IsOnce latched (trace events latched)
unfolding key_pressed key_released trace
trace-IsOnce [] latched = tt
trace-IsOnce (pressed key state scope handle_action ∷ events) latched =
    let c = new_combo key state in
    press-IsOnce (trace events) (trace-IsOnce events) latched c handle_action (is_latched latched c)
      (resolve_binding scope c) refl
trace-IsOnce (released key state ∷ events) latched = trace-IsOnce events none
