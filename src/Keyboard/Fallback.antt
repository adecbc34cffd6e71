-- ===== src/Keyboard/Fallback.antt =====
-- The global shortcuts in the viewer and while browsing.
use photo_viewer.Base.{◌≡◌, refl, sym, Bool, true, false, ◌&&◌, ◌||◌, List, [], ◌∷◌}
use photo_viewer.Keyboard.{
  escape, key_left, kp_left, lower_f, upper_f, comma, f1, slash, question, named, KeyboardScope,
  key_eq, key_eq_iff,
}
use photo_viewer.Keyboard.Bindings.{
  KeyCombo, plain, new_combo, control_mask, same, combo_eq, global_binding, resolve_binding,
}

same→≡ : (a b : Bool) → same a b ≡ true → a ≡ b
same→≡ true b h = sym h
same→≡ false true h = absurd cc
same→≡ false false h = refl

and-true : (a b : Bool) → (a && b) ≡ true → (a ≡ true) × (b ≡ true)
and-true true b h = (refl, h)
and-true false b h = absurd cc

pub combo_eq→≡ : (c d : KeyCombo) → combo_eq c d ≡ true → c ≡ d
combo_eq→≡ c d h =
    let keys = key_eq c.key d.key in
    let ctrls = same c.ctrl d.ctrl in
    let shifts = same c.shift d.shift in
    let (h1, alt) = and-true (keys && ctrls && shifts) (same c.alt d.alt) h in
    let (h2, shift) = and-true (keys && ctrls) shifts h1 in
    let (k, ctrl) = and-true keys ctrls h2 in
    let key : c.key ≡ d.key = (key_eq_iff c.key d.key).0 k in
    let ctrl_eq : c.ctrl ≡ d.ctrl = same→≡ c.ctrl d.ctrl ctrl in
    let shift_eq : c.shift ≡ d.shift = same→≡ c.shift d.shift shift in
    let alt_eq : c.alt ≡ d.alt = same→≡ c.alt d.alt alt in cc

abbrev global_combos : List KeyCombo
global_combos =
    plain escape
    ∷ record { key = named key_left; ctrl = false; shift = false; alt = true }
    ∷ record { key = named kp_left; ctrl = false; shift = false; alt = true }
    ∷ record { key = named lower_f; ctrl = true; shift = false; alt = false }
    ∷ record { key = named upper_f; ctrl = true; shift = true; alt = false }
    ∷ record { key = named comma; ctrl = true; shift = false; alt = false }
    ∷ plain f1
    ∷ new_combo (named slash) control_mask
    ∷ new_combo (named question) control_mask
    ∷ []

abbrev among : KeyCombo → List KeyCombo → Bool
among c [] = false
among c (d ∷ ds) = combo_eq c d || among c ds

-- A scope that answers a combination as the global bindings do.
abbrev Serves : KeyboardScope → KeyCombo → Type 0
Serves scope c = resolve_binding scope c ≡ global_binding c

abbrev AllServed : KeyboardScope → List KeyCombo → Type 0
AllServed scope [] = Unit
AllServed scope (d ∷ ds) = Serves scope d × AllServed scope ds
