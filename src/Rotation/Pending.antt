-- ===== src/Rotation/Pending.antt =====
-- When the editor has something to save.
use photo_viewer.Base.{◌≡◌, refl, ap, ◌∙◌, ◌↔◌, false, Option, none, some, arith}
use photo_viewer.Base.Int.{pos, eq_of_parts}
use photo_viewer.Rotation.{
  Rotation, upright, r90, r180, r270, EditState, reset, has_pending_edits, is_turned, is_set, Crop,
}

is_turned-upright : (r : Rotation) → is_turned r ≡ false → r ≡ upright
is_turned-upright upright h = refl
is_turned-upright r90 h = absurd (ground arith)
is_turned-upright r180 h = absurd (ground arith)
is_turned-upright r270 h = absurd (ground arith)

is_set-none : (crop : Option Crop) → is_set crop ≡ false → crop ≡ none
is_set-none none h = refl
is_set-none (some crop) h = absurd (ground arith)

pending-reset : (state : EditState) → has_pending_edits state ≡ false → state ≡ reset state
unfolding has_pending_edits reset
pending-reset state h = ground (
  arith,
  is_turned-upright state.rotation,
  is_set-none state.crop,
  eq_of_parts state.brightness (pos 0),
  eq_of_parts state.contrast (pos 0),
  eq_of_parts state.saturation (pos 0),
)

reset-pending : (state : EditState) → has_pending_edits (reset state) ≡ false
unfolding has_pending_edits reset
reset-pending state = refl

-- An edit state has pending edits exactly where it differs from the reset one.
has_pending_edits-reset :
    (state : EditState) → (has_pending_edits state ≡ false) ↔ (state ≡ reset state)
has_pending_edits-reset state =
    (pending-reset state, λ e. ap has_pending_edits e ∙ reset-pending state)
