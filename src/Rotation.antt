-- ===== src/Rotation.antt =====
-- Rotations: the Exif orientation of src/core/orientation.rs, and the edit state of
-- src/core/edit/mod.rs. Sums of degrees are taken without the limits of i32.
pub mod Turns
pub mod Pending
mod Examples
use photo_viewer.Base.{
  ℕ, zero, suc, ◌+◌, ◌-◌, ◌%◌, Bool, true, false, ◌||◌, not, Option, none, some, ◌==◌,
  if◌then◌else◌,
}
use photo_viewer.Base.Int.{ℤ, pos, negsuc, ◌+ℤ◌, eqb_ℤ}

-- `rem_euclid(360)` on i32
abbrev pub rem_euclid_360 : ℤ → ℕ
rem_euclid_360 (pos n) = n % 360
rem_euclid_360 (negsuc n) = 359 - n % 360

unfoldable pub degrees_from_orientation : ℕ → ℕ
degrees_from_orientation orientation =
    if orientation == 3
    then 180
    else if orientation == 6
    then 90
    else if orientation == 8
    then 270
    else 0

abbrev orientation_of : ℕ → ℕ
orientation_of degrees =
    if degrees == 90 then 6 else if degrees == 180 then 3 else if degrees == 270 then 8 else 1

unfoldable pub orientation_from_degrees : ℤ → ℕ
orientation_from_degrees degrees = orientation_of (rem_euclid_360 degrees)

-- The next orientation of `rotate_orientation_in_place`.
unfoldable pub rotated_orientation : ℕ → ℤ → ℕ
unfolding degrees_from_orientation orientation_from_degrees ◌+ℤ◌
rotated_orientation current delta_degrees =
    orientation_from_degrees
      (pos (rem_euclid_360 (pos (degrees_from_orientation current) +ℤ delta_degrees)))

pub data Rotation : Type 0 where
  upright r90 r180 r270 : Rotation

unfoldable pub as_degrees : Rotation → ℕ
as_degrees upright = 0
as_degrees r90 = 90
as_degrees r180 = 180
as_degrees r270 = 270

abbrev rotation_of : ℕ → Rotation
rotation_of degrees =
    if degrees == 90
    then r90
    else if degrees == 180
    then r180
    else if degrees == 270
    then r270
    else upright

unfoldable pub from_degrees : ℤ → Rotation
from_degrees degrees = rotation_of (rem_euclid_360 degrees)

unfoldable pub rotated_by : Rotation → ℤ → Rotation
unfolding as_degrees from_degrees ◌+ℤ◌
rotated_by rotation delta_degrees = from_degrees (pos (as_degrees rotation) +ℤ delta_degrees)

abbrev pub Crop : Type 0
Crop = ℕ × (ℕ × (ℕ × ℕ))

pub record EditState : Type 0 where
  pub rotation : Rotation
  pub brightness : ℤ
  pub contrast : ℤ
  pub saturation : ℤ
  pub crop : Option Crop

unfoldable pub reset : EditState → EditState
reset state = record {
  rotation = upright;
  brightness = pos 0;
  contrast = pos 0;
  saturation = pos 0;
  crop = none;
}

abbrev pub is_turned : Rotation → Bool
is_turned upright = false
is_turned r90 = true
is_turned r180 = true
is_turned r270 = true

abbrev pub is_set : Option Crop → Bool
is_set none = false
is_set (some _) = true

unfoldable pub has_pending_edits : EditState → Bool
has_pending_edits state =
    is_turned state.rotation
    || (not (eqb_ℤ state.brightness (pos 0))
        || (not (eqb_ℤ state.contrast (pos 0))
            || (not (eqb_ℤ state.saturation (pos 0)) || is_set state.crop)))

unfoldable pub for_preview : EditState → Bool → EditState
for_preview state crop_mode_active =
    if crop_mode_active then record state { crop = none } else state
