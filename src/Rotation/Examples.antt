-- ===== src/Rotation/Examples.antt =====
-- The theorems on rotations at a quarter to the left and a half turn.
use photo_viewer.Base.{◌≡◌, some, refl}
use photo_viewer.Base.Int.{pos, negsuc}
use photo_viewer.Rotation.{Rotation, r90, upright, rotated_by, rotated_orientation, EditState}
use photo_viewer.Rotation.Turns.{orientation_of_rotation, rotated_orientation-rotated_by}

rotated_by-left : rotated_by upright (negsuc 89) ≡ Rotation.r270
unfolding rotated_by
rotated_by-left = refl

rotated_orientation-rotated_by_example :
    rotated_orientation (orientation_of_rotation r90) (negsuc 89)
    ≡ orientation_of_rotation (rotated_by r90 (negsuc 89))
rotated_orientation-rotated_by_example = rotated_orientation-rotated_by r90 (negsuc 89)

abbrev cropped : EditState
cropped = record {
  rotation = r90;
  brightness = pos 0;
  contrast = negsuc 4;
  saturation = pos 0;
  crop = some (0, (0, (10, 10)));
}
