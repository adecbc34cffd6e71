-- ===== src/Rotation/Turns.antt =====
-- Rotations add up, and those of the edit state are those of the Exif orientation.
use photo_viewer.Base.{ℕ, suc, ◌+◌, ◌-◌, ◌%◌, ◌≡◌, refl, ◌⊎◌, inl, inr, arith, ◌<◌, ap, sym, ◌∙◌}
use photo_viewer.Base.Int.{ℤ, pos, negsuc, ◌+ℤ◌, sub_ℕ}
use photo_viewer.Rotation.{
  rem_euclid_360, Rotation, upright, r90, r180, r270, as_degrees, from_degrees, rotated_by,
  degrees_from_orientation, orientation_from_degrees, rotated_orientation,
}

rem_euclid_360-sub_ℕ : (a b : ℕ) → rem_euclid_360 (sub_ℕ a b) ≡ (a % 360 + (360 - b % 360)) % 360
rem_euclid_360-sub_ℕ a b = ground arith

-- The remainder of a sum.
rem_euclid_360-add :
    (a b : ℤ) → rem_euclid_360 (a +ℤ b) ≡ (rem_euclid_360 a + rem_euclid_360 b) % 360
unfolding ◌+ℤ◌
rem_euclid_360-add (pos a) (pos b) = ground (arith, rem_euclid_360-sub_ℕ (a + b) 0)
rem_euclid_360-add (pos a) (negsuc b) = ground (arith, rem_euclid_360-sub_ℕ a (suc b))
rem_euclid_360-add (negsuc a) (pos b) = ground (arith, rem_euclid_360-sub_ℕ b (suc a))
rem_euclid_360-add (negsuc a) (negsuc b) = ground (arith, rem_euclid_360-sub_ℕ 0 (suc a + suc b))

rem_euclid_360-less : (a : ℤ) → rem_euclid_360 a < 360
rem_euclid_360-less (pos n) = omega arith
rem_euclid_360-less (negsuc n) = omega arith

-- Whole quarter turns.
abbrev pub IsQuarter : ℤ → Type 0
IsQuarter a = rem_euclid_360 a % 90 ≡ 0

quarter-cases : (n : ℕ) → n < 360 → n % 90 ≡ 0 → (n ≡ 0) ⊎ (n ≡ 90) ⊎ (n ≡ 180) ⊎ (n ≡ 270)
quarter-cases n lt h = ground arith

as_degrees-from_degrees : (a : ℤ) → IsQuarter a → as_degrees (from_degrees a) ≡ rem_euclid_360 a
unfolding as_degrees from_degrees
as_degrees-from_degrees a h = elim (quarter-cases (rem_euclid_360 a) (rem_euclid_360-less a) h) [
  | inl e ↦ rw e refl
  | inr (inl e) ↦ rw e refl
  | inr (inr (inl e)) ↦ rw e refl
  | inr (inr (inr e)) ↦ rw e refl
]

as_degrees-quarter : (r : Rotation) → as_degrees r % 90 ≡ 0
unfolding as_degrees
as_degrees-quarter upright = refl
as_degrees-quarter r90 = refl
as_degrees-quarter r180 = refl
as_degrees-quarter r270 = refl

from_degrees-rem : (a b : ℤ) → rem_euclid_360 a ≡ rem_euclid_360 b → from_degrees a ≡ from_degrees b
unfolding from_degrees
from_degrees-rem a b e = rw e refl

rotated_by-from_degrees :
    (r : Rotation) (d : ℤ) → rotated_by r d ≡ from_degrees (pos (as_degrees r) +ℤ d)
unfolding rotated_by
rotated_by-from_degrees r d = refl

-- Turning by whole quarters and then by any angle is turning by their sum.
rotated_by-rotated_by :
    (r : Rotation) (a b : ℤ) → IsQuarter a → rotated_by (rotated_by r a) b ≡ rotated_by r (a +ℤ b)
rotated_by-rotated_by r a b h =
    let sum = rem_euclid_360-add (pos (as_degrees r)) a in
    let turned : as_degrees (rotated_by r a) ≡ rem_euclid_360 (pos (as_degrees r) +ℤ a) =
      ap as_degrees (rotated_by-from_degrees r a)
      ∙ as_degrees-from_degrees (pos (as_degrees r) +ℤ a)
          (omega (arith, sum, as_degrees-quarter r)) in
    rotated_by-from_degrees (rotated_by r a) b
    ∙ from_degrees-rem (pos (as_degrees (rotated_by r a)) +ℤ b) (pos (as_degrees r) +ℤ (a +ℤ b)) (
        omega (
          arith,
          sum,
          turned,
          rem_euclid_360-add (pos (as_degrees (rotated_by r a))) b,
          rem_euclid_360-add (pos (as_degrees r)) (a +ℤ b),
          rem_euclid_360-add a b,
        ))
    ∙ sym (rotated_by-from_degrees r (a +ℤ b))

-- The orientation that stands for a rotation.
abbrev pub orientation_of_rotation : Rotation → ℕ
orientation_of_rotation upright = 1
orientation_of_rotation r90 = 6
orientation_of_rotation r180 = 3
orientation_of_rotation r270 = 8

degrees_from_orientation-rotation :
    (r : Rotation) → degrees_from_orientation (orientation_of_rotation r) ≡ as_degrees r
unfolding degrees_from_orientation as_degrees
degrees_from_orientation-rotation upright = refl
degrees_from_orientation-rotation r90 = refl
degrees_from_orientation-rotation r180 = refl
degrees_from_orientation-rotation r270 = refl

orientation_from_degrees-rotation :
    (a : ℤ) → orientation_from_degrees a ≡ orientation_of_rotation (from_degrees a)
unfolding orientation_from_degrees from_degrees
orientation_from_degrees-rotation a = ground arith

rotated_orientation-from_degrees :
    (o : ℕ) (d : ℤ)
    → rotated_orientation o d
      ≡ orientation_from_degrees (pos (rem_euclid_360 (pos (degrees_from_orientation o) +ℤ d)))
unfolding rotated_orientation
rotated_orientation-from_degrees o d = refl

-- Turning the Exif orientation of a file that a rotation stands for gives the orientation that the
-- turned rotation of the editor stands for, for any angle.
pub rotated_orientation-rotated_by :
    (r : Rotation) (d : ℤ)
    → rotated_orientation (orientation_of_rotation r) d ≡ orientation_of_rotation (rotated_by r d)
rotated_orientation-rotated_by r d =
    let angle = pos (as_degrees r) +ℤ d in
    rotated_orientation-from_degrees (orientation_of_rotation r) d
    ∙ ap (λ o. orientation_from_degrees (pos (rem_euclid_360 (pos o +ℤ d))))
        (degrees_from_orientation-rotation r)
    ∙ orientation_from_degrees-rotation (pos (rem_euclid_360 angle))
    ∙ ap orientation_of_rotation (
        from_degrees-rem (pos (rem_euclid_360 angle)) angle
          (omega (arith, rem_euclid_360-less angle)))
    ∙ ap orientation_of_rotation (sym (rotated_by-from_degrees r d))
