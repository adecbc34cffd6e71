-- ===== src/Heic/Panics.antt =====
-- Where reading the Exif item of a HEIC file panics.
use photo_viewer.Base.{
  ◌≤◌, ◌<◌, ◌≡◌, refl, sym, ap, ◌∙◌, ◌↔◌, Bool, true, false, Option, List, ltb, if◌then◌else◌,
  arith, length, ltb→lt, lt→ltb,
}
use photo_viewer.Exif.{ok, err}
use photo_viewer.Heic.{Bytes, usize_max}
use photo_viewer.Heic.ExifItem.{short_slice, parse_meta, parse_found, extract_heic_exif_tiff}
use photo_viewer.Heic.Boxes.{Box, IsBox, encode_all, AllBoxes}
use photo_viewer.Heic.File.{NoMeta, meta_box, meta_file, find_meta_body-meta_file}

panics-short :
    (b : Bool) (read : Option Bytes)
    → (if b then err short_slice else ok read) ≡ err short_slice
    → b ≡ true
panics-short true read h = refl
panics-short false read h = absurd (ground arith)

parse_meta-short :
    (body file : Bytes) → (parse_meta body file ≡ err short_slice) ↔ (length body < 4)
unfolding parse_meta
parse_meta-short body file = (
  λ h. ltb→lt (length body) 4 (panics-short (ltb (length body) 4) _ h),
  λ h. rw (lt→ltb (length body) 4 h) refl,
)

extract_heic_exif_tiff-found :
    (front : List Box) (payload tail : Bytes)
    → AllBoxes front
    → NoMeta front
    → IsBox (meta_box payload)
    → length (encode_all front) ≤ usize_max
    → extract_heic_exif_tiff (meta_file front payload tail)
      ≡ parse_meta payload (meta_file front payload tail)
unfolding extract_heic_exif_tiff parse_found
extract_heic_exif_tiff-found front payload tail all clear m fits =
    ap (parse_found (meta_file front payload tail))
      (find_meta_body-meta_file front payload tail all clear m fits)

-- Reading the Exif item of a written HEIC file, with any boxes but `meta` before its `meta` box and any
-- bytes behind it, panics exactly where the content of that box has less than the four bytes of version
-- and flags.
pub extract_heic_exif_tiff-meta_file :
    (front : List Box) (payload tail : Bytes)
    → AllBoxes front
    → NoMeta front
    → IsBox (meta_box payload)
    → length (encode_all front) ≤ usize_max
    → (extract_heic_exif_tiff (meta_file front payload tail) ≡ err short_slice)
      ↔ (length payload < 4)
extract_heic_exif_tiff-meta_file front payload tail all clear m fits =
    let found = extract_heic_exif_tiff-found front payload tail all clear m fits in
    let short = parse_meta-short payload (meta_file front payload tail) in
    (λ h. short.0 (sym found ∙ h), λ h. found ∙ short.1 h)
