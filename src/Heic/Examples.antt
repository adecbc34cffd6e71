-- ===== src/Heic/Examples.antt =====
-- A photo of a few boxes, and a `meta` box with less than the version and flags.
use photo_viewer.Base.{◌+◌, ◌<◌, ◌^◌, ◌≡◌, ◌↔◌, refl, false, some, [], ◌∷◌, arith, length}
use photo_viewer.Base.Text.{ascii, text_eq}
use photo_viewer.Exif.{err}
use photo_viewer.Heic.{Bytes, find_meta_body, meta_from, meta_at, box_header, u32_at}
use photo_viewer.Heic.Properties.{extract_heic_dims}
use photo_viewer.Heic.ExifItem.{extract_heic_exif_tiff, parse_found, parse_meta, short_slice}
use photo_viewer.Heic.Boxes.{Box, IsBox}
use photo_viewer.Heic.Photo.{Photo, IsPhoto}
use photo_viewer.Heic.File.{
  meta_box, meta_payload, photo_file, meta_file, extract_heic_dims-photo_file,
}
use photo_viewer.Heic.Panics.{extract_heic_exif_tiff-meta_file}

abbrev ftyp_box : Box
ftyp_box = record { typ = ascii "ftyp"; payload = ascii "heic" }

abbrev hvcc_box : Box
hvcc_box = record { typ = ascii "hvcC"; payload = 1 ∷ 2 ∷ 3 ∷ [] }

abbrev hdlr_box : Box
hdlr_box = record { typ = ascii "hdlr"; payload = [] }

abbrev photo : Photo
photo = record {
  front = hdlr_box ∷ [];
  middle = [];
  back = [];
  item = 7;
  before = hvcc_box ∷ [];
  after = [];
  width = 4032;
  height = 3024;
}

small_box : (b : Box) → length b.typ ≡ 4 → length b.payload + 8 < 2 ^ 32 → IsBox b
small_box b h k = record { typed = h; small = k }

photo-IsPhoto : IsPhoto photo
unfolding text_eq
photo-IsPhoto = record {
  boxes = (
    small_box _ refl (omega arith),
    (small_box _ refl (omega arith), (small_box _ refl (omega arith), tt)),
  );
  others_front = (record { no_pitm = refl; no_iprp = refl }, tt);
  others_middle = tt;
  others_back = tt;
  item_small = omega arith;
  props = (small_box _ refl (omega arith), (small_box _ refl (omega arith), tt));
  ipco_small = small_box _ refl (omega arith);
  index_small = omega arith;
  width_small = omega arith;
  height_small = omega arith;
}

ftyp_box-NoMeta : text_eq (ascii "ftyp") (ascii "meta") ≡ false
unfolding text_eq
ftyp_box-NoMeta = refl

extract_heic_dims-photo_file_example :
    extract_heic_dims (photo_file (ftyp_box ∷ []) photo (9 ∷ 9 ∷ [])) ≡ some (4032, 3024)
extract_heic_dims-photo_file_example =
    extract_heic_dims-photo_file (ftyp_box ∷ []) photo (9 ∷ 9 ∷ []) photo-IsPhoto
      (small_box ftyp_box refl (omega arith), tt) (ftyp_box-NoMeta, tt)
      (small_box (meta_box (meta_payload photo)) refl (omega arith)) (omega arith)

abbrev short_payload : Bytes
short_payload = 1 ∷ 2 ∷ []

abbrev short_meta : Bytes
short_meta = meta_file (ftyp_box ∷ []) short_payload (9 ∷ [])

extract_heic_exif_tiff-meta_file_example :
    (extract_heic_exif_tiff short_meta ≡ err short_slice) ↔ (length short_payload < 4)
extract_heic_exif_tiff-meta_file_example =
    extract_heic_exif_tiff-meta_file (ftyp_box ∷ []) short_payload (9 ∷ [])
      (small_box ftyp_box refl (omega arith), tt) (ftyp_box-NoMeta, tt)
      (small_box (meta_box short_payload) refl (omega arith)) (omega arith)

short_meta-panics : extract_heic_exif_tiff short_meta ≡ err short_slice
unfolding extract_heic_exif_tiff find_meta_body meta_from meta_at box_header u32_at text_eq
    parse_found parse_meta
short_meta-panics = refl
