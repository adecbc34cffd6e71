-- ===== src/Motion.antt =====
-- src/core/motion_photo.rs: the video behind a motion photo. A file stands for its bytes, an
-- `Option` of them for whether it can be opened.
pub mod Utf8
pub mod Found
pub mod Xmp
pub mod Items
pub mod Written
pub mod Container
mod Examples
use photo_viewer.Base.{
  ℕ, zero, suc, ◌+◌, ◌-◌, ◌*◌, ◌%◌, ◌^◌, Bool, true, false, ◌&&◌, ◌||◌, not, Option, none, some,
  List, [], ◌∷◌, ◌++◌, ltb, leb, ◌==◌, if◌then◌else◌, min, ◌>>=◌, length, take, drop,
}
use photo_viewer.Base.Text.{Text, ascii, text_eq}
use photo_viewer.Base.Bytes.{
  starts_with, find, is_some, contains_text, eq_ignore_ascii_case, parse_u64,
}
use photo_viewer.Exif.{Result, ok, err, from_be_bytes}
use photo_viewer.Media.{mime_from_extension}
use photo_viewer.Motion.Utf8.{from_utf8_lossy}

pub data MotionPhotoFormat : Type 0 where
  google_micro_video : MotionPhotoFormat
  google_motion_photo_container : MotionPhotoFormat

pub record MotionPhotoInfo : Type 0 where
  format : MotionPhotoFormat
  video_offset : ℕ
  video_length : ℕ
  presentation_timestamp_us : Option ℕ
  gain_map_offset : Option ℕ
  gain_map_length : Option ℕ

pub record ContainerItem : Type 0 where
  pub mime : Text
  pub semantic : Text
  pub length : ℕ

unfoldable pub is_motion_candidate_mime : Text → Bool
unfolding text_eq
is_motion_candidate_mime path = elim (mime_from_extension path) [
  | some mime ↦ text_eq mime (ascii "image/jpeg")
  | none ↦ false
]

abbrev micro_video_marker : Text
micro_video_marker = ascii "GCamera:MicroVideo"

abbrev pub contains_motion_marker : Text → Bool
contains_motion_marker bytes =
    contains_text bytes micro_video_marker
    || contains_text bytes (ascii "GCamera:MotionPhoto")
    || contains_text bytes (ascii "Container:Directory")

abbrev pub xmp_app1_sig : Text
xmp_app1_sig = ascii "http://ns.adobe.com/xap/1.0/" ++ 0 ∷ []

abbrev pub byte_at : List ℕ → ℕ → ℕ
byte_at bytes i = from_be_bytes (take 1 (drop i bytes))

-- The markers behind which no metadata segment follows.
abbrev pub ends_metadata : ℕ → Bool
ends_metadata marker =
    marker == 0
    || marker == 216
    || leb 208 marker && leb marker 215
    || marker == 217
    || marker == 218
    || leb 192 marker && leb marker 207

abbrev pub segment_len : List ℕ → ℕ → ℕ
segment_len bytes pos = from_be_bytes (take 2 (drop (pos + 2) bytes))

abbrev pub is_xmp_segment : List ℕ → ℕ → Bool
is_xmp_segment bytes pos =
    byte_at bytes (pos + 1) == 225 && starts_with (drop (pos + 4) bytes) xmp_app1_sig

-- The loop of `find_xmp_payload_range`, on fuel for the bytes: where the payload starts and ends.
unfoldable pub xmp_from : ℕ → List ℕ → ℕ → Option (ℕ × ℕ)
xmp_from zero bytes pos = none
xmp_from (suc fuel) bytes pos =
    let next = pos + 2 + segment_len bytes pos in
    let later = xmp_from fuel bytes next in
    if ltb (length bytes) (pos + 4)
    then none
    else if not (byte_at bytes pos == 255)
    then none
    else if ends_metadata (byte_at bytes (pos + 1))
    then none
    else if ltb (segment_len bytes pos) 2
    then none
    else if ltb (length bytes) next
    then none
    else if is_xmp_segment bytes pos
    then some (pos + 4 + length xmp_app1_sig, next)
    else later

unfoldable pub find_xmp_payload_range : List ℕ → Option (ℕ × ℕ)
find_xmp_payload_range bytes =
    if ltb (length bytes) 4 || not (text_eq (take 2 bytes) (255 ∷ 216 ∷ []))
    then none
    else xmp_from (length bytes) bytes 2

unfoldable pub attr_string : Text → Text → Option Text
attr_string text name =
    let needle = name ++ ascii "=\"" in
    find text needle >>= λ at.
    let value = drop (at + length needle) text in
    find value (ascii "\"") >>= λ end. some (take end value)

unfoldable pub attr_u64 : Text → Text → Option ℕ
attr_u64 text name = attr_string text name >>= parse_u64

unfoldable pub mp4_marker_at : Option (List ℕ) → ℕ → Bool
mp4_marker_at none offset = false
mp4_marker_at (some file) offset =
    if ltb (length file) (offset + 8)
    then false
    else text_eq (take 4 (drop (offset + 4) file)) (ascii "ftyp")

abbrev pub micro_video_info : Text → ℕ → ℕ → MotionPhotoInfo
micro_video_info text video_offset video_length = record {
  format = google_micro_video;
  video_offset = video_offset;
  video_length = video_length;
  presentation_timestamp_us = attr_u64 text (ascii "GCamera:MicroVideoPresentationTimestampUs");
  gain_map_offset = none;
  gain_map_length = none;
}

module _ (has_mp4_at : ℕ → Bool) where
  abbrev pub micro_video_at : Text → ℕ → ℕ → Option MotionPhotoInfo
  micro_video_at text file_len video_length =
      let video_offset = file_len - video_length in
      if video_length == 0 || ltb file_len video_length
      then none
      else if not (has_mp4_at video_offset)
      then none
      else some (micro_video_info text video_offset video_length)

  unfoldable pub detect_micro_video : Text → ℕ → Option MotionPhotoInfo
  detect_micro_video text file_len =
      if not (contains_text text (ascii "GCamera:MicroVideo=\"1\""))
      then none
      else attr_u64 text (ascii "GCamera:MicroVideoOffset") >>= micro_video_at text file_len

-- One item, where its tag has the three attributes.
abbrev pub container_item : Text → Option ContainerItem
container_item tag = attr_string tag (ascii "Item:Mime") >>= λ mime.
    attr_string tag (ascii "Item:Semantic") >>= λ semantic.
    attr_u64 tag (ascii "Item:Length") >>= λ len.
    some (record { mime = mime; semantic = semantic; length = len })

abbrev pub pushed {ℓ} : {A : Type ℓ} → Option A → List A → List A
pushed none items = items
pushed (some item) items = item ∷ items

abbrev pub item_tag : Text
item_tag = ascii "<Container:Item"

-- A round of the loop of `parse_container_items`, by where a tag starts and where it ends.
abbrev pub item_until : (Text → List ContainerItem) → Text → Option ℕ → List ContainerItem
item_until later rest none = []
item_until later rest (some end) =
    pushed (container_item (take (end + 2) rest)) (later (drop (end + 2) rest))

abbrev pub item_at : (Text → List ContainerItem) → Text → Option ℕ → List ContainerItem
item_at later text none = []
item_at later text (some start) =
    let rest = drop start text in item_until later rest (find rest (ascii "/>"))

abbrev pub item_round : (Text → List ContainerItem) → Text → List ContainerItem
item_round later text = item_at later text (find text item_tag)

-- The loop, on fuel for the text.
unfoldable pub items_from : ℕ → Text → List ContainerItem
items_from zero text = []
items_from (suc fuel) text = item_round (λ rest. items_from fuel rest) text

unfoldable pub parse_container_items : Text → List ContainerItem
parse_container_items text = items_from (length text) text

-- `Iterator::sum` on u64, which wraps around in a release build.
unfoldable pub sum_lengths : List ContainerItem → ℕ
sum_lengths [] = 0
sum_lengths (item ∷ items) = (item.length + sum_lengths items) % 2 ^ 64

abbrev pub u64_saturating_add : ℕ → ℕ → ℕ
u64_saturating_add a b = min (a + b) 18446744073709551615

abbrev pub is_gain_map : ContainerItem → Bool
is_gain_map item = eq_ignore_ascii_case item.semantic (ascii "GainMap")

abbrev pub is_video : ContainerItem → Bool
is_video item =
    text_eq item.mime (ascii "video/mp4")
    || eq_ignore_ascii_case item.semantic (ascii "MotionPhoto")

-- Where the video and the gain map lie, the last of each kind.
abbrev pub Placed : Type 0
Placed = Option (ℕ × ℕ) × Option (ℕ × ℕ)

unfoldable pub place_items : ℕ → List ContainerItem → Option (ℕ × ℕ) → Option (ℕ × ℕ) → Placed
place_items cursor [] video gain_map = (video, gain_map)
place_items cursor (item ∷ items) video gain_map =
    place_items (u64_saturating_add cursor item.length) items
      (if is_video item then some (cursor, item.length) else video)
      (if is_gain_map item then some (cursor, item.length) else gain_map)

abbrev pub offset_of : Option (ℕ × ℕ) → Option ℕ
offset_of none = none
offset_of (some (offset, _)) = some offset

abbrev pub length_of : Option (ℕ × ℕ) → Option ℕ
length_of none = none
length_of (some (_, len)) = some len

abbrev pub container_info : Text → ℕ → ℕ → Option (ℕ × ℕ) → MotionPhotoInfo
container_info text video_offset video_length gain_map = record {
  format = google_motion_photo_container;
  video_offset = video_offset;
  video_length = video_length;
  presentation_timestamp_us = attr_u64 text (ascii "GCamera:MotionPhotoPresentationTimestampUs");
  gain_map_offset = offset_of gain_map;
  gain_map_length = length_of gain_map;
}

module _ (has_mp4_at : ℕ → Bool) where
  abbrev pub container_at : Text → Placed → Option MotionPhotoInfo
  container_at text (none, gain_map) = none
  container_at text (some (video_offset, video_length), gain_map) =
      if video_length == 0 || not (has_mp4_at video_offset)
      then none
      else some (container_info text video_offset video_length gain_map)

  abbrev pub container_with : Text → ℕ → List ContainerItem → Option MotionPhotoInfo
  container_with text file_len items =
      let tail_len = sum_lengths items in
      if tail_len == 0 || ltb file_len tail_len
      then none
      else container_at text (place_items (file_len - tail_len) items none none)

  unfoldable pub detect_container : Text → ℕ → Option MotionPhotoInfo
  detect_container text file_len =
      if not (contains_text text (ascii "GCamera:MotionPhoto=\"1\""))
        || not (contains_text text (ascii "Container:Directory"))
      then none
      else container_with text file_len (parse_container_items text)

abbrev pub or_else {ℓ} : {A : Type ℓ} → Option A → Option A → Option A
or_else none later = later
or_else (some a) later = some a

abbrev pub detect_in_text : Option (List ℕ) → Text → ℕ → Option MotionPhotoInfo
detect_in_text file text file_len =
    or_else (detect_micro_video (mp4_marker_at file) text file_len)
      (detect_container (mp4_marker_at file) text file_len)

abbrev pub bad_slice : Text
bad_slice = ascii "range out of bounds"

-- `bytes[start..finish]`: a panic where it ends before its start or behind the bytes.
abbrev pub slice : List ℕ → ℕ × ℕ → Result (List ℕ)
slice bytes (start, finish) =
    if ltb finish start || ltb (length bytes) finish
    then err bad_slice
    else ok (take (finish - start) (drop start bytes))

unfoldable pub detect_in_xmp : Option (List ℕ) → ℕ → List ℕ → Option MotionPhotoInfo
detect_in_xmp file file_len xmp_bytes =
    if not (contains_motion_marker xmp_bytes)
    then none
    else detect_in_text file (from_utf8_lossy xmp_bytes) file_len

abbrev pub detect_in_slice : Option (List ℕ) → ℕ → Result (List ℕ) → Result (Option MotionPhotoInfo)
detect_in_slice file file_len (err panic) = err panic
detect_in_slice file file_len (ok xmp_bytes) = ok (detect_in_xmp file file_len xmp_bytes)

abbrev pub detect_in_range :
    Option (List ℕ) → List ℕ → ℕ → Option (ℕ × ℕ) → Result (Option MotionPhotoInfo)
detect_in_range file head file_len none = ok none
detect_in_range file head file_len (some xmp) = detect_in_slice file file_len (slice head xmp)

unfoldable pub detect_in_head : Option (List ℕ) → List ℕ → ℕ → Result (Option MotionPhotoInfo)
detect_in_head file head file_len = detect_in_range file head file_len (find_xmp_payload_range head)

abbrev pub head_scan_cap : ℕ
head_scan_cap = 128 * 1024

abbrev pub detect_in_file : Option (List ℕ) → Result (Option MotionPhotoInfo)
detect_in_file none = ok none
detect_in_file (some bytes) = detect_in_head (some bytes) (take head_scan_cap bytes) (length bytes)

unfoldable pub detect : Text → Option (List ℕ) → Result (Option MotionPhotoInfo)
detect path file = if not (is_motion_candidate_mime path) then ok none else detect_in_file file

unfoldable pub detect_with_head :
    Text → Option (List ℕ) → List ℕ → ℕ → Result (Option MotionPhotoInfo)
detect_with_head path file head file_len =
    if not (is_motion_candidate_mime path) then ok none else detect_in_head file head file_len

-- What is written to the destination, where the source opens and the writing succeeds.
unfoldable pub extract_video_to : Option (List ℕ) → MotionPhotoInfo → Result (List ℕ)
extract_video_to none info = err (ascii "open")
extract_video_to (some file) info = ok (take info.video_length (drop info.video_offset file))
