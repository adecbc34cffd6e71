-- ===== src/Motion/Found.antt =====
-- Where a detected video lies in its file.
use photo_viewer.Base.{
  ℕ, ◌+◌, ◌-◌, ◌^◌, ◌≤◌, ◌<◌, ◌≡◌, refl, inl, inr, Bool, true, false, ◌||◌, not, Option, none, some,
  List, [], ◌∷◌, ltb, Option-cases, ◌==◌, if◌then◌else◌, arith, guarded, ◌>>=◌, >>=_some, length,
  take, drop, length-drop,
}
use photo_viewer.Base.Text.{Text, ascii, eq_of_text_eq}
use photo_viewer.Base.Bytes.{contains_text}
use photo_viewer.Exif.{ok, err}
use photo_viewer.Exif.Bytes.{length-take}
use photo_viewer.Motion.Utf8.{from_utf8_lossy}
use photo_viewer.Motion.{
  MotionPhotoInfo, ContainerItem, attr_u64, is_motion_candidate_mime, micro_video_info,
  container_info, mp4_marker_at, micro_video_at, detect_micro_video, parse_container_items,
  sum_lengths, u64_saturating_add, is_gain_map, is_video, place_items, container_at, container_with,
  detect_container, detect_in_text, bad_slice, find_xmp_payload_range, contains_motion_marker,
  detect_in_xmp, detect_in_slice, detect_in_range, detect_in_head, head_scan_cap, detect,
  extract_video_to,
}

-- A piece of a file of so many bytes.
abbrev pub Inside : ℕ → Option (ℕ × ℕ) → Type 0
Inside file_len none = Unit
Inside file_len (some (offset, len)) = offset + len ≤ file_len

-- What a detection promises: a video inside the file, with the marker at its start.
pub record IsFound (has_mp4_at : ℕ → Bool) (file_len : ℕ) (info : MotionPhotoInfo) : Type 0 where
  within : info.video_offset + info.video_length ≤ file_len
  nonempty : 0 < info.video_length
  marked : has_mp4_at info.video_offset ≡ true

-- The exact sum of the lengths.
abbrev pub total_lengths : List ContainerItem → ℕ
total_lengths [] = 0
total_lengths (item ∷ items) = item.length + total_lengths items

pub sum_lengths_small :
    (items : List ContainerItem)
    → total_lengths items < 2 ^ 64
    → sum_lengths items ≡ total_lengths items
unfolding sum_lengths
sum_lengths_small [] h = refl
sum_lengths_small (item ∷ items) h = ground (arith, sum_lengths_small items)

chosen :
    (b : Bool) (file_len offset len : ℕ) (old : Option (ℕ × ℕ))
    → offset + len ≤ file_len
    → Inside file_len old
    → Inside file_len (if b then some (offset, len) else old)
chosen true file_len offset len old new h = new
chosen false file_len offset len old new h = h

-- The items that fit behind the cursor are placed inside the file.
place_items-Inside :
    (file_len cursor : ℕ) (items : List ContainerItem) (video gain_map : Option (ℕ × ℕ))
    → file_len < 2 ^ 64
    → cursor + total_lengths items ≤ file_len
    → Inside file_len video
    → Inside file_len gain_map
    → Inside file_len ((place_items cursor items video gain_map).0)
      × Inside file_len ((place_items cursor items video gain_map).1)
unfolding place_items
place_items-Inside file_len cursor [] video gain_map small fits v g = (v, g)
place_items-Inside file_len cursor (item ∷ items) video gain_map small fits v g =
    place_items-Inside file_len (u64_saturating_add cursor item.length) items
      (if is_video item then some (cursor, item.length) else video)
      (if is_gain_map item then some (cursor, item.length) else gain_map) small (omega arith)
      (chosen (is_video item) file_len cursor item.length video (omega arith) v)
      (chosen (is_gain_map item) file_len cursor item.length gain_map (omega arith) g)

micro_video_at-IsFound :
    (has_mp4_at : ℕ → Bool) (text : Text) (file_len video_length : ℕ) (info : MotionPhotoInfo)
    → micro_video_at has_mp4_at text file_len video_length ≡ some info
    → IsFound has_mp4_at file_len info
micro_video_at-IsFound has_mp4_at text file_len video_length info h =
    let offset = file_len - video_length in
    let made = some (micro_video_info text offset video_length) in
    let no_video = not (has_mp4_at offset) in
    let (fits, rest) =
      guarded (video_length == 0 || ltb file_len video_length) (if no_video then none else made)
        info h in
    let (marked, found) = guarded no_video made info rest in
    record { within = ground arith; nonempty = ground arith; marked = ground arith }

detect_micro_video-IsFound :
    (has_mp4_at : ℕ → Bool) (text : Text) (file_len : ℕ) (info : MotionPhotoInfo)
    → detect_micro_video has_mp4_at text file_len ≡ some info
    → IsFound has_mp4_at file_len info
unfolding detect_micro_video
detect_micro_video-IsFound has_mp4_at text file_len info h =
    let asked = attr_u64 text (ascii "GCamera:MicroVideoOffset") in
    let (_, rest) =
      guarded (not (contains_text text (ascii "GCamera:MicroVideo=\"1\"")))
        (asked >>= micro_video_at has_mp4_at text file_len) info h in
    let (len, _, found) = >>=_some asked (micro_video_at has_mp4_at text file_len) info rest in
    micro_video_at-IsFound has_mp4_at text file_len len info found

container_at-IsFound :
    (has_mp4_at : ℕ → Bool) (text : Text) (file_len : ℕ) (video gain_map : Option (ℕ × ℕ))
    (info : MotionPhotoInfo)
    → Inside file_len video
    → container_at has_mp4_at text (video, gain_map) ≡ some info
    → IsFound has_mp4_at file_len info
container_at-IsFound has_mp4_at text file_len none gain_map info inside h = absurd cc
container_at-IsFound has_mp4_at text file_len (some (offset, len)) gain_map info inside h =
    let (test, found) =
      guarded (len == 0 || not (has_mp4_at offset)) (some (container_info text offset len gain_map))
        info h in
    record { within = ground arith; nonempty = ground arith; marked = ground arith }

container_with-IsFound :
    (has_mp4_at : ℕ → Bool) (text : Text) (file_len : ℕ) (items : List ContainerItem)
    (info : MotionPhotoInfo)
    → file_len < 2 ^ 64
    → total_lengths items < 2 ^ 64
    → container_with has_mp4_at text file_len items ≡ some info
    → IsFound has_mp4_at file_len info
container_with-IsFound has_mp4_at text file_len items info small exact h =
    let (fits, found) = guarded _ _ info h in
    let sum = sum_lengths_small items exact in
    let inside =
      place_items-Inside file_len (file_len - sum_lengths items) items none none small
        (ground arith) tt tt in
    container_at-IsFound has_mp4_at text file_len _ _ info (inside.0) found

detect_container-IsFound :
    (has_mp4_at : ℕ → Bool) (text : Text) (file_len : ℕ) (info : MotionPhotoInfo)
    → file_len < 2 ^ 64
    → total_lengths (parse_container_items text) < 2 ^ 64
    → detect_container has_mp4_at text file_len ≡ some info
    → IsFound has_mp4_at file_len info
unfolding detect_container
detect_container-IsFound has_mp4_at text file_len info small exact h =
    let (_, found) = guarded _ _ info h in
    container_with-IsFound has_mp4_at text file_len (parse_container_items text) info small exact
      found

-- Either detector, in the order of the code.
detect_in_text-IsFound :
    (file : Option (List ℕ)) (text : Text) (file_len : ℕ) (info : MotionPhotoInfo)
    → file_len < 2 ^ 64
    → total_lengths (parse_container_items text) < 2 ^ 64
    → detect_in_text file text file_len ≡ some info
    → IsFound (mp4_marker_at file) file_len info
detect_in_text-IsFound file text file_len info small exact h =
    elim (Option-cases (detect_micro_video (mp4_marker_at file) text file_len)) [
      | inr (i, e) ↦
          detect_micro_video-IsFound (mp4_marker_at file) text file_len info (ground arith)
      | inl e ↦
          detect_container-IsFound (mp4_marker_at file) text file_len info small exact
            (ground arith)
    ]

-- The text of the XMP segment of a head.
abbrev pub xmp_text_of : List ℕ → Option (ℕ × ℕ) → Text
xmp_text_of head none = []
xmp_text_of head (some (start, finish)) = from_utf8_lossy (take (finish - start) (drop start head))

abbrev pub xmp_text : List ℕ → Text
xmp_text head = xmp_text_of head (find_xmp_payload_range head)

detect_in_range-IsFound :
    (file : Option (List ℕ)) (head : List ℕ) (file_len : ℕ) (xmp : Option (ℕ × ℕ))
    (info : MotionPhotoInfo)
    → file_len < 2 ^ 64
    → total_lengths (parse_container_items (xmp_text_of head xmp)) < 2 ^ 64
    → detect_in_range file head file_len xmp ≡ ok (some info)
    → IsFound (mp4_marker_at file) file_len info
unfolding detect_in_xmp
detect_in_range-IsFound file head file_len none info small exact h = absurd (ground arith)
detect_in_range-IsFound file head file_len (some (start, finish)) info small exact h =
    let xmp_bytes = take (finish - start) (drop start head) in
    let text = from_utf8_lossy xmp_bytes in
    let (_, found) =
      guarded (not (contains_motion_marker xmp_bytes)) (detect_in_text file text file_len) info
        (in_order (ltb finish start || ltb (length head) finish) h) in
    detect_in_text-IsFound file text file_len info small exact found
  where
    in_order :
        (b : Bool)
        → detect_in_slice file file_len
            (if b then err bad_slice else ok (take (finish - start) (drop start head)))
          ≡ ok (some info)
        → detect_in_xmp file file_len (take (finish - start) (drop start head)) ≡ some info
    in_order true h = absurd (ground arith)
    in_order false h = ground arith

pub detect_in_head-IsFound :
    (file : Option (List ℕ)) (head : List ℕ) (file_len : ℕ) (info : MotionPhotoInfo)
    → file_len < 2 ^ 64
    → total_lengths (parse_container_items (xmp_text head)) < 2 ^ 64
    → detect_in_head file head file_len ≡ ok (some info)
    → IsFound (mp4_marker_at file) file_len info
unfolding detect_in_head
detect_in_head-IsFound file head file_len info small exact h =
    detect_in_range-IsFound file head file_len (find_xmp_payload_range head) info small exact h

length-slice :
    (offset len : ℕ) (file : List ℕ)
    → offset + len ≤ length file
    → length (take len (drop offset file)) ≡ len
length-slice offset len file h =
    length-take len (drop offset file) (omega (arith, length-drop offset file))

mp4_marker_at-marked :
    (file : List ℕ) (offset : ℕ)
    → mp4_marker_at (some file) offset ≡ true
    → take 4 (drop (offset + 4) file) ≡ ascii "ftyp"
unfolding mp4_marker_at
mp4_marker_at-marked file offset h =
    eq_of_text_eq (take 4 (drop (offset + 4) file)) (ascii "ftyp") (ground arith)

detect-head :
    (path : Text) (file : List ℕ) (info : MotionPhotoInfo)
    → detect path (some file) ≡ ok (some info)
    → detect_in_head (some file) (take head_scan_cap file) (length file) ≡ ok (some info)
unfolding detect
detect-head path file info h = jpeg (is_motion_candidate_mime path) h
  where
    jpeg :
        (b : Bool)
        → (if not b
            then ok none
            else detect_in_head (some file) (take head_scan_cap file) (length file))
          ≡ ok (some info)
        → detect_in_head (some file) (take head_scan_cap file) (length file) ≡ ok (some info)
    jpeg true h = h
    jpeg false h = absurd (ground arith)

extract_video_to-file :
    (file : List ℕ) (info : MotionPhotoInfo)
    → extract_video_to (some file) info ≡ ok (take info.video_length (drop info.video_offset file))
unfolding extract_video_to
extract_video_to-file file info = refl

-- Where a motion photo is detected in a file of less than 2 ^ 64 bytes, whose items have lengths that
-- add up to less than 2 ^ 64, its video is extracted in full: it has the detected length, which is not
-- 0, and the file has the MP4 marker four bytes behind the detected offset.
pub extract_video_to-detect :
    (path : Text) (file : List ℕ) (info : MotionPhotoInfo)
    → length file < 2 ^ 64
    → total_lengths (parse_container_items (xmp_text (take head_scan_cap file))) < 2 ^ 64
    → detect path (some file) ≡ ok (some info)
    → (video : List ℕ) × (extract_video_to (some file) info ≡ ok video)
      × (length video ≡ info.video_length)
      × (0 < length video)
      × (take 4 (drop (info.video_offset + 4) file) ≡ ascii "ftyp")
extract_video_to-detect path file info small exact h =
    let head = take head_scan_cap file in
    let found =
      detect_in_head-IsFound (some file) head (length file) info small exact
        (detect-head path file info h) in
    let full = length-slice info.video_offset info.video_length file found.within in
    (
      take info.video_length (drop info.video_offset file),
      extract_video_to-file file info,
      full,
      omega (arith, full, found.nonempty),
      mp4_marker_at-marked file info.video_offset found.marked,
    )
