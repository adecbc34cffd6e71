-- ===== src/Motion/Examples.antt =====
-- Motion photos of a few bytes, and the theorems at them.
use photo_viewer.Base.{
  ℕ, ◌+◌, ◌<◌, ◌^◌, ◌≡◌, ◌↔◌, refl, true, false, none, some, List, [], ◌∷◌, ◌++◌, arith, length,
  take, drop, ltb→lt, ◌-◌,
}
use photo_viewer.Base.Text.{Text, ascii, text_eq}
use photo_viewer.Base.Bytes.{starts_with, find, contains_text, parse_u64}
use photo_viewer.Exif.{ok, err}
use photo_viewer.Media.{mime_from_extension}
use photo_viewer.Motion.Utf8.{from_utf8_lossy, lossy_from}
use photo_viewer.Motion.{
  MotionPhotoFormat, MotionPhotoInfo, ContainerItem, is_motion_candidate_mime, mp4_marker_at,
  attr_string, attr_u64, xmp_from, find_xmp_payload_range, items_from, parse_container_items,
  place_items, sum_lengths, detect_micro_video, detect_container, detect_in_xmp, detect_in_head,
  head_scan_cap, detect, extract_video_to, bad_slice,
}
use photo_viewer.Motion.Found.{total_lengths, xmp_text, extract_video_to-detect}
use photo_viewer.Motion.Xmp.{IsPayload, detect_in_head-panics}
use photo_viewer.Base.Search.{is_clear, Lacks-is_clear}
use photo_viewer.Motion.Written.{IsPlain}
use photo_viewer.Motion.Container.{
  AllPrintable, directory_text, items_in, parse_container_items-directory_text,
}

abbrev container_text : Text
container_text =
    ascii "GCamera:MotionPhoto=\"1\"<Container:Directory>"
    ++ ascii
        "<Container:Item Item:Mime=\"image/jpeg\" Item:Semantic=\"Primary\" Item:Length=\"0\"/>"
    ++ ascii
        "<Container:Item Item:Mime=\"image/jpeg\" Item:Semantic=\"gainmap\" Item:Length=\"3\"/>"
    ++ ascii
        "<Container:Item Item:Mime=\"video/mp4\" Item:Semantic=\"MotionPhoto\" Item:Length=\"8\"/>"

abbrev motion_photo : List ℕ
motion_photo =
    255 ∷ 216 ∷ 255 ∷ 225 ∷ 1 ∷ 62 ∷ []
    ++ ascii "http://ns.adobe.com/xap/1.0/"
    ++ 0 ∷ []
    ++ container_text
    ++ 255 ∷ 217 ∷ []
    ++ 7 ∷ 7 ∷ 7 ∷ []
    ++ 0 ∷ 0 ∷ 0 ∷ 8 ∷ []
    ++ ascii "ftyp"

abbrev found_photo : MotionPhotoInfo
found_photo = record {
  format = MotionPhotoFormat.google_motion_photo_container;
  video_offset = length motion_photo - 8;
  video_length = 8;
  presentation_timestamp_us = none;
  gain_map_offset = some (length motion_photo - 11);
  gain_map_length = some 3;
}

detect-motion_photo : detect (ascii "IMG.1.JPG") (some motion_photo) ≡ ok (some found_photo)
unfolding detect is_motion_candidate_mime detect_in_head detect_in_xmp detect_micro_video
    detect_container mime_from_extension find_xmp_payload_range xmp_from starts_with contains_text
    from_utf8_lossy lossy_from sum_lengths parse_container_items items_from attr_string attr_u64
    parse_u64 place_items mp4_marker_at
detect-motion_photo = refl

items_fit :
    total_lengths (parse_container_items (xmp_text (take head_scan_cap motion_photo))) < 2 ^ 64
unfolding find_xmp_payload_range text_eq xmp_from starts_with from_utf8_lossy lossy_from find
    parse_container_items items_from attr_string attr_u64 parse_u64
items_fit = ltb→lt 11 (2 ^ 64) refl

extract_video_to-detect_example :
    (video : List ℕ) × (extract_video_to (some motion_photo) found_photo ≡ ok video)
    × (length video ≡ 8)
    × (0 < length video)
    × (take 4 (drop (length motion_photo - 8 + 4) motion_photo) ≡ ascii "ftyp")
extract_video_to-detect_example =
    extract_video_to-detect (ascii "IMG.1.JPG") motion_photo found_photo (omega arith) items_fit
      detect-motion_photo

-- An empty XMP segment, with the signature behind it.
abbrev short_segment : List ℕ
short_segment = 255 ∷ 216 ∷ 255 ∷ 225 ∷ 0 ∷ 2 ∷ [] ++ ascii "http://ns.adobe.com/xap/1.0/" ++ 0 ∷ []

detect_in_head-panics_example : (detect_in_head none short_segment 35 ≡ err bad_slice) ↔ (
    (start : ℕ) × (finish : ℕ) × (find_xmp_payload_range short_segment ≡ some (start, finish))
    × IsPayload short_segment start finish
    × (finish < start))
detect_in_head-panics_example = detect_in_head-panics none short_segment 35

short_segment-panics : detect_in_head none short_segment 35 ≡ err bad_slice
unfolding detect_in_head find_xmp_payload_range text_eq xmp_from starts_with
short_segment-panics = refl

abbrev entries : List (Text × ContainerItem)
entries =
    (
      ascii "<rdf:li rdf:parseType=\"Resource\">",
      record { mime = ascii "image/jpeg"; semantic = ascii "Primary"; length = 0 },
    )
    ∷ (
      ascii "</rdf:li><rdf:li><",
      record { mime = ascii "video/mp4"; semantic = ascii "MotionPhoto"; length = 1234567 },
    )
    ∷ []

clear_value :
    (value : Text)
    → is_clear value (34 ∷ []) ≡ true
    → is_clear value (61 ∷ []) ≡ true
    → is_clear value (62 ∷ []) ≡ true
    → IsPlain value
clear_value value quotes equals brackets = record {
  unquoted = Lacks-is_clear 34 value quotes;
  unequal = Lacks-is_clear 61 value equals;
  unclosed = Lacks-is_clear 62 value brackets;
}

entries-AllPrintable : AllPrintable entries
unfolding contains_text starts_with find
entries-AllPrintable = (
  refl,
  record {
    plain_mime = clear_value _ refl refl refl;
    plain_semantic = clear_value _ refl refl refl;
    small = omega arith;
  },
  (
    refl,
    record {
      plain_mime = clear_value _ refl refl refl;
      plain_semantic = clear_value _ refl refl refl;
      small = omega arith;
    },
    tt,
  ),
)

no_tag : contains_text (ascii "</rdf:li>") (ascii "<Container:Item") ≡ false
unfolding contains_text starts_with find
no_tag = refl

parse_container_items-directory_text_example :
    parse_container_items (directory_text entries (ascii "</rdf:li>")) ≡ items_in entries
parse_container_items-directory_text_example =
    parse_container_items-directory_text entries (ascii "</rdf:li>") entries-AllPrintable no_tag
