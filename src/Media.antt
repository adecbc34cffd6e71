-- ===== src/Media.antt =====
-- src/core/media.rs: the media type of a file by its name. A path stands for its last component.
use photo_viewer.Base.{
  Bool, false, ◌||◌, Option, none, some, List, [], ◌∷◌, ◌==◌, if◌then◌else◌, ◌>>=◌,
}
use photo_viewer.Base.Text.{Text, ascii, text_eq}
use photo_viewer.Base.Bytes.{starts_with, to_ascii_lowercase}

-- What stands behind the last dot.
abbrev after_last_dot : Text → Option Text
after_last_dot [] = none
after_last_dot (c ∷ rest) = elim (after_last_dot rest) [
  | some ext ↦ some ext
  | none ↦ if c == 46 then some rest else none
]

-- `Path::extension`: a dot in the first place is part of the name.
abbrev extension : Text → Option Text
extension [] = none
extension (c ∷ rest) = after_last_dot rest

abbrev pub one_of : Text → List Text → Bool
unfolding text_eq
one_of s [] = false
one_of s (t ∷ rest) = text_eq s t || one_of s rest

abbrev mime_of : Text → Option Text
mime_of ext =
    if one_of ext (ascii "jpg" ∷ ascii "jpeg" ∷ [])
    then some (ascii "image/jpeg")
    else if text_eq ext (ascii "png")
    then some (ascii "image/png")
    else if text_eq ext (ascii "webp")
    then some (ascii "image/webp")
    else if one_of ext (ascii "heic" ∷ ascii "heif" ∷ [])
    then some (ascii "image/heic")
    else if text_eq ext (ascii "gif")
    then some (ascii "image/gif")
    else if one_of ext (ascii "mp4" ∷ ascii "m4v" ∷ [])
    then some (ascii "video/mp4")
    else if text_eq ext (ascii "mov")
    then some (ascii "video/quicktime")
    else if text_eq ext (ascii "webm")
    then some (ascii "video/webm")
    else if text_eq ext (ascii "mkv")
    then some (ascii "video/x-matroska")
    else if text_eq ext (ascii "avi")
    then some (ascii "video/x-msvideo")
    else none

unfoldable pub mime_from_extension : Text → Option Text
mime_from_extension path = extension path >>= λ ext. mime_of (to_ascii_lowercase ext)

unfoldable pub is_gif_head : Text → Bool
unfolding starts_with
is_gif_head head = starts_with head (ascii "GIF87a") || starts_with head (ascii "GIF89a")

unfoldable pub mime_from_extension_or_head : Text → Option Text → Option Text
mime_from_extension_or_head path none = mime_from_extension path
mime_from_extension_or_head path (some head) =
    if is_gif_head head then some (ascii "image/gif") else mime_from_extension path

pub data MediaKind : Type 0 where
  image : MediaKind
  video : MediaKind

unfoldable pub media_kind_from_mime : Text → Option MediaKind
unfolding starts_with
media_kind_from_mime mime =
    if starts_with mime (ascii "image/")
    then some MediaKind.image
    else if starts_with mime (ascii "video/")
    then some MediaKind.video
    else none
