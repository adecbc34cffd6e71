-- ===== src/Heic/ExifItem.antt =====
-- src/core/metadata.rs: the Exif item of a HEIC file. `Result` is for the panic of a slice.
use photo_viewer.Base.{
  ℕ, zero, suc, ◌+◌, ◌/◌, ◌%◌, ◌^◌, Bool, ◌||◌, Option, none, some, List, [], ◌∷◌, ◌++◌, ltb, leb,
  ◌==◌, if◌then◌else◌, ◌>>=◌, length, drop,
}
use photo_viewer.Base.Text.{Text, ascii, text_eq}
use photo_viewer.Exif.{Result, ok, err}
use photo_viewer.Heic.{
  Bytes, get_range, get_from, u32_at, Read, take_bytes, u16, u32, fullbox, count, id, sized,
  box_at_start, usize_max, find_meta_body,
}
use photo_viewer.Heic.Properties.{typ_of}

-- The item of an `infe` box, where its version is known: its number, and whether it is Exif.
abbrev infe_item : ℕ → Bytes → Option (ℕ × Bool)
unfolding u16 u32 take_bytes text_eq
infe_item version cur = (if version == 2 then u16 cur else u32 cur) >>= λ (item_id, rest).
    u16 rest >>= λ (_, behind).
    take_bytes 4 behind >>= λ (item_type, _). some (item_id, text_eq item_type (ascii "Exif"))

abbrev pub infe : Bytes → Option ℕ → Option (Option ℕ)
unfolding infe_item fullbox
infe boxb exif_id = get_from 8 boxb >>= λ cur. fullbox cur >>= λ (head, rest).
    if head.0 == 2 || head.0 == 3
    then (infe_item head.0 rest >>= λ (item_id, is_exif).
        some (if is_exif then some item_id else exif_id))
    else some exif_id

unfoldable pub infes : ℕ → Bytes → Option ℕ → Option ℕ
unfolding box_at_start infe
infes zero cur exif_id = exif_id
infes (suc n) cur exif_id =
    box_at_start cur >>= λ (boxb, rest). infe boxb exif_id >>= λ next. infes n rest next

unfoldable pub parse_iinf : Bytes → Option ℕ
unfolding fullbox count infes
parse_iinf boxb = get_from 8 boxb >>= λ cur. fullbox cur >>= λ (head, rest).
    count (head.0 == 0) rest >>= λ (entry_count, entries). infes entry_count entries none

pub record ItemLocation : Type 0 where
  construction_method : ℕ
  base_offset : ℕ
  extents : List (ℕ × ℕ × ℕ)

unfoldable pub extents_from : ℕ → ℕ → ℕ → ℕ → Bytes → Read (List (ℕ × ℕ × ℕ))
unfolding sized
extents_from zero index_size offset_size length_size cur = some ([], cur)
extents_from (suc n) index_size offset_size length_size cur =
    sized index_size cur >>= λ (index, after_index).
    sized offset_size after_index >>= λ (offset, after_offset).
    sized length_size after_offset >>= λ (len, rest).
    extents_from n index_size offset_size length_size rest >>= λ (later, behind).
    some ((index, offset, len) ∷ later, behind)

-- The sizes of the fields of `iloc`, and its version.
pub record IlocSizes : Type 0 where
  version : ℕ
  offset_size : ℕ
  length_size : ℕ
  base_offset_size : ℕ
  index_size : ℕ

abbrev pub has_method : ℕ → Bool
has_method version = version == 1 || version == 2

abbrev sizes_of : ℕ → ℕ → IlocSizes
sizes_of version sizes = record {
  version = version;
  offset_size = sizes / 2 ^ 12;
  length_size = sizes / 2 ^ 8 % 2 ^ 4;
  base_offset_size = sizes / 2 ^ 4 % 2 ^ 4;
  index_size = if has_method version then sizes % 2 ^ 4 else 0;
}

unfoldable pub items_of : ℕ → IlocSizes → Bytes → ℕ → Option ItemLocation
unfolding id sized extents_from u16
items_of zero z cur want_id = none
items_of (suc n) z cur want_id = id (ltb z.version 2) cur >>= λ (item_id, after_id).
    (if has_method z.version then u16 after_id else some (0, after_id))
    >>= λ (method, after_method). u16 after_method >>= λ (_, after_ref).
        sized z.base_offset_size after_ref >>= λ (base_offset, after_base).
        u16 after_base >>= λ (extent_count, after_count).
        extents_from extent_count z.index_size z.offset_size z.length_size after_count
        >>= λ (extents, next).
            if item_id == want_id
            then some (record {
              construction_method = method % 2 ^ 4;
              base_offset = base_offset;
              extents = extents;
            })
            else items_of n z next want_id

unfoldable pub parse_iloc : Bytes → ℕ → Option ItemLocation
unfolding fullbox count items_of u16
parse_iloc boxb want_id = get_from 8 boxb >>= λ cur. fullbox cur >>= λ (head, rest).
    u16 rest >>= λ (sizes, after_sizes). count (ltb head.0 2) after_sizes >>= λ (item_count, items).
    items_of item_count (sizes_of head.0 sizes) items want_id

abbrev or_empty : Option Bytes → Bytes
or_empty none = []
or_empty (some bytes) = bytes

abbrev pub segment : Bytes → ℕ → ℕ → Bytes
segment src start len =
    or_empty (if len == 0 then get_from start src else get_range start (start + len) src)

-- The bytes of all extents.
unfoldable pub gathered : Bytes → ℕ → List (ℕ × ℕ × ℕ) → Option Bytes
gathered src base_offset [] = some []
gathered src base_offset ((index, offset, len) ∷ extents) =
    if leb (base_offset + offset) usize_max
    then (gathered src base_offset extents >>= λ later.
        some (segment src (base_offset + offset) len ++ later))
    else none

abbrev pub tiff_of : Bytes → Option Bytes
unfolding u32_at
tiff_of buf =
    if ltb (length buf) 4
    then none
    else u32_at buf 0 >>= λ tiff_offset.
        if ltb (length buf) (4 + tiff_offset) then none else some (drop (4 + tiff_offset) buf)

-- What the walk over `meta` has found.
pub record MetaParts : Type 0 where
  idat : Option Bytes
  exif_item_id : Option ℕ
  iloc : Option Bytes

abbrev pub with_part : Bytes → Bytes → MetaParts → Option MetaParts
unfolding text_eq parse_iinf
with_part typ child found =
    if text_eq typ (ascii "idat")
    then (get_from 12 child >>= λ b. some (record found { idat = some b }))
    else if text_eq typ (ascii "iinf")
    then some (record found { exif_item_id = parse_iinf child })
    else if text_eq typ (ascii "iloc")
    then some (record found { iloc = some child })
    else some found

-- The loop over the children of `meta`, on fuel for the bytes.
unfoldable pub parts_from : ℕ → Bytes → MetaParts → Option MetaParts
unfolding box_at_start with_part
parts_from zero cur found = some found
parts_from (suc fuel) cur found =
    if leb 8 (length cur)
    then (box_at_start cur >>= λ (child, rest).
        typ_of child >>= λ typ. with_part typ child found >>= λ next. parts_from fuel rest next)
    else some found

abbrev pub source_of : ItemLocation → Bytes → Option Bytes → Option Bytes
source_of loc file idat =
    if loc.construction_method == 0
    then some file
    else if loc.construction_method == 1
    then idat
    else none

abbrev pub tiff_in : Bytes → MetaParts → Option Bytes
unfolding parse_iloc gathered tiff_of
tiff_in file found = found.iloc >>= λ iloc. found.exif_item_id >>= λ item.
    parse_iloc iloc item >>= λ loc.
    source_of loc file found.idat >>= λ src. gathered src loc.base_offset loc.extents >>= tiff_of

abbrev pub short_slice : Text
short_slice = ascii "range start index 4 out of range"

-- `&body[4..]` panics where the body is shorter.
unfoldable pub parse_meta : Bytes → Bytes → Result (Option Bytes)
unfolding parts_from tiff_in
parse_meta body file =
    if ltb (length body) 4
    then err short_slice
    else ok (
        parts_from (length (drop 4 body)) (drop 4 body)
          (record { idat = none; exif_item_id = none; iloc = none })
        >>= tiff_in file)

unfoldable pub parse_found : Bytes → Option Bytes → Result (Option Bytes)
parse_found file none = ok none
parse_found file (some body) = parse_meta body file

unfoldable pub extract_heic_exif_tiff : Bytes → Result (Option Bytes)
extract_heic_exif_tiff file = parse_found file (find_meta_body file)
