-- ===== src/Exif.antt =====
-- src/core/orientation.rs: the Exif block in the chunks of a PNG file, and the orientation of a photo.
-- The bytes from the source's position on stand for the position.
pub mod Bytes
pub mod Find
pub mod Png
mod Examples
use photo_viewer.Base.{
  ℕ, zero, suc, ◌+◌, ◌-◌, ◌*◌, ◌/◌, ◌%◌, ◌^◌, Bool, true, false, ◌&&◌, ◌||◌, not, Option, none,
  some, List, [], ◌∷◌, ◌++◌, ltb, leb, ◌==◌, if◌then◌else◌, length, take, drop,
}
use photo_viewer.Base.Text.{Text, ascii, text_eq}

pub data Result (A : Type 0) : Type 0 where
  ok : A → Result A
  err : Text → Result A

abbrev pub png_signature : List ℕ
png_signature = 137 ∷ 80 ∷ 78 ∷ 71 ∷ 13 ∷ 10 ∷ 26 ∷ 10 ∷ []

abbrev pub exif_type : List ℕ
exif_type = ascii "eXIf"

abbrev pub ihdr_type : List ℕ
ihdr_type = ascii "IHDR"

-- `data.starts_with(PNG_SIGNATURE)`
abbrev pub is_png : List ℕ → Bool
is_png file = text_eq (take 8 file) png_signature

-- `u32::from_be_bytes` and `to_be_bytes`, the latter of a number as u32
abbrev pub from_be_bytes : List ℕ → ℕ
from_be_bytes [] = 0
from_be_bytes (b ∷ rest) = b * 256 ^ length rest + from_be_bytes rest

abbrev pub to_be_bytes : ℕ → List ℕ
to_be_bytes n = n / 2 ^ 24 % 256 ∷ n / 2 ^ 16 % 256 ∷ n / 2 ^ 8 % 256 ∷ n % 256 ∷ []

-- The exclusive or of the lowest bits, as many as the fuel.
unfoldable pub xor_bits : ℕ → ℕ → ℕ → ℕ
xor_bits zero a b = 0
xor_bits (suc bits) a b = (a % 2 + b % 2) % 2 + 2 * xor_bits bits (a / 2) (b / 2)

-- One bit of the loop of `crc32`, and its eight rounds.
abbrev crc_bit : ℕ → ℕ
crc_bit crc = xor_bits 32 (crc / 2) (if crc % 2 == 1 then 3988292384 else 0)

abbrev crc_byte : ℕ → ℕ → ℕ
crc_byte crc byte =
    crc_bit
      (crc_bit (crc_bit (crc_bit (crc_bit (crc_bit (crc_bit (crc_bit (xor_bits 32 crc byte))))))))

unfoldable pub crc_bytes : ℕ → List ℕ → ℕ
unfolding xor_bits
crc_bytes crc [] = crc
crc_bytes crc (byte ∷ rest) = crc_bytes (crc_byte crc byte) rest

unfoldable pub crc32 : List ℕ → List ℕ → ℕ
unfolding crc_bytes
crc32 typ payload = 4294967295 - crc_bytes 4294967295 (typ ++ payload)

unfoldable pub write_png_chunk : List ℕ → List ℕ → List ℕ
unfolding crc32
write_png_chunk typ payload =
    to_be_bytes (length payload) ++ typ ++ payload ++ to_be_bytes (crc32 typ payload)

-- The chunk that the bytes start with: the length of its data, its type, and its whole size.
abbrev pub chunk_len : List ℕ → ℕ
chunk_len rest = from_be_bytes (take 4 rest)

abbrev pub chunk_type : List ℕ → List ℕ
chunk_type rest = drop 4 (take 8 rest)

abbrev pub chunk_size : List ℕ → ℕ
chunk_size rest = chunk_len rest + 12

abbrev pub truncated : Text
truncated = ascii "truncated PNG chunk"

-- The loop of `find_png_exif_chunk`, on fuel for the bytes.
unfoldable pub find_from : ℕ → List ℕ → Result (Option (List ℕ))
unfolding text_eq
find_from zero rest = ok none
find_from (suc fuel) rest =
    let later = find_from fuel (drop (chunk_size rest) rest) in
    if ltb (length rest) 12
    then ok none
    else if ltb (length rest) (chunk_size rest)
    then err truncated
    else if text_eq (chunk_type rest) exif_type
    then ok (some (take (chunk_len rest) (drop 8 rest)))
    else later

unfoldable pub find_png_exif_chunk : List ℕ → Result (Option (List ℕ))
unfolding find_from
find_png_exif_chunk file = if is_png file then find_from (length file) (drop 8 file) else ok none

abbrev pub prepend : List ℕ → Result (Bool × List ℕ) → Result (Bool × List ℕ)
prepend chunk (ok (inserted, out)) = ok (inserted, chunk ++ out)
prepend chunk (err message) = err message

-- The loop of `write_png_exif_chunk`, on fuel for the bytes: whether the block is in, and the output.
unfoldable pub write_from : ℕ → Bool → List ℕ → List ℕ → Result (Bool × List ℕ)
unfolding write_png_chunk text_eq
write_from zero inserted tiff rest = ok (inserted, [])
write_from (suc fuel) inserted tiff rest =
    let chunk = take (chunk_size rest) rest in
    let is_ihdr = text_eq (chunk_type rest) ihdr_type in
    let later = write_from fuel (inserted || is_ihdr) tiff (drop (chunk_size rest) rest) in
    if ltb (length rest) 12
    then ok (inserted, [])
    else if ltb (length rest) (chunk_size rest)
    then err truncated
    else if text_eq (chunk_type rest) exif_type
    then later
    else if is_ihdr && not inserted
    then prepend (chunk ++ write_png_chunk exif_type tiff) later
    else prepend chunk later

abbrev pub signed : Result (Bool × List ℕ) → Result (List ℕ)
signed (ok (true, out)) = ok (png_signature ++ out)
signed (ok (false, out)) = err (ascii "PNG missing IHDR chunk")
signed (err message) = err message

unfoldable pub write_png_exif_chunk : List ℕ → List ℕ → Result (List ℕ)
unfolding write_from
write_png_exif_chunk file tiff =
    if is_png file
    then signed (write_from (length file) false tiff (drop 8 file))
    else err (ascii "not a PNG file")
