-- ===== src/Exif/Examples.antt =====
-- A PNG file with an old Exif block, and the theorem there.
use photo_viewer.Base.{ℕ, ◌≡◌, refl, some, List, [], ◌∷◌, ◌++◌, arith}
use photo_viewer.Base.Text.{ascii, text_eq}
use photo_viewer.Exif.{
  ok, png_signature, exif_type, ihdr_type, crc32, write_png_chunk, find_png_exif_chunk,
  write_png_exif_chunk,
}
use photo_viewer.Exif.Png.{find_png_exif_chunk-write_png_exif_chunk}

-- The check value of the CRC.
crc32-digits : crc32 (ascii "1234") (ascii "56789") ≡ 3421780262
unfolding crc32
crc32-digits = refl

abbrev header : List ℕ
header = 0 ∷ 0 ∷ 0 ∷ 1 ∷ ihdr_type ++ 7 ∷ 1 ∷ 2 ∷ 3 ∷ 4 ∷ []

abbrev old_block : List ℕ
old_block = 0 ∷ 0 ∷ 0 ∷ 0 ∷ exif_type ++ 9 ∷ 9 ∷ 9 ∷ 9 ∷ []

abbrev file : List ℕ
file = png_signature ++ header ++ old_block

abbrev tiff : List ℕ
tiff = 77 ∷ 77 ∷ []

abbrev written : List ℕ
written = png_signature ++ header ++ write_png_chunk exif_type tiff ++ []

write_png_exif_chunk-file : write_png_exif_chunk file tiff ≡ ok written
unfolding write_png_exif_chunk text_eq
write_png_exif_chunk-file = refl

find_png_exif_chunk-write_png_exif_chunk_example : find_png_exif_chunk written ≡ ok (some tiff)
find_png_exif_chunk-write_png_exif_chunk_example =
    find_png_exif_chunk-write_png_exif_chunk file tiff written (omega arith)
      write_png_exif_chunk-file
