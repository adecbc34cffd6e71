-- ===== src/Exif/Png.antt =====
-- A written Exif block is found again in a PNG file.
use photo_viewer.Base.{
  ℕ, zero, suc, ◌^◌, ◌≤◌, ◌<◌, ◌≡◌, refl, sym, ap, ◌∙◌, Bool, true, false, ◌&&◌, ◌||◌, not, some,
  List, [], ◌++◌, ltb, arith, Bool-cases, inl, inr, length, take, drop,
}
use photo_viewer.Base.Text.{text_eq, eq_of_text_eq}
use photo_viewer.Exif.{
  Result, ok, err, png_signature, exif_type, ihdr_type, write_png_chunk, chunk_type, chunk_size,
  truncated, find_from, find_png_exif_chunk, prepend, write_from, signed, write_png_exif_chunk,
}
use photo_viewer.Exif.Find.{found_after_chunk, found_at_once}

prepend-ok :
    (chunk : List ℕ) (r : Result (Bool × List ℕ)) (done : Bool) (out : List ℕ)
    → prepend chunk r ≡ ok (done, out)
    → (later : List ℕ) × (r ≡ ok (done, later)) × (chunk ++ later ≡ out)
prepend-ok chunk (ok (d, later)) done out e = (later, ground arith, ground arith)
prepend-ok chunk (err message) done out e = absurd (ground arith)

-- A round of the writer, by what the bytes start with.
write_from-short :
    (fuel : ℕ) (inserted : Bool) (tiff rest : List ℕ)
    → ltb (length rest) 12 ≡ true
    → write_from (suc fuel) inserted tiff rest ≡ ok (inserted, [])
unfolding write_from
write_from-short fuel inserted tiff rest h = rw h refl

write_from-truncated :
    (fuel : ℕ) (inserted : Bool) (tiff rest : List ℕ)
    → ltb (length rest) 12 ≡ false
    → ltb (length rest) (chunk_size rest) ≡ true
    → write_from (suc fuel) inserted tiff rest ≡ err truncated
unfolding write_from
write_from-truncated fuel inserted tiff rest h k = rw (h, k) refl

later_of : ℕ → Bool → List ℕ → List ℕ → Result (Bool × List ℕ)
later_of fuel inserted tiff rest =
    write_from fuel (inserted || text_eq (chunk_type rest) ihdr_type) tiff
      (drop (chunk_size rest) rest)

write_from-exif :
    (fuel : ℕ) (inserted : Bool) (tiff rest : List ℕ)
    → ltb (length rest) 12 ≡ false
    → ltb (length rest) (chunk_size rest) ≡ false
    → text_eq (chunk_type rest) exif_type ≡ true
    → write_from (suc fuel) inserted tiff rest ≡ later_of fuel inserted tiff rest
unfolding write_from later_of
write_from-exif fuel inserted tiff rest h k l = rw (h, k, l) refl

write_from-ihdr :
    (fuel : ℕ) (inserted : Bool) (tiff rest : List ℕ)
    → ltb (length rest) 12 ≡ false
    → ltb (length rest) (chunk_size rest) ≡ false
    → text_eq (chunk_type rest) exif_type ≡ false
    → (text_eq (chunk_type rest) ihdr_type && not inserted) ≡ true
    → write_from (suc fuel) inserted tiff rest
      ≡ prepend
          (take (chunk_size rest) rest ++ write_png_chunk exif_type tiff)
          (later_of fuel inserted tiff rest)
unfolding write_from later_of
write_from-ihdr fuel inserted tiff rest h k l m = rw (h, k, l, m) refl

write_from-other :
    (fuel : ℕ) (inserted : Bool) (tiff rest : List ℕ)
    → ltb (length rest) 12 ≡ false
    → ltb (length rest) (chunk_size rest) ≡ false
    → text_eq (chunk_type rest) exif_type ≡ false
    → (text_eq (chunk_type rest) ihdr_type && not inserted) ≡ false
    → write_from (suc fuel) inserted tiff rest
      ≡ prepend (take (chunk_size rest) rest) (later_of fuel inserted tiff rest)
unfolding write_from later_of
write_from-other fuel inserted tiff rest h k l m = rw (h, k, l, m) refl

exif_type-ihdr_type : text_eq exif_type ihdr_type ≡ false
unfolding text_eq
exif_type-ihdr_type = refl

exif-ihdr : (typ : List ℕ) → text_eq typ exif_type ≡ true → text_eq typ ihdr_type ≡ false
exif-ihdr typ h =
    ap (λ t. text_eq t ihdr_type) (eq_of_text_eq typ exif_type h) ∙ exif_type-ihdr_type

write_from-zero :
    (inserted : Bool) (tiff rest : List ℕ) → write_from zero inserted tiff rest ≡ ok (inserted, [])
unfolding write_from
write_from-zero inserted tiff rest = refl

later_of-waiting :
    (fuel : ℕ) (tiff rest : List ℕ)
    → text_eq (chunk_type rest) ihdr_type ≡ false
    → later_of fuel false tiff rest ≡ write_from fuel false tiff (drop (chunk_size rest) rest)
unfolding later_of
later_of-waiting fuel tiff rest h = rw h refl

ltb-le : (a b : ℕ) → ltb a b ≡ false → b ≤ a
ltb-le a b h = ground arith

-- What the loop writes from before the first IHDR chunk, if the block gets in.
write_from-found :
    (fuel : ℕ) (tiff rest out : List ℕ)
    → length tiff < 2 ^ 32
    → write_from fuel false tiff rest ≡ ok (true, out)
    → (steps : ℕ) → length out ≤ steps
    → find_from steps out ≡ ok (some tiff)
write_from-found zero tiff rest out small e =
    absurd (ground (arith, write_from-zero false tiff rest))
write_from-found (suc fuel) tiff rest out small e = elim (Bool-cases (ltb (length rest) 12)) [
  | inl short ↦ absurd (ground (arith, write_from-short fuel false tiff rest short))
  | inr long ↦ elim (Bool-cases (ltb (length rest) (chunk_size rest))) [
    | inl cut ↦ absurd (ground (arith, write_from-truncated fuel false tiff rest long cut))
    | inr whole ↦ elim (Bool-cases (text_eq (chunk_type rest) exif_type)) [
      | inl old ↦ write_from-found fuel tiff (drop (chunk_size rest) rest) out small (
          sym (later_of-waiting fuel tiff rest (exif-ihdr (chunk_type rest) old))
          ∙ sym (write_from-exif fuel false tiff rest long whole old)
          ∙ e)
      | inr kept ↦ elim (Bool-cases (text_eq (chunk_type rest) ihdr_type)) [
        | inl header ↦
            let (later, _, split) =
              prepend-ok (take (chunk_size rest) rest ++ write_png_chunk exif_type tiff)
                (later_of fuel false tiff rest) true out
                (sym (write_from-ihdr fuel false tiff rest long whole kept (rw header refl)) ∙ e) in
            found_at_once tiff rest later out small (ltb-le (length rest) (chunk_size rest) whole)
              kept split
        | inr other ↦
            let (later, written, split) =
              prepend-ok (take (chunk_size rest) rest) (later_of fuel false tiff rest) true out
                (sym (write_from-other fuel false tiff rest long whole kept (rw other refl)) ∙ e) in
            found_after_chunk tiff rest later out (ltb-le (length rest) (chunk_size rest) whole)
              kept
              (write_from-found fuel tiff (drop (chunk_size rest) rest) later small
                (sym (later_of-waiting fuel tiff rest other) ∙ written))
              split
      ]
    ]
  ]
]

signed-ok :
    (r : Result (Bool × List ℕ)) (out : List ℕ)
    → signed r ≡ ok out
    → (body : List ℕ) × (r ≡ ok (true, body)) × (png_signature ++ body ≡ out)
signed-ok (ok (true, body)) out e = (body, refl, ground arith)
signed-ok (ok (false, body)) out e = absurd (ground arith)
signed-ok (err message) out e = absurd (ground arith)

find_png_exif_chunk-signed :
    (body : List ℕ)
    → find_png_exif_chunk (png_signature ++ body) ≡ find_from (length (png_signature ++ body)) body
unfolding find_png_exif_chunk text_eq
find_png_exif_chunk-signed body = refl

written_file :
    (file tiff out : List ℕ)
    → write_png_exif_chunk file tiff ≡ ok out
    → signed (write_from (length file) false tiff (drop 8 file)) ≡ ok out
unfolding write_png_exif_chunk
written_file file tiff out e = ground arith

-- Where writing a block of less than 2 ^ 32 bytes into a file succeeds, reading the written file finds
-- this block, whatever blocks the file had before.
pub find_png_exif_chunk-write_png_exif_chunk :
    (file tiff out : List ℕ)
    → length tiff < 2 ^ 32
    → write_png_exif_chunk file tiff ≡ ok out
    → find_png_exif_chunk out ≡ ok (some tiff)
find_png_exif_chunk-write_png_exif_chunk file tiff out small e =
    let (body, written, split) =
      signed-ok (write_from (length file) false tiff (drop 8 file)) out
        (written_file file tiff out e) in
    ap find_png_exif_chunk (sym split)
    ∙ find_png_exif_chunk-signed body
    ∙ write_from-found (length file) tiff (drop 8 file) body small written
        (length (png_signature ++ body)) (omega arith)
