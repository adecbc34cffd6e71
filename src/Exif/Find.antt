-- ===== src/Exif/Find.antt =====
-- The reader's loop over written chunks.
use mathlib.Core.List.{append_assoc}
use photo_viewer.Base.{
  ℕ, zero, suc, ◌+◌, ◌^◌, ◌≤◌, ◌<◌, ◌≡◌, refl, sym, ap, ◌∙◌, true, false, some, List, ◌++◌, ltb,
  arith, length, take, drop, length-append,
}
use photo_viewer.Base.Text.{text_eq}
use photo_viewer.Exif.{
  ok, exif_type, from_be_bytes, to_be_bytes, crc32, write_png_chunk, chunk_len, chunk_type,
  chunk_size, find_from,
}
use photo_viewer.Exif.Bytes.{
  take-append, take-take, length-take, drop-append, take-append_all, from_be_bytes-to_be_bytes,
}

find_from-skip :
    (fuel : ℕ) (rest : List ℕ)
    → ltb (length rest) 12 ≡ false
    → ltb (length rest) (chunk_size rest) ≡ false
    → text_eq (chunk_type rest) exif_type ≡ false
    → find_from (suc fuel) rest ≡ find_from fuel (drop (chunk_size rest) rest)
unfolding find_from
find_from-skip fuel rest h k l = rw (h, k, l) refl

pub find_from-found :
    (fuel : ℕ) (rest : List ℕ)
    → ltb (length rest) 12 ≡ false
    → ltb (length rest) (chunk_size rest) ≡ false
    → text_eq (chunk_type rest) exif_type ≡ true
    → find_from (suc fuel) rest ≡ ok (some (take (chunk_len rest) (drop 8 rest)))
unfolding find_from
find_from-found fuel rest h k l = rw (h, k, l) refl

not-ltb : (a b : ℕ) → b ≤ a → ltb a b ≡ false
not-ltb a b h = ground arith

-- A whole chunk of another type is passed over, whatever follows it.
find_from-chunk :
    (fuel : ℕ) (rest out : List ℕ)
    → chunk_size rest ≤ length rest
    → text_eq (chunk_type rest) exif_type ≡ false
    → find_from (suc fuel) (take (chunk_size rest) rest ++ out) ≡ find_from fuel out
find_from-chunk fuel rest out h k =
    let n = chunk_size rest in
    let chunk = take n rest in
    let size = length-take n rest h in
    let four : take 4 (chunk ++ out) ≡ take 4 rest =
      take-append 4 chunk out (omega (arith, size)) ∙ take-take 4 n rest (omega arith) in
    let eight : take 8 (chunk ++ out) ≡ take 8 rest =
      take-append 8 chunk out (omega (arith, size)) ∙ take-take 8 n rest (omega arith) in
    let same : chunk_size (chunk ++ out) ≡ n = ap (λ b. from_be_bytes b + 12) four in
    let long = length-append chunk out in
    find_from-skip fuel (chunk ++ out)
      (not-ltb (length (chunk ++ out)) 12 (omega (arith, size, long)))
      (not-ltb (length (chunk ++ out)) (chunk_size (chunk ++ out))
        (omega (arith, size, long, same)))
      (ap (λ b. text_eq (drop 4 b) exif_type) eight ∙ k)
    ∙ ap (λ m. find_from fuel (drop m (chunk ++ out))) same
    ∙ ap (find_from fuel) (drop-append n chunk out size)

exif_type-found : text_eq exif_type exif_type ≡ true
unfolding text_eq
exif_type-found = refl

-- The written chunk is found, whatever follows it.
find_from-write_png_chunk :
    (fuel : ℕ) (tiff out : List ℕ)
    → length tiff < 2 ^ 32
    → find_from (suc fuel) (write_png_chunk exif_type tiff ++ out) ≡ ok (some tiff)
unfolding write_png_chunk
find_from-write_png_chunk fuel tiff out h =
    let n = length tiff in
    let crc = crc32 exif_type tiff in
    let all = write_png_chunk exif_type tiff ++ out in
    let len : chunk_len all ≡ n = from_be_bytes-to_be_bytes n h in
    let long : length all ≡ n + 12 + length out =
      omega (
        arith,
        length-append (tiff ++ to_be_bytes crc) out,
        length-append tiff (to_be_bytes crc),
      ) in
    find_from-found fuel all (not-ltb (length all) 12 (omega (arith, long)))
      (not-ltb (length all) (chunk_size all) (omega (arith, long, len))) exif_type-found
    ∙ ap (λ m. ok (some (take m (drop 8 all)))) len
    ∙ ap (λ b. ok (some b))
        (take-append n (tiff ++ to_be_bytes crc) out
            (omega (arith, length-append tiff (to_be_bytes crc)))
          ∙ take-append_all n tiff (to_be_bytes crc) refl)

-- Below a first chunk that keeps the writer waiting for the block.
pub found_after_chunk :
    (tiff rest later out : List ℕ)
    → chunk_size rest ≤ length rest
    → text_eq (chunk_type rest) exif_type ≡ false
    → ((fuel : ℕ) → length later ≤ fuel → find_from fuel later ≡ ok (some tiff))
    → take (chunk_size rest) rest ++ later ≡ out
    → (fuel : ℕ) → length out ≤ fuel
    → find_from fuel out ≡ ok (some tiff)
found_after_chunk tiff rest later out h k found e zero enough = absurd (
    omega (
      arith,
      length-append (take (chunk_size rest) rest) later,
      length-take (chunk_size rest) rest h,
      ap length e,
    ))
found_after_chunk tiff rest later out h k found e (suc fuel) enough =
    ap (find_from (suc fuel)) (sym e)
    ∙ find_from-chunk fuel rest later h k
    ∙ found fuel (
        omega (
          arith,
          length-append (take (chunk_size rest) rest) later,
          length-take (chunk_size rest) rest h,
          ap length e,
        ))

written_found :
    (tiff later : List ℕ)
    → length tiff < 2 ^ 32
    → (fuel : ℕ) → length (write_png_chunk exif_type tiff ++ later) ≤ fuel
    → find_from fuel (write_png_chunk exif_type tiff ++ later) ≡ ok (some tiff)
unfolding write_png_chunk
written_found tiff later small zero enough = absurd (omega arith)
written_found tiff later small (suc fuel) enough = find_from-write_png_chunk fuel tiff later small

-- The written block stands behind a first chunk.
pub found_at_once :
    (tiff rest later out : List ℕ)
    → length tiff < 2 ^ 32
    → chunk_size rest ≤ length rest
    → text_eq (chunk_type rest) exif_type ≡ false
    → (take (chunk_size rest) rest ++ write_png_chunk exif_type tiff) ++ later ≡ out
    → (fuel : ℕ) → length out ≤ fuel
    → find_from fuel out ≡ ok (some tiff)
found_at_once tiff rest later out small h k e fuel enough =
    found_after_chunk tiff rest (write_png_chunk exif_type tiff ++ later) out h k
      (written_found tiff later small)
      (sym (append_assoc (take (chunk_size rest) rest) (write_png_chunk exif_type tiff) later) ∙ e)
      fuel enough
