-- ===== src/Heic/File.antt =====
-- The dimensions of a written HEIC file, whatever stands before and behind its `meta` box.
use mathlib.Core.List.{append_assoc}
use photo_viewer.Base.{
  ℕ, zero, suc, ◌+◌, ◌-◌, ◌≤◌, ◌<◌, ◌≡◌, refl, sym, ap, ◌∙◌, false, Option, some, List, [], ◌∷◌,
  ◌++◌, ◌==◌, ◌>>=◌, arith, length, take, drop, length-append, le→leb,
}
use photo_viewer.Base.Text.{ascii, text_eq}
use photo_viewer.Exif.{from_be_bytes, to_be_bytes}
use photo_viewer.Exif.Bytes.{take-append_all, from_be_bytes-to_be_bytes}
use photo_viewer.Heic.{
  Bytes, get_range, get_from, u32_at, box_header, usize_max, meta_at, meta_from, find_meta_body,
}
use photo_viewer.Heic.Properties.{children_from, dims_in, extract_heic_dims}
use photo_viewer.Heic.Boxes.{Box, size, IsBox, encode, encode_all, AllBoxes, length-encode}
use photo_viewer.Heic.Photo.{Photo, IsPhoto, photo_children, nothing, zeros, children_from-photo}

drop-behind : (pre d : Bytes) (a i : ℕ) → i ≡ length pre + a → drop i (pre ++ d) ≡ drop a d
drop-behind [] d a i e = ap (λ m. drop m d) (omega arith)
drop-behind (x ∷ pre) d a zero e = absurd (omega arith)
drop-behind (x ∷ pre) d a (suc i) e = drop-behind pre d a i (omega arith)

-- Reading behind what stands before.
get_range-behind :
    (pre d : Bytes) (a b i j : ℕ)
    → i ≡ length pre + a
    → j ≡ length pre + b
    → b ≤ length d
    → a ≤ b
    → get_range i j (pre ++ d) ≡ some (take (b - a) (drop a d))
get_range-behind pre d a b i j ei ej fits le =
    let width : j - i ≡ b - a = omega arith in
    rw
      (
        le→leb i j (omega arith),
        le→leb j (length (pre ++ d)) (omega (arith, length-append pre d)),
        width,
        drop-behind pre d a i ei,
      )
      refl

eq_far : (a b : ℕ) → b < a → (a == b) ≡ false
eq_far a b h = ground arith

header_of :
    (file typ : Bytes) (off s : ℕ)
    → u32_at file off ≡ some s
    → get_range (off + 4) (off + 8) file ≡ some typ
    → 8 ≤ s
    → box_header file off ≡ some (s, typ, 8)
unfolding box_header
header_of file typ off s h k le = rw (h, k, eq_far s 1 (omega arith), eq_far s 0 (omega arith)) refl

u32_at-range :
    (file b : Bytes) (off : ℕ)
    → get_range off (off + 4) file ≡ some b
    → u32_at file off ≡ some (from_be_bytes b)
unfolding u32_at
u32_at-range file b off h = ap (λ o. o >>= λ x. some (from_be_bytes x)) h

box_header-encode :
    (pre tail : Bytes) (b : Box)
    → IsBox b
    → box_header (pre ++ (encode b ++ tail)) (length pre) ≡ some (size b, b.typ, 8)
box_header-encode pre tail b h =
    let off = length pre in
    let d = encode b ++ tail in
    let long : 8 ≤ length d = omega (arith, length-encode b h, length-append (encode b) tail) in
    header_of (pre ++ d) b.typ off (size b)
      (u32_at-range (pre ++ d) (to_be_bytes (size b)) off
          (get_range-behind pre d 0 4 off (off + 4) (omega arith) refl (omega arith) (omega arith))
        ∙ ap some (from_be_bytes-to_be_bytes (size b) h.small))
      (get_range-behind pre d 4 8 (off + 4) (off + 8) refl refl long (omega arith)
        ∙ ap (λ x. some (take 4 x)) (append_assoc b.typ b.payload tail)
        ∙ ap some (take-append_all 4 b.typ (b.payload ++ tail) h.typed))
      (omega arith)

abbrev pub NoMeta : List Box → Type 0
NoMeta [] = Unit
NoMeta (b ∷ bs) = (text_eq b.typ (ascii "meta") ≡ false) × NoMeta bs

meta_at-passed :
    (later : ℕ → Option Bytes) (file typ : Bytes) (off s : ℕ)
    → text_eq typ (ascii "meta") ≡ false
    → 0 < s
    → off + s ≤ usize_max
    → meta_at later file off (some (s, typ, 8)) ≡ later (off + s)
unfolding meta_at
meta_at-passed later file typ off s h k l = rw (h, eq_far s 0 k, le→leb (off + s) usize_max l) refl

meta_at-found :
    (later : ℕ → Option Bytes) (file : Bytes) (off s : ℕ)
    → meta_at later file off (some (s, ascii "meta", 8)) ≡ get_range (off + 8) (off + s) file
unfolding meta_at text_eq
meta_at-found later file off s = refl

meta_from-round :
    (fuel : ℕ) (file : Bytes) (off : ℕ)
    → meta_from (suc fuel) file off
      ≡ meta_at (λ next. meta_from fuel file next) file off (box_header file off)
unfolding meta_from
meta_from-round fuel file off = refl

abbrev pub meta_box : Bytes → Box
meta_box payload = record { typ = ascii "meta"; payload = payload }

meta_from-walk :
    (front : List Box) (pre payload tail file : Bytes) (fuel off : ℕ)
    → file ≡ pre ++ (encode_all front ++ (encode (meta_box payload) ++ tail))
    → off ≡ length pre
    → AllBoxes front
    → NoMeta front
    → IsBox (meta_box payload)
    → length pre + length (encode_all front) ≤ usize_max
    → length front < fuel
    → meta_from fuel file off ≡ some payload
meta_from-walk front pre payload tail file zero off e o all clear m fits enough =
    absurd (omega arith)
meta_from-walk [] pre payload tail file (suc fuel) off e o all _ m fits enough =
    let b = meta_box payload in
    let d = encode b ++ tail in
    let long = length-encode b m in
    let more = length-append (encode b) tail in
    meta_from-round fuel file off
    ∙ ap (meta_at (λ next. meta_from fuel file next) file off) (
        ap (λ x. box_header x off) e
        ∙ ap (box_header (pre ++ d)) o
        ∙ box_header-encode pre tail b m)
    ∙ meta_at-found (λ next. meta_from fuel file next) file off (size b)
    ∙ ap (get_range (off + 8) (off + size b)) e
    ∙ get_range-behind pre d 8 (size b) (off + 8) (off + size b) (omega arith) (omega arith)
        (omega (arith, long, more)) (omega arith)
    ∙ ap some (take-append_all (size b - 8) payload tail (omega arith))
meta_from-walk (b ∷ front) pre payload tail file (suc fuel) off e o (h, all) (other, clear) m fits
      enough =
    let d = encode_all front ++ (encode (meta_box payload) ++ tail) in
    let long = length-encode b h in
    let more = length-append (encode b) (encode_all front) in
    let next = length-append pre (encode b) in
    let split : file ≡ pre ++ (encode b ++ d) =
      e
      ∙ ap (λ x. pre ++ x)
          (append_assoc (encode b) (encode_all front) (encode (meta_box payload) ++ tail)) in
    meta_from-round fuel file off
    ∙ ap (meta_at (λ next. meta_from fuel file next) file off) (
        ap (λ x. box_header x off) split
        ∙ ap (box_header (pre ++ (encode b ++ d))) o
        ∙ box_header-encode pre d b h)
    ∙ meta_at-passed (λ next. meta_from fuel file next) file b.typ off (size b) other (omega arith)
        (omega (arith, long, more))
    ∙ meta_from-walk front (pre ++ encode b) payload tail file fuel (off + size b)
        (split ∙ sym (append_assoc pre (encode b) d)) (omega (arith, long, next)) all clear m
        (omega (arith, long, more, next)) (omega arith)

length-front : (bs : List Box) → AllBoxes bs → length bs ≤ length (encode_all bs)
length-front [] h = omega arith
length-front (b ∷ bs) (h, rest) =
    omega (arith, length-encode b h, length-append (encode b) (encode_all bs), length-front bs rest)

abbrev pub meta_payload : Photo → Bytes
meta_payload p = zeros ++ encode_all (photo_children p)

-- A file with any boxes but `meta` before the `meta` box of a photo, and any bytes behind it.
abbrev pub photo_file : List Box → Photo → Bytes → Bytes
photo_file front p tail = encode_all front ++ (encode (meta_box (meta_payload p)) ++ tail)

-- A file with any boxes but `meta` before its `meta` box, and any bytes behind it.
abbrev pub meta_file : List Box → Bytes → Bytes → Bytes
meta_file front payload tail = encode_all front ++ (encode (meta_box payload) ++ tail)

pub find_meta_body-meta_file :
    (front : List Box) (payload tail : Bytes)
    → AllBoxes front
    → NoMeta front
    → IsBox (meta_box payload)
    → length (encode_all front) ≤ usize_max
    → find_meta_body (meta_file front payload tail) ≡ some payload
unfolding find_meta_body
find_meta_body-meta_file front payload tail all clear m fits =
    let file = meta_file front payload tail in
    meta_from-walk front [] payload tail file (suc (length file)) 0 refl refl all clear m
      (omega arith)
      (omega (
        arith,
        length-front front all,
        length-append (encode_all front) (encode (meta_box payload) ++ tail),
      ))

get_from-zeros : (rest : Bytes) → get_from 4 (zeros ++ rest) ≡ some rest
get_from-zeros rest = rw (le→leb 4 (length (zeros ++ rest)) (omega arith)) refl

-- The dimensions of a written HEIC file are read back: where boxes other than `meta` stand in front,
-- and `meta` has the number of the photo, a list of properties, the dimensions among them and
-- associated with the photo, and any other boxes, whatever bytes follow.
pub extract_heic_dims-photo_file :
    (front : List Box) (p : Photo) (tail : Bytes)
    → IsPhoto p
    → AllBoxes front
    → NoMeta front
    → IsBox (meta_box (meta_payload p))
    → length (encode_all front) ≤ usize_max
    → extract_heic_dims (photo_file front p tail) ≡ some (p.width, p.height)
unfolding extract_heic_dims
extract_heic_dims-photo_file front p tail h all clear m fits =
    ap
      (λ o.
        o >>= λ body. get_from 4 body >>= λ cur. children_from (length cur) cur nothing >>= dims_in)
      (find_meta_body-meta_file front (meta_payload p) tail all clear m fits)
    ∙ ap (λ o. o >>= λ cur. children_from (length cur) cur nothing >>= dims_in)
        (get_from-zeros (encode_all (photo_children p)))
    ∙ children_from-photo p h (encode_all (photo_children p)) refl
