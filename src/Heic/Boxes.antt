-- ===== src/Heic/Boxes.antt =====
-- Boxes as a writer makes them, and how the cursor reads them back.
use photo_viewer.Base.{
  ℕ, zero, suc, ◌+◌, ◌^◌, ◌≤◌, ◌<◌, ◌≡◌, refl, ap, ◌∙◌, false, some, List, [], ◌∷◌, ◌++◌, ◌==◌,
  ◌>>=◌, arith, length, take, drop, length-append, le→leb,
}
use photo_viewer.Exif.{from_be_bytes, to_be_bytes}
use photo_viewer.Exif.Bytes.{take-append_all, drop-append, from_be_bytes-to_be_bytes}
use photo_viewer.Heic.{Bytes, get_from, box_at_start}
use photo_viewer.Heic.Properties.{boxes_from, parse_ipco_properties, typ_of}

pub record Box : Type 0 where
  pub typ : Bytes
  pub payload : Bytes

abbrev pub size : Box → ℕ
size b = length b.payload + 8

-- A type of four bytes, and a size in four bytes.
pub record IsBox (b : Box) : Type 0 where
  pub typed : length b.typ ≡ 4
  pub small : size b < 2 ^ 32

abbrev pub encode : Box → Bytes
encode b = to_be_bytes (size b) ++ b.typ ++ b.payload

abbrev pub encode_all : List Box → Bytes
encode_all [] = []
encode_all (b ∷ bs) = encode b ++ encode_all bs

abbrev pub encodings : List Box → List Bytes
encodings [] = []
encodings (b ∷ bs) = encode b ∷ encodings bs

abbrev pub AllBoxes : List Box → Type 0
AllBoxes [] = Unit
AllBoxes (b ∷ bs) = IsBox b × AllBoxes bs

pub length-encode : (b : Box) → IsBox b → length (encode b) ≡ size b
length-encode b h = omega (arith, h.typed, length-append b.typ b.payload)

eq_far : (a b : ℕ) → b < a → (a == b) ≡ false
eq_far a b h = ground arith

at_start :
    (cur : Bytes) (s : ℕ)
    → 8 ≤ s
    → s ≤ length cur
    → from_be_bytes (take 4 cur) ≡ s
    → box_at_start cur ≡ some (take s cur, drop s cur)
unfolding box_at_start
at_start cur s h k e =
    rw
      (
        le→leb 4 (length cur) (omega arith),
        e,
        eq_far s 0 (omega arith),
        eq_far s 1 (omega arith),
        le→leb 8 s h,
        le→leb s (length cur) k,
      )
      refl

-- A written box is read whole, whatever follows it.
pub box_at_start-encode :
    (b : Box) (rest : Bytes) → IsBox b → box_at_start (encode b ++ rest) ≡ some (encode b, rest)
box_at_start-encode b rest h =
    let cur = encode b ++ rest in
    let long = length-encode b h in
    let s = size b in
    at_start cur s (omega arith) (omega (arith, long, length-append (encode b) rest))
      (from_be_bytes-to_be_bytes s h.small)
    ∙ ap (λ x. some (x, drop s cur)) (take-append_all s (encode b) rest long)
    ∙ ap (λ x. some (encode b, x)) (drop-append s (encode b) rest long)

pub typ_of-encode : (b : Box) → IsBox b → typ_of (encode b) ≡ some b.typ
typ_of-encode b h =
    rw (le→leb 8 (length (encode b)) (omega (arith, length-encode b h)))
      (ap some (take-append_all 4 b.typ b.payload h.typed))

-- Reading on behind a written box.
boxes_from-encode :
    (fuel : ℕ) (b : Box) (rest : Bytes)
    → IsBox b
    → boxes_from (suc fuel) (encode b ++ rest)
      ≡ (boxes_from fuel rest >>= λ later. some (encode b ∷ later))
unfolding boxes_from
boxes_from-encode fuel b rest h =
    rw
      (
        le→leb 8 (length (encode b ++ rest))
            (omega (arith, length-encode b h, length-append (encode b) rest)),
        box_at_start-encode b rest h,
      )
      refl

boxes_from-empty : (fuel : ℕ) → boxes_from fuel [] ≡ some []
unfolding boxes_from
boxes_from-empty zero = refl
boxes_from-empty (suc fuel) = refl

boxes_from-encodings :
    (fuel : ℕ) (bs : List Box)
    → AllBoxes bs
    → length (encode_all bs) ≤ fuel
    → boxes_from fuel (encode_all bs) ≡ some (encodings bs)
boxes_from-encodings fuel [] h enough = boxes_from-empty fuel
boxes_from-encodings zero (b ∷ bs) (h, rest) enough =
    absurd (omega (arith, length-encode b h, length-append (encode b) (encode_all bs)))
boxes_from-encodings (suc fuel) (b ∷ bs) (h, rest) enough =
    boxes_from-encode fuel b (encode_all bs) h
    ∙ ap (λ o. o >>= λ later. some (encode b ∷ later))
        (boxes_from-encodings fuel bs rest
          (omega (arith, length-encode b h, length-append (encode b) (encode_all bs))))

-- The payload of a written box.
pub get_from-encode : (b : Box) → IsBox b → get_from 8 (encode b) ≡ some b.payload
get_from-encode b h =
    rw (le→leb 8 (length (encode b)) (omega (arith, length-encode b h)))
      (ap some (drop-append 4 b.typ b.payload h.typed))

pub parse_ipco_properties-encode :
    (bs : List Box)
    → AllBoxes bs
    → (b : Box) → IsBox b
    → b.payload ≡ encode_all bs
    → parse_ipco_properties (encode b) ≡ some (encodings bs)
unfolding parse_ipco_properties
parse_ipco_properties-encode bs all b h e =
    ap (λ o. o >>= λ cur. boxes_from (length cur) cur) (get_from-encode b h ∙ ap some e)
    ∙ boxes_from-encodings (length (encode_all bs)) bs all (omega arith)
