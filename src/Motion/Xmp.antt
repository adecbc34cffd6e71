-- ===== src/Motion/Xmp.antt =====
-- The walk over the segments of a JPEG head, and the loop over the items of its XMP text.
use photo_viewer.Base.{
  ℕ, zero, suc, ◌+◌, ◌-◌, ◌≤◌, ◌<◌, ◌≡◌, refl, sym, ap, ◌∙◌, Bool, true, false, not, Option, none,
  some, List, [], ◌∷◌, ◌||◌, ltb, ◌==◌, if◌then◌else◌, arith, guarded, length, take, drop, subst,
  ◌↔◌,
}
use photo_viewer.Base.Text.{text_eq}
use photo_viewer.Base.Bytes.{starts_with}
use photo_viewer.Exif.{err}
use photo_viewer.Motion.{
  byte_at, ends_metadata, segment_len, is_xmp_segment, xmp_app1_sig, xmp_from,
  find_xmp_payload_range, detect_in_range, detect_in_head, bad_slice,
}

-- A round of the walk.
abbrev next_segment : List ℕ → ℕ → ℕ
next_segment bytes pos = pos + 2 + segment_len bytes pos

abbrev stops : List ℕ → ℕ → Bool
stops bytes pos =
    ltb (length bytes) (pos + 4)
    || not (byte_at bytes pos == 255)
    || ends_metadata (byte_at bytes (pos + 1))
    || ltb (segment_len bytes pos) 2
    || ltb (length bytes) (next_segment bytes pos)

xmp_from-round :
    (fuel : ℕ) (bytes : List ℕ) (pos : ℕ)
    → xmp_from (suc fuel) bytes pos ≡ (
        if stops bytes pos
        then none
        else if is_xmp_segment bytes pos
        then some (pos + 4 + length xmp_app1_sig, next_segment bytes pos)
        else xmp_from fuel bytes (next_segment bytes pos))
unfolding xmp_from
xmp_from-round fuel bytes pos = ground arith

-- What the walk finds from a segment on.
pub record IsPayload (bytes : List ℕ) (start finish : ℕ) : Type 0 where
  marked : starts_with (drop (start - length xmp_app1_sig) bytes) xmp_app1_sig ≡ true
  behind : length xmp_app1_sig ≤ start
  near : start ≤ finish + length xmp_app1_sig
  within : finish ≤ length bytes

xmp_segment-IsPayload :
    (bytes : List ℕ) (pos : ℕ)
    → stops bytes pos ≡ false
    → is_xmp_segment bytes pos ≡ true
    → IsPayload bytes (pos + 4 + length xmp_app1_sig) (next_segment bytes pos)
xmp_segment-IsPayload bytes pos h k =
    let back : pos + 4 + length xmp_app1_sig - length xmp_app1_sig ≡ pos + 4 = omega arith in
    record {
      marked = ap (λ p. starts_with (drop p bytes) xmp_app1_sig) back ∙ ground arith;
      behind = omega arith;
      near = ground arith;
      within = ground arith;
    }

xmp_from-zero : (bytes : List ℕ) (pos : ℕ) → xmp_from zero bytes pos ≡ none
unfolding xmp_from
xmp_from-zero bytes pos = refl

-- What a round finds, itself or by those after it.
round-IsPayload :
    (bytes : List ℕ) (pos : ℕ) (later : Option (ℕ × ℕ)) (start finish : ℕ) (stop xmp : Bool)
    → stops bytes pos ≡ stop
    → is_xmp_segment bytes pos ≡ xmp
    → (later ≡ some (start, finish) → IsPayload bytes start finish)
    → (if stop
        then none
        else if xmp
        then some (pos + 4 + length xmp_app1_sig, next_segment bytes pos)
        else later)
      ≡ some (start, finish)
    → IsPayload bytes start finish
round-IsPayload bytes pos later start finish true xmp s x after h = absurd cc
round-IsPayload bytes pos later start finish false false s x after h = after h
round-IsPayload bytes pos later start finish false true s x after h =
    subst (λ i. IsPayload bytes i finish) (ground arith)
      (subst (λ i. IsPayload bytes (pos + 4 + length xmp_app1_sig) i) (ground arith)
        (xmp_segment-IsPayload bytes pos s x))

xmp_from-IsPayload :
    (fuel : ℕ) (bytes : List ℕ) (pos start finish : ℕ)
    → xmp_from fuel bytes pos ≡ some (start, finish)
    → IsPayload bytes start finish
xmp_from-IsPayload zero bytes pos start finish h = absurd (ground (arith, xmp_from-zero bytes pos))
xmp_from-IsPayload (suc fuel) bytes pos start finish h =
    round-IsPayload bytes pos (xmp_from fuel bytes (next_segment bytes pos)) start finish
      (stops bytes pos) (is_xmp_segment bytes pos) refl refl
      (xmp_from-IsPayload fuel bytes (next_segment bytes pos) start finish)
      (sym (xmp_from-round fuel bytes pos) ∙ h)

xmp_from-short :
    (fuel : ℕ) (bytes : List ℕ) (pos : ℕ) → length bytes < pos + 4 → xmp_from fuel bytes pos ≡ none
xmp_from-short zero bytes pos h = xmp_from-zero bytes pos
xmp_from-short (suc fuel) bytes pos h = ground (arith, xmp_from-round fuel bytes pos)

same_round :
    (bytes : List ℕ) (pos : ℕ) (a b : Option (ℕ × ℕ)) (stop xmp : Bool)
    → stops bytes pos ≡ stop
    → (stops bytes pos ≡ false → a ≡ b)
    → (if stop
        then none
        else if xmp
        then some (pos + 4 + length xmp_app1_sig, next_segment bytes pos)
        else a)
      ≡ (if stop
          then none
          else if xmp
          then some (pos + 4 + length xmp_app1_sig, next_segment bytes pos)
          else b)
same_round bytes pos a b true xmp s same = refl
same_round bytes pos a b false true s same = refl
same_round bytes pos a b false false s same = same s

-- Enough fuel for the walk is one unit for each byte behind the position.
pub xmp_from-fuel :
    (fuel more : ℕ) (bytes : List ℕ) (pos : ℕ)
    → length bytes ≤ fuel + pos
    → fuel ≤ more
    → xmp_from more bytes pos ≡ xmp_from fuel bytes pos
xmp_from-fuel zero more bytes pos enough le =
    xmp_from-short more bytes pos (omega arith) ∙ sym (xmp_from-zero bytes pos)
xmp_from-fuel (suc fuel) zero bytes pos enough le = absurd (omega arith)
xmp_from-fuel (suc fuel) (suc more) bytes pos enough le =
    xmp_from-round more bytes pos
    ∙ same_round bytes pos (xmp_from more bytes (next_segment bytes pos))
        (xmp_from fuel bytes (next_segment bytes pos)) (stops bytes pos) (is_xmp_segment bytes pos)
        refl
        (λ go. xmp_from-fuel fuel more bytes (next_segment bytes pos) (ground arith) (omega arith))
    ∙ sym (xmp_from-round fuel bytes pos)

find_xmp_payload_range-IsPayload :
    (bytes : List ℕ) (start finish : ℕ)
    → find_xmp_payload_range bytes ≡ some (start, finish)
    → IsPayload bytes start finish
unfolding find_xmp_payload_range
find_xmp_payload_range-IsPayload bytes start finish h =
    xmp_from-IsPayload (length bytes) bytes 2 start finish (
      (guarded (ltb (length bytes) 4 || not (text_eq (take 2 bytes) (255 ∷ 216 ∷ [])))
        (xmp_from (length bytes) bytes 2) (start, finish) h).1)

in_range-panics :
    (file : Option (List ℕ)) (head : List ℕ) (file_len : ℕ) (xmp : Option (ℕ × ℕ))
    → ((start finish : ℕ) → xmp ≡ some (start, finish) → finish ≤ length head)
    → detect_in_range file head file_len xmp ≡ err bad_slice
    → (start : ℕ) × (finish : ℕ) × (xmp ≡ some (start, finish)) × (finish < start)
in_range-panics file head file_len none within h = absurd (ground arith)
in_range-panics file head file_len (some (start, finish)) within h =
    (start, finish, refl, ground (arith, within start finish refl))

panics-in_range :
    (file : Option (List ℕ)) (head : List ℕ) (file_len start finish : ℕ)
    → finish < start
    → detect_in_range file head file_len (some (start, finish)) ≡ err bad_slice
panics-in_range file head file_len start finish h = ground arith

-- Detection in a head panics exactly where the range found for the XMP payload ends before its start.
-- The range then stands as every range found: the XMP signature ends where it starts, it ends within
-- the head, and its start is at most the length of the signature behind its end.
pub detect_in_head-panics :
    (file : Option (List ℕ)) (head : List ℕ) (file_len : ℕ)
    → (detect_in_head file head file_len ≡ err bad_slice) ↔ (
        (start : ℕ) × (finish : ℕ) × (find_xmp_payload_range head ≡ some (start, finish))
        × IsPayload head start finish
        × (finish < start))
unfolding detect_in_head
detect_in_head-panics file head file_len = (
  λ h.
      let (start, finish, found, short) =
        in_range-panics file head file_len (find_xmp_payload_range head)
          (λ start finish found. (find_xmp_payload_range-IsPayload head start finish found).within)
          h in
      (start, finish, found, find_xmp_payload_range-IsPayload head start finish found, short),
  λ (start, finish, found, _, short).
      ap (detect_in_range file head file_len) found
      ∙ panics-in_range file head file_len start finish short,
)
