-- ===== src/Grid/Layout/Bijection.antt =====
-- Media offsets and media slots correspond one to one, in the same order.
use photo_viewer.Base.{
  ℕ, ◌+◌, ◌-◌, ◌≤◌, ◌<◌, ◌≡◌, ◌⊎◌, inl, inr, none, some, sym, ap, ◌∙◌, arith, dec_lt, get_elem?,
  min,
}
use photo_viewer.Grid.Layout.{
  SectionSpan, media_offset, filler, VirtualGridLayoutIndex, span_index_for_slot, slot_at,
  slot_for_media_offset, slot_for_media_offset_clamped, media_offset_at_slot,
}
use photo_viewer.Grid.Layout.Tiles.{IsLayout, slot_covered, media_covered, Tiles-ordered}
use photo_viewer.Grid.Layout.Lookup.{slot_at-media, slot_at-filler, slot_for_media_offset-media}

-- In a well-formed layout every media offset below the count has a slot below the slot count, and
-- that slot shows this media offset.
pub media_offset_at_slot-slot_for_media_offset :
    (self : VirtualGridLayoutIndex) (offset : ℕ)
    → IsLayout self
    → offset < self.media_count
    → (slot : ℕ) × (slot_for_media_offset self offset ≡ some slot)
      × (slot < self.slot_count)
      × (media_offset_at_slot self slot ≡ some offset)
unfolding media_offset_at_slot
media_offset_at_slot-slot_for_media_offset self offset w h =
    let (i, span, at, from, to) =
      media_covered 0 0 self.sections self.media_count self.slot_count offset w.tiles (omega arith)
        h in
    let back =
      slot_for_media_offset-media self w i span (offset - span.media_start) at.found
        (omega arith) in
    let forth = slot_at-media self w i span (offset - span.media_start) at.found (omega arith) in
    (
      span.slot_start + (offset - span.media_start),
      ground (arith, back),
      ground (arith, at),
      ground (arith, forth),
    )

-- What `slot_at` answers at a slot of a well-formed layout: a media offset below the count, whose
-- slot is this one, or a filler of a section, behind all media of that section.
pub slot_at_total :
    (self : VirtualGridLayoutIndex) (position : ℕ)
    → IsLayout self
    → position < self.slot_count
    → ((offset : ℕ) × (slot_at self position ≡ some (media_offset offset))
        × (offset < self.media_count)
        × (slot_for_media_offset self offset ≡ some position))
      ⊎ ((section : ℕ) × (span : SectionSpan) × (slot_at self position ≡ some (filler section))
          × (get_elem? self.sections section ≡ some span)
          × (span.slot_start + span.media_len ≤ position)
          × (position < span.slot_start + span.slot_len))
slot_at_total self position w h =
    let (i, span, at, from, to) =
      slot_covered 0 0 self.sections self.media_count self.slot_count position w.tiles (omega arith)
        h in
    let k = position - span.slot_start in
    elim (dec_lt (position - span.slot_start) span.media_len) [
      | yes p ↦
          let forth = slot_at-media self w i span k at.found p in
          let back = slot_for_media_offset-media self w i span k at.found p in
          inl
            (span.media_start + k, ground (arith, forth), ground (arith, at), ground (arith, back))
      | no p ↦
          let forth = slot_at-filler self w i span k at.found (omega arith) (omega arith) in
          inr (i, span, ground (arith, forth), at.found, omega arith, to)
    ]

-- A slot past the end shows nothing, in any layout.
pub slot_at-past_end :
    (self : VirtualGridLayoutIndex) (position : ℕ)
    → self.slot_count ≤ position
    → slot_at self position ≡ none
unfolding slot_at span_index_for_slot
slot_at-past_end self position h = ground arith

-- In a well-formed layout a slot that shows a media offset is the slot of that media offset.
slot_for_media_offset-media_offset_at_slot :
    (self : VirtualGridLayoutIndex) (position offset : ℕ)
    → IsLayout self
    → media_offset_at_slot self position ≡ some offset
    → slot_for_media_offset self offset ≡ some position
unfolding media_offset_at_slot
slot_for_media_offset-media_offset_at_slot self position offset w h =
    elim (dec_lt position self.slot_count) [
      | yes p ↦ elim (slot_at_total self position w p) [
        | inl (o, at, below, back) ↦ ground (arith, at, back)
        | inr (section, span, at, found, from, to) ↦ ground (arith, at)
      ]
      | no p ↦ ground (arith, slot_at-past_end self position (omega arith))
    ]

-- In a well-formed layout later media stand in later slots.
slot_for_media_offset_mono :
    (self : VirtualGridLayoutIndex) (a b slot_a slot_b : ℕ)
    → IsLayout self
    → a < b
    → b < self.media_count
    → slot_for_media_offset self a ≡ some slot_a
    → slot_for_media_offset self b ≡ some slot_b
    → slot_a < slot_b
slot_for_media_offset_mono self a b slot_a slot_b w h k ea eb =
    let (i, x, at_x, from_x, to_x) =
      media_covered 0 0 self.sections self.media_count self.slot_count a w.tiles (omega arith)
        (omega arith) in
    let (j, y, at_y, from_y, to_y) =
      media_covered 0 0 self.sections self.media_count self.slot_count b w.tiles (omega arith) k in
    let slot_x =
      slot_for_media_offset-media self w i x (a - x.media_start) at_x.found (omega arith) in
    let slot_y =
      slot_for_media_offset-media self w j y (b - y.media_start) at_y.found (omega arith) in
    let ordered = Tiles-ordered 0 0 self.sections self.media_count self.slot_count in
    elim (dec_lt i j) [
      | yes p ↦
          ground
            (arith, slot_x, slot_y, at_x, at_y, ordered i j x y w.tiles p at_x.found at_y.found)
      | no p ↦ elim (dec_lt j i) [
        | yes q ↦ absurd (omega (arith, ordered j i y x w.tiles q at_y.found at_x.found))
        | no q ↦
            let same : i ≡ j = omega arith in
            let span_same : some x ≡ some y =
              sym at_x.found ∙ ap (get_elem? self.sections) same ∙ at_y.found in
            ground (arith, slot_x, slot_y, span_same)
      ]
    ]

-- In a layout with media, an offset past the library is answered by the slot of the last media,
-- and every other offset by its own slot.
slot_for_media_offset_clamped_total :
    (self : VirtualGridLayoutIndex) (offset : ℕ)
    → IsLayout self
    → 0 < self.media_count
    → (slot : ℕ) × (slot_for_media_offset_clamped self offset ≡ some slot)
      × (media_offset_at_slot self slot ≡ some (min offset (self.media_count - 1)))
unfolding slot_for_media_offset_clamped
slot_for_media_offset_clamped_total self offset w h =
    let (slot, there, below, shown) =
      media_offset_at_slot-slot_for_media_offset self (min offset (self.media_count - 1)) w
        (omega arith) in
    (slot, ground (arith, there), shown)
