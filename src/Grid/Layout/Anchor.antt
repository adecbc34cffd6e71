-- ===== src/Grid/Layout/Anchor.antt =====
-- The anchor of a slot: the media item, and the date section, that a viewport shows there.
use photo_viewer.Base.{
  ℕ, ◌+◌, ◌-◌, ◌≤◌, ◌<◌, ◌≡◌, ◌⊎◌, inl, inr, none, some, arith, dec_lt, get_elem?,
}
use photo_viewer.Grid.Layout.{
  SectionSpan, VirtualGridLayoutIndex, span_for_slot, span_for_media_offset, section_for_slot,
  section_for_media_offset, anchor_media_offset_for_slot, media_offset_at_slot,
}
use photo_viewer.Grid.Layout.Tiles.{IsLayout, slot_covered}
use photo_viewer.Grid.Layout.Lookup.{
  span_index_for_slot-found, span_index_for_media_offset-found, media_fits, slot_at-media,
  slot_at-filler,
}

module _ (self : VirtualGridLayoutIndex) (w : IsLayout self) (i : ℕ) (span : SectionSpan)
    (found : get_elem? self.sections i ≡ some span) where
  span_for_slot-found :
      (position : ℕ)
      → span.slot_start ≤ position
      → position < span.slot_start + span.slot_len
      → span_for_slot self position ≡ some span
  unfolding span_for_slot
  span_for_slot-found position h k =
      rw (span_index_for_slot-found self w position i span found h k) found

  span_for_media_offset-found :
      (offset : ℕ)
      → span.media_start ≤ offset
      → offset < span.media_start + span.media_len
      → span_for_media_offset self offset ≡ some span
  unfolding span_for_media_offset
  span_for_media_offset-found offset h k =
      rw (span_index_for_media_offset-found self w offset i span found h k) found

-- In a well-formed layout every slot has an anchor. It is a media offset of the date section that
-- the slot belongs to: the slot's own media, and at a filler the last media of the section.
pub anchor_media_offset_for_slot_total :
    (self : VirtualGridLayoutIndex) (position : ℕ)
    → IsLayout self
    → position < self.slot_count
    → (offset : ℕ) × (span : SectionSpan) × (anchor_media_offset_for_slot self position
        ≡ some offset)
      × (span_for_slot self position ≡ some span)
      × (section_for_slot self position ≡ some span.key)
      × (section_for_media_offset self offset ≡ some span.key)
      × ((media_offset_at_slot self position ≡ some offset)
          ⊎ ((media_offset_at_slot self position ≡ none)
              × (offset + 1 ≡ span.media_start + span.media_len)))
unfolding anchor_media_offset_for_slot section_for_slot section_for_media_offset
    media_offset_at_slot
anchor_media_offset_for_slot_total self position w h =
    let (i, span, at, from, to) =
      slot_covered 0 0 self.sections self.media_count self.slot_count position w.tiles (omega arith)
        h in
    let k = position - span.slot_start in
    let here = span_for_slot-found self w i span at.found position from to in
    let fits = media_fits self w in
    elim (dec_lt (position - span.slot_start) span.media_len) [
      | yes p ↦
          let offset = span.media_start + (position - span.slot_start) in
          let there =
            span_for_media_offset-found self w i span at.found offset (omega arith) (omega arith) in
          let shown = slot_at-media self w i span k at.found p in
          (
            offset,
            span,
            ground (arith, here, at, fits),
            here,
            ground (arith, here),
            ground (arith, there),
            inl (ground (arith, shown)),
          )
      | no p ↦
          let offset = span.media_start + span.media_len - 1 in
          let there =
            span_for_media_offset-found self w i span at.found offset (omega (arith, at))
              (omega (arith, at)) in
          let shown = slot_at-filler self w i span k at.found (omega arith) (omega arith) in
          (
            offset,
            span,
            ground (arith, here, at, fits),
            here,
            ground (arith, here),
            ground (arith, there),
            inr (ground (arith, shown), omega (arith, at)),
          )
    ]
