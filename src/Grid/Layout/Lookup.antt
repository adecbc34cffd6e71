-- ===== src/Grid/Layout/Lookup.antt =====
-- The lookups of a well-formed layout, in both directions.
use photo_viewer.Base.{ℕ, ◌+◌, ◌≤◌, ◌<◌, ◌≡◌, some, arith, get_elem?}
use photo_viewer.Base.U32.{u32_max}
use photo_viewer.Grid.Layout.{
  SectionSpan, media_offset, filler, VirtualGridLayoutIndex, span_index_for_slot,
  span_index_for_media_offset, slot_at, slot_for_media_offset,
}
use photo_viewer.Grid.Layout.Tiles.{
  IsLayout, SpanAt, SpanAt-of_found, partition_point-slot, partition_point-media,
  Tiles-media_le_slots,
}

module _ (self : VirtualGridLayoutIndex) (w : IsLayout self) where
  -- A span of the layout, by its index.
  abbrev pub Span : ℕ → SectionSpan → Type 0
  Span i span = SpanAt self.sections i span 0 0 self.media_count self.slot_count

  pub Span-of_found :
      (i : ℕ) (span : SectionSpan) → get_elem? self.sections i ≡ some span → Span i span
  Span-of_found i span e =
      SpanAt-of_found 0 0 self.sections self.media_count self.slot_count i span w.tiles e

  pub media_fits : self.media_count ≤ u32_max
  media_fits = omega (
    arith,
    w.slots_fit,
    Tiles-media_le_slots 0 0 self.sections self.media_count self.slot_count (omega arith) w.tiles,
  )

  pub span_index_for_slot-found :
      (position i : ℕ) (span : SectionSpan)
      → get_elem? self.sections i ≡ some span
      → span.slot_start ≤ position
      → position < span.slot_start + span.slot_len
      → span_index_for_slot self position ≡ some i
  unfolding span_index_for_slot
  span_index_for_slot-found position i span e h k = ground (
    arith,
    w.slots_fit,
    Span-of_found i span e,
    partition_point-slot 0 0 self.sections self.media_count self.slot_count position i span w.tiles,
  )

  pub span_index_for_media_offset-found :
      (offset i : ℕ) (span : SectionSpan)
      → get_elem? self.sections i ≡ some span
      → span.media_start ≤ offset
      → offset < span.media_start + span.media_len
      → span_index_for_media_offset self offset ≡ some i
  unfolding span_index_for_media_offset
  span_index_for_media_offset-found offset i span e h k = ground (
    arith,
    media_fits,
    Span-of_found i span e,
    partition_point-media 0 0 self.sections self.media_count self.slot_count offset i span w.tiles,
  )

  -- The three lookups at a slot that a span holds.
  pub slot_at-media :
      (i : ℕ) (span : SectionSpan) (k : ℕ)
      → get_elem? self.sections i ≡ some span
      → k < span.media_len
      → slot_at self (span.slot_start + k) ≡ some (media_offset (span.media_start + k))
  unfolding slot_at
  slot_at-media i span k e h =
      let at = Span-of_found i span e in
      ground (arith, at, media_fits, span_index_for_slot-found (span.slot_start + k) i span)

  pub slot_at-filler :
      (i : ℕ) (span : SectionSpan) (k : ℕ)
      → get_elem? self.sections i ≡ some span
      → span.media_len ≤ k
      → k < span.slot_len
      → slot_at self (span.slot_start + k) ≡ some (filler i)
  unfolding slot_at
  slot_at-filler i span k e h l =
      ground (arith, Span-of_found i span e, span_index_for_slot-found (span.slot_start + k) i span)

  pub slot_for_media_offset-media :
      (i : ℕ) (span : SectionSpan) (k : ℕ)
      → get_elem? self.sections i ≡ some span
      → k < span.media_len
      → slot_for_media_offset self (span.media_start + k) ≡ some (span.slot_start + k)
  unfolding slot_for_media_offset
  slot_for_media_offset-media i span k e h = ground (
    arith,
    w.slots_fit,
    Span-of_found i span e,
    span_index_for_media_offset-found (span.media_start + k) i span,
  )
