-- ===== src/Grid/Layout/Inserted.antt =====
-- The lookups after `insert_media_slot`.
use photo_viewer.Base.{
  ℕ, ◌+◌, ◌-◌, ◌≤◌, ◌<◌, ◌≡◌, refl, sym, ap, ◌∙◌, none, some, List, arith, get_elem?, dec_lt,
}
use photo_viewer.Base.U32.{u32_max}
use photo_viewer.Grid.Layout.{
  SectionSpan, VirtualGridLayoutIndex, slot_for_media_offset, span_index_for_media_offset,
  insert_media_slot, grow_span,
}
use photo_viewer.Grid.Layout.Tiles.{IsLayout, Tiles-media_le_slots, Tiles-ordered, media_covered}
use photo_viewer.Grid.Layout.Lookup.{slot_for_media_offset-media, Span-of_found}
use photo_viewer.Grid.Layout.Insert.{IsGrown, grow_span-total, lt-length_of_found, moved, grown}

slot_for_media_offset-past_end :
    (self : VirtualGridLayoutIndex) (offset : ℕ)
    → self.media_count ≤ offset
    → slot_for_media_offset self offset ≡ none
unfolding slot_for_media_offset span_index_for_media_offset
slot_for_media_offset-past_end self offset h = ground arith

pub insert_media_slot-runs :
    (self : VirtualGridLayoutIndex) (section : ℕ) (out : List SectionSpan)
    → self.media_count < u32_max
    → self.slot_count < u32_max
    → grow_span self.sections section ≡ some out
    → insert_media_slot self section
      ≡ some (record self {
        sections = out;
        media_count = self.media_count + 1;
        slot_count = self.slot_count + 1;
      })
unfolding insert_media_slot
insert_media_slot-runs self section out h k e = ground (arith, e)

module _ (self : VirtualGridLayoutIndex) (section : ℕ) (span : SectionSpan) (w : IsLayout self)
    (room : self.slot_count < u32_max) (e : get_elem? self.sections section ≡ some span)
    (out : List SectionSpan)
    (g : IsGrown 0 0 self.sections self.media_count self.slot_count section out) where
  abbrev next : VirtualGridLayoutIndex
  next = record self {
    sections = out;
    media_count = self.media_count + 1;
    slot_count = self.slot_count + 1;
  }

  next-IsLayout : IsLayout next
  next-IsLayout = record { columns_pos = w.columns_pos; tiles = g.tiles; slots_fit = omega arith }

  abbrev ordered :
      (i j : ℕ) (a b : SectionSpan)
      → i < j
      → get_elem? self.sections i ≡ some a
      → get_elem? self.sections j ≡ some b
      → (a.media_start + a.media_len ≤ b.media_start) × (a.slot_start + a.slot_len ≤ b.slot_start)
  ordered i j a b = Tiles-ordered 0 0 self.sections self.media_count self.slot_count i j a b w.tiles

  same_span :
      (j : ℕ) (x : SectionSpan)
      → get_elem? self.sections j ≡ some x
      → j ≡ section
      → some x ≡ some span
  same_span j x found same = sym found ∙ ap (get_elem? self.sections) same ∙ e

  slot_before :
      (offset : ℕ)
      → offset < span.media_start + span.media_len
      → slot_for_media_offset next offset ≡ slot_for_media_offset self offset
  slot_before offset h =
      let here = Span-of_found self w section span e in
      let (j, x, at, from, to) =
        media_covered 0 0 self.sections self.media_count self.slot_count offset w.tiles
          (omega arith) (omega (arith, here)) in
      let k = offset - x.media_start in
      let old = slot_for_media_offset-media self w j x k at.found (omega arith) in
      elim (dec_lt j section) [
        | yes p ↦
            let new =
              slot_for_media_offset-media next next-IsLayout j x k (g.before j x p at.found)
                (omega arith) in
            ground (arith, old, new)
        | no p ↦ elim (dec_lt section j) [
          | yes q ↦ absurd (omega (arith, ordered section j span x q e at.found))
          | no q ↦
              let same = same_span j x at.found (omega arith) in
              let new =
                slot_for_media_offset-media next next-IsLayout section (grown span)
                  (offset - span.media_start) (g.at span e) (omega arith) in
              ground (arith, old, new, same)
        ]
      ]

  slot_inserted :
      slot_for_media_offset next (span.media_start + span.media_len)
      ≡ some (span.slot_start + span.media_len)
  slot_inserted =
      slot_for_media_offset-media next next-IsLayout section (grown span) span.media_len
        (g.at span e) (omega arith)

  slot_after :
      (offset slot : ℕ)
      → span.media_start + span.media_len ≤ offset
      → slot_for_media_offset self offset ≡ some slot
      → slot_for_media_offset next (offset + 1) ≡ some (slot + 1)
  slot_after offset slot h found = elim (dec_lt offset self.media_count) [
    | yes below ↦
        let (j, x, at, from, to) =
          media_covered 0 0 self.sections self.media_count self.slot_count offset w.tiles
            (omega arith) below in
        let k = offset - x.media_start in
        let old = slot_for_media_offset-media self w j x k at.found (omega arith) in
        elim (dec_lt section j) [
          | yes p ↦
              let new =
                slot_for_media_offset-media next next-IsLayout j (moved x) k
                  (g.after j x p at.found) (omega arith) in
              ground (arith, old, new)
          | no p ↦ elim (dec_lt j section) [
            | yes q ↦ absurd (omega (arith, ordered j section x span q at.found e))
            | no q ↦ ground (arith, same_span j x at.found (omega arith))
          ]
        ]
    | no past ↦ ground (arith, slot_for_media_offset-past_end self offset)
  ]

-- Inserting into a section of a well-formed layout succeeds while media and slots can be counted.
-- The result is well formed, with one media and one slot more; the media up to the end of the section
-- keep their slots, the new one takes the slot behind them, and all later media move on by one slot.
pub insert_media_slot_total :
    (self : VirtualGridLayoutIndex) (section : ℕ) (span : SectionSpan)
    → IsLayout self
    → self.slot_count < u32_max
    → get_elem? self.sections section ≡ some span
    → (next : VirtualGridLayoutIndex) × (insert_media_slot self section ≡ some next)
      × IsLayout next
      × (next.media_count ≡ self.media_count + 1)
      × (next.slot_count ≡ self.slot_count + 1)
      × ((offset : ℕ)
          → offset < span.media_start + span.media_len
          → slot_for_media_offset next offset ≡ slot_for_media_offset self offset)
      × (slot_for_media_offset next (span.media_start + span.media_len)
          ≡ some (span.slot_start + span.media_len))
      × ((offset slot : ℕ)
          → span.media_start + span.media_len ≤ offset
          → slot_for_media_offset self offset ≡ some slot
          → slot_for_media_offset next (offset + 1) ≡ some (slot + 1))
insert_media_slot_total self section span w room e =
    let fewer =
      Tiles-media_le_slots 0 0 self.sections self.media_count self.slot_count (omega arith)
        w.tiles in
    let (out, g) =
      grow_span-total 0 0 self.sections self.media_count self.slot_count section w.tiles
        (omega arith) room (lt-length_of_found self.sections section span e) in
    (
      next self section span w room e out g,
      insert_media_slot-runs self section out (omega arith) room g.runs,
      next-IsLayout self section span w room e out g,
      refl,
      refl,
      slot_before self section span w room e out g,
      slot_inserted self section span w room e out g,
      slot_after self section span w room e out g,
    )
