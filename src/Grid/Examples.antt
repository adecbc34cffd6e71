-- ===== src/Grid/Examples.antt =====
-- Tests of the grid, and its theorems at a layout of two date sections.
use mathlib.Core.List.{Pairwise-pair}
use mathlib.Core.List.Perm
use mathlib.Core.HLevel.{¬_prop}
use photo_viewer.Base.{
  ℕ, ◌+◌, ◌≤◌, ◌<◌, ◌≡◌, ◌≢◌, ◌⊎◌, refl, ap, none, some, List, [], ◌∷◌, map, arith, get_elem?,
}
use photo_viewer.Base.Int.{pos}
use photo_viewer.Base.Order.{lex_lt}
use photo_viewer.Base.Sort.{sort_desc}
use photo_viewer.Grid.Section.{SectionKey, section_sort_key}
use photo_viewer.Grid.Layout.{
  SectionSpan, SectionCounts, VirtualGridLayoutIndex, media_offset, filler, new, slot_at,
  slot_for_media_offset, span_for_slot, section_for_slot, section_for_media_offset,
  media_offset_at_slot, anchor_media_offset_for_slot, insert_media_slot, span_index_for_slot,
}
use photo_viewer.Grid.Layout.Tiles.{IsLayout}
use photo_viewer.Grid.Layout.Build.{new-IsLayout}
use photo_viewer.Grid.Layout.Rows.{entry, total, AllInRows}
use photo_viewer.Grid.Layout.Sections.{IsOrdered, new_complete, new-perm}
use photo_viewer.Grid.Layout.Bijection.{media_offset_at_slot-slot_for_media_offset, slot_at_total}
use photo_viewer.Grid.Layout.Anchor.{anchor_media_offset_for_slot_total}
use photo_viewer.Grid.Layout.Inserted.{insert_media_slot_total}

abbrev may_day : SectionKey
may_day = record { year = some (pos 2024); month = some 5; day = some 3 }

abbrev new_year : SectionKey
new_year = record { year = some (pos 2023); month = some 1; day = some 1 }

abbrev counts : SectionCounts
counts = (new_year, 2) ∷ (may_day, 4) ∷ []

-- Four media and two fillers, then two media and a filler.
abbrev spans : List SectionSpan
spans =
    record { key = may_day; media_start = 0; media_len = 4; slot_start = 0; slot_len = 6 }
    ∷ record { key = new_year; media_start = 4; media_len = 2; slot_start = 6; slot_len = 3 }
    ∷ []

abbrev sample : VirtualGridLayoutIndex
sample = record { columns = 3; sections = spans; media_count = 6; slot_count = 9 }

new-sample : new counts 3 ≡ sample
unfolding new section_sort_key sort_desc lex_lt
new-sample = refl

sample-IsLayout : IsLayout sample
sample-IsLayout = rw new-sample at (new-IsLayout counts 3)

new-IsLayout_example : IsLayout (new counts 3)
new-IsLayout_example = new-IsLayout counts 3

new_complete_example :
    IsOrdered counts (map entry (new counts 3).sections)
    × ((new counts 3).media_count ≡ total counts)
    × AllInRows (new counts 3).columns (new counts 3).sections
unfolding new section_sort_key sort_desc lex_lt
new_complete_example = new_complete counts 3 (omega arith)

new-perm_example : new counts 3 ≡ new ((may_day, 4) ∷ (new_year, 2) ∷ []) 3
new-perm_example = new-perm 3 (Perm.swap (may_day, 4) (new_year, 2) []) (
    (Pairwise-pair {R = λ (x y : SectionKey × ℕ). x.0 ≢ y.0} (λ a b. ¬_prop)).1
      (λ same. cc (ap (λ (key : SectionKey). key.month) same)))

media_offset_at_slot-slot_for_media_offset_example :
    (slot : ℕ) × (slot_for_media_offset sample 4 ≡ some slot)
    × (slot < sample.slot_count)
    × (media_offset_at_slot sample slot ≡ some 4)
media_offset_at_slot-slot_for_media_offset_example =
    media_offset_at_slot-slot_for_media_offset sample 4 sample-IsLayout (omega arith)

slot_at_total_example :
    ((offset : ℕ) × (slot_at sample 5 ≡ some (media_offset offset))
      × (offset < sample.media_count)
      × (slot_for_media_offset sample offset ≡ some 5))
    ⊎ ((section : ℕ) × (span : SectionSpan) × (slot_at sample 5 ≡ some (filler section))
        × (get_elem? sample.sections section ≡ some span)
        × (span.slot_start + span.media_len ≤ 5)
        × (5 < span.slot_start + span.slot_len))
slot_at_total_example = slot_at_total sample 5 sample-IsLayout (omega arith)

slot_at_filler : slot_at sample 5 ≡ some (filler 0)
unfolding slot_at span_index_for_slot
slot_at_filler = refl

anchor_media_offset_for_slot_total_example :
    (offset : ℕ) × (span : SectionSpan) × (anchor_media_offset_for_slot sample 5 ≡ some offset)
    × (span_for_slot sample 5 ≡ some span)
    × (section_for_slot sample 5 ≡ some span.key)
    × (section_for_media_offset sample offset ≡ some span.key)
    × ((media_offset_at_slot sample 5 ≡ some offset)
        ⊎ ((media_offset_at_slot sample 5 ≡ none)
            × (offset + 1 ≡ span.media_start + span.media_len)))
anchor_media_offset_for_slot_total_example =
    anchor_media_offset_for_slot_total sample 5 sample-IsLayout (omega arith)

abbrev may_span : SectionSpan
may_span = record { key = may_day; media_start = 0; media_len = 4; slot_start = 0; slot_len = 6 }

insert_media_slot_total_example :
    (next : VirtualGridLayoutIndex) × (insert_media_slot sample 0 ≡ some next)
    × IsLayout next
    × (next.media_count ≡ sample.media_count + 1)
    × (next.slot_count ≡ sample.slot_count + 1)
    × ((offset : ℕ)
        → offset < may_span.media_start + may_span.media_len
        → slot_for_media_offset next offset ≡ slot_for_media_offset sample offset)
    × (slot_for_media_offset next (may_span.media_start + may_span.media_len)
        ≡ some (may_span.slot_start + may_span.media_len))
    × ((offset slot : ℕ)
        → may_span.media_start + may_span.media_len ≤ offset
        → slot_for_media_offset sample offset ≡ some slot
        → slot_for_media_offset next (offset + 1) ≡ some (slot + 1))
insert_media_slot_total_example =
    insert_media_slot_total sample 0 may_span sample-IsLayout (omega arith) refl
