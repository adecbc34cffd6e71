-- ===== src/Grid/Layout.antt =====
-- src/ui/virtual_media_grid/layout_index.rs: the map between media offsets and grid slots.
pub mod Tiles
pub mod Build
pub mod Lookup
pub mod Rows
pub mod Sections
pub mod Inserted
pub mod Insert
pub mod Anchor
pub mod Bijection
use mathlib.Core.List.{filter}
use photo_viewer.Base.{
  ◌<◌, dec_lt, ℕ, zero, suc, ◌+◌, ◌-◌, ◌%◌, min, max, Bool, true, false, ◌&&◌, Option, none, some,
  List, [], ◌∷◌, ltb, leb, ◌==◌, if◌then◌else◌, get_elem?, partition_point, ◌>>=◌,
}
use photo_viewer.Base.U32.{u32_max, saturating_add, checked_add, checked_sub}
use photo_viewer.Base.Sort.{sort_desc}
use photo_viewer.Grid.Section.{SectionKey, SortKey, section_sort_key, sort_key_order}

pub record SectionSpan : Type 0 where
  pub key : SectionKey
  pub media_start : ℕ
  pub media_len : ℕ
  pub slot_start : ℕ
  pub slot_len : ℕ

abbrev pub media_end : SectionSpan → ℕ
media_end span = saturating_add span.media_start span.media_len

abbrev pub slot_end : SectionSpan → ℕ
slot_end span = saturating_add span.slot_start span.slot_len

unfoldable pub filler_len : SectionSpan → ℕ
filler_len span = span.slot_len - span.media_len

pub data GridSlot : Type 0 where
  media_offset : ℕ → GridSlot
  filler : ℕ → GridSlot

pub record VirtualGridLayoutIndex : Type 0 where
  pub columns : ℕ
  pub sections : List SectionSpan
  pub media_count : ℕ
  pub slot_count : ℕ

unfoldable pub default : VirtualGridLayoutIndex
default = record { columns = 1; sections = []; media_count = 0; slot_count = 0 }

unfoldable pub aligned_slot_len : ℕ → ℕ → ℕ
aligned_slot_len media_len columns =
    let remainder = media_len % columns in
    if remainder == 0 then media_len else saturating_add media_len (columns - remainder)

-- `HashMap<SectionKey, u32>` in some order of iteration; its keys are distinct.
abbrev pub SectionCounts : Type 0
SectionCounts = List (SectionKey × ℕ)

abbrev pub key_of : SectionKey × ℕ → SortKey
key_of (key, count) = section_sort_key key

abbrev pub is_nonempty : (section : SectionKey × ℕ) → Dec (0 < section.1)
is_nonempty section = dec_lt 0 section.1

-- `.filter(|(_, count)| **count > 0)`
unfoldable pub nonempty_sections : SectionCounts → SectionCounts
unfolding dec_lt
nonempty_sections counts = filter is_nonempty counts

-- `count.min(remaining_media).min(remaining_slots)`
unfoldable pub clipped_media_len : ℕ → ℕ → ℕ → ℕ
clipped_media_len media_start slot_start count =
    let remaining_media = u32_max - media_start in
    let remaining_slots = u32_max - slot_start in min (min count remaining_media) remaining_slots

-- `aligned_slot_len(media_len, columns).min(remaining_slots)`
unfoldable pub clipped_slot_len : ℕ → ℕ → ℕ → ℕ
unfolding aligned_slot_len
clipped_slot_len columns slot_start media_len =
    let remaining_slots = u32_max - slot_start in
    min (aligned_slot_len media_len columns) remaining_slots

-- The loop of `new`: the spans, then `media_start` and `slot_start` at its end.
unfoldable pub build_spans : ℕ → ℕ → ℕ → SectionCounts → List SectionSpan × ℕ × ℕ
unfolding clipped_media_len clipped_slot_len
build_spans columns media_start slot_start [] = ([], media_start, slot_start)
build_spans columns media_start slot_start ((key, count) ∷ rest) =
    let media_len = clipped_media_len media_start slot_start count in
    let slot_len = clipped_slot_len columns slot_start media_len in
    let later =
      build_spans columns (saturating_add media_start media_len)
        (saturating_add slot_start slot_len) rest in
    let span : SectionSpan = record {
      key = key;
      media_start = media_start;
      media_len = media_len;
      slot_start = slot_start;
      slot_len = slot_len;
    } in
    if media_len == 0 then ([], media_start, slot_start) else (span ∷ later.0, later.1, later.2)

unfoldable pub ordered_sections : SectionCounts → SectionCounts
unfolding nonempty_sections
ordered_sections counts = sort_desc sort_key_order key_of (nonempty_sections counts)

-- The rest of `new`, from the sorted sections on.
unfoldable pub lay_out : ℕ → SectionCounts → VirtualGridLayoutIndex
unfolding build_spans
lay_out columns ordered =
    let built = build_spans columns 0 0 ordered in
    record { columns = columns; sections = built.0; media_count = built.1; slot_count = built.2 }

unfoldable pub new : SectionCounts → ℕ → VirtualGridLayoutIndex
unfolding ordered_sections lay_out
new counts columns = lay_out (max columns 1) (ordered_sections counts)

-- `.skip(section + 1)`: both starts of each later span, if neither overflows.
unfoldable pub shift_spans : List SectionSpan → Option (List SectionSpan)
shift_spans [] = some []
shift_spans (later ∷ rest) =
    let shifted = shift_spans rest in
    do
      media ← checked_add later.media_start 1
      slot ← checked_add later.slot_start 1
      spans ← shifted
      some (record later { media_start = media; slot_start = slot } ∷ spans)

-- `sections.get_mut(section)?` grown by one media slot, and the spans after it moved.
unfoldable pub grow_span : List SectionSpan → ℕ → Option (List SectionSpan)
unfolding shift_spans
grow_span [] section = none
grow_span (span ∷ rest) zero = do
  media_len ← checked_add span.media_len 1
  slot_len ← checked_add span.slot_len 1
  later ← shift_spans rest
  some (record span { media_len = media_len; slot_len = slot_len } ∷ later)
grow_span (span ∷ rest) (suc section) =
    let grown = grow_span rest section in do spans ← grown; some (span ∷ spans)

unfoldable pub insert_media_slot : VirtualGridLayoutIndex → ℕ → Option VirtualGridLayoutIndex
unfolding grow_span
insert_media_slot self section = do
  sections ← grow_span self.sections section
  media_count ← checked_add self.media_count 1
  slot_count ← checked_add self.slot_count 1
  some (record self { sections = sections; media_count = media_count; slot_count = slot_count })

-- The tests of the two searches.
abbrev pub ends_by_slot : ℕ → SectionSpan → Bool
ends_by_slot position span = leb (slot_end span) position

abbrev pub ends_by_media : ℕ → SectionSpan → Bool
ends_by_media offset span = leb (media_end span) offset

unfoldable pub span_index_for_slot : VirtualGridLayoutIndex → ℕ → Option ℕ
span_index_for_slot self position =
    if leb self.slot_count position
    then none
    else let index = partition_point (ends_by_slot position) self.sections in
      do
        span ← get_elem? self.sections index
        if leb span.slot_start position && ltb position (slot_end span) then some index else none

unfoldable pub span_index_for_media_offset : VirtualGridLayoutIndex → ℕ → Option ℕ
span_index_for_media_offset self offset =
    if leb self.media_count offset
    then none
    else let index = partition_point (ends_by_media offset) self.sections in
      do
        span ← get_elem? self.sections index
        if leb span.media_start offset && ltb offset (media_end span) then some index else none

unfoldable pub slot_at : VirtualGridLayoutIndex → ℕ → Option GridSlot
slot_at self position = do
  section ← span_index_for_slot self position
  span ← get_elem? self.sections section
  let offset_in_section = position - span.slot_start
  some (
      if ltb offset_in_section span.media_len
      then media_offset (saturating_add span.media_start offset_in_section)
      else filler section)

unfoldable pub slot_for_media_offset : VirtualGridLayoutIndex → ℕ → Option ℕ
slot_for_media_offset self offset = do
  section ← span_index_for_media_offset self offset
  span ← get_elem? self.sections section
  some (saturating_add span.slot_start (offset - span.media_start))

unfoldable pub slot_for_media_offset_clamped : VirtualGridLayoutIndex → ℕ → Option ℕ
slot_for_media_offset_clamped self offset = do
  last_offset ← checked_sub self.media_count 1
  slot_for_media_offset self (min offset last_offset)

unfoldable pub span_for_slot : VirtualGridLayoutIndex → ℕ → Option SectionSpan
span_for_slot self position = do
  section ← span_index_for_slot self position
  get_elem? self.sections section

unfoldable pub span_for_media_offset : VirtualGridLayoutIndex → ℕ → Option SectionSpan
span_for_media_offset self offset = do
  section ← span_index_for_media_offset self offset
  get_elem? self.sections section

unfoldable pub section_for_slot : VirtualGridLayoutIndex → ℕ → Option SectionKey
section_for_slot self position = do span ← span_for_slot self position; some span.key

unfoldable pub section_for_media_offset : VirtualGridLayoutIndex → ℕ → Option SectionKey
section_for_media_offset self offset = do span ← span_for_media_offset self offset; some span.key

abbrev media_only : Option GridSlot → Option ℕ
media_only (some (media_offset offset)) = some offset
media_only (some (filler _)) = none
media_only none = none

unfoldable pub media_offset_at_slot : VirtualGridLayoutIndex → ℕ → Option ℕ
media_offset_at_slot self position = media_only (slot_at self position)

unfoldable pub anchor_media_offset_for_slot : VirtualGridLayoutIndex → ℕ → Option ℕ
anchor_media_offset_for_slot self position = do
  span ← span_for_slot self position
  let offset_in_section = position - span.slot_start
  if ltb offset_in_section span.media_len
      then some (saturating_add span.media_start offset_in_section)
      else checked_sub (media_end span) 1
