-- ===== src/Grid/Model/Inserting.antt =====
-- `insert_ready_item` of src/ui/virtual_media_grid/model.rs: one medium more, in a layout that has it.
pub mod Shifted
use photo_viewer.Base.{
  ℕ, zero, suc, ◌+◌, ◌-◌, ◌&&◌, Option, none, some, List, [], ◌∷◌, ltb, leb, if◌then◌else◌,
  get_elem?, ◌>>=◌,
}
use photo_viewer.Base.U32.{saturating_add}
use photo_viewer.Base.BTree.{BTreeMap, insert}
use photo_viewer.Grid.Section.{SectionKey}
use photo_viewer.Grid.Layout.{
  SectionSpan, media_end, slot_end, VirtualGridLayoutIndex, insert_media_slot,
}
use photo_viewer.Grid.Model.{ModelState, ItemsChanged}
use photo_viewer.Sections.{key_eq}

unfoldable pub find_media : ℕ → List SectionSpan → Option SectionSpan
find_media offset [] = none
find_media offset (span ∷ rest) =
    let later = find_media offset rest in
    if leb span.media_start offset && ltb offset (media_end span) then some span else later

-- `position` of the span with a key.
unfoldable pub position_of_key : SectionKey → List SectionSpan → Option ℕ
unfolding key_eq
position_of_key key [] = none
position_of_key key (span ∷ rest) =
    let later = position_of_key key rest in
    if key_eq span.key key then some 0 else (later >>= λ i. some (suc i))

-- The slot of an offset in its span.
abbrev pub start_in : SectionSpan → ℕ → ℕ
start_in section offset = saturating_add section.slot_start (offset - section.media_start)

-- The signal on the filler at the end of the section.
abbrev pub filler_signals : ℕ → ℕ → List ItemsChanged
filler_signals transient_end final_end =
    if ltb final_end transient_end
    then record { position = transient_end - 1; removed = 1; added = 0 } ∷ []
    else if ltb transient_end final_end
    then record { position = transient_end; removed = 0; added = final_end - transient_end } ∷ []
    else []

module _ {Item : Type 0} where
  -- An offset is below the number of media, so its successor is a u32.
  unfoldable pub shift_ready : ℕ → BTreeMap Item → BTreeMap Item
  shift_ready offset [] = []
  shift_ready offset ((old, item) ∷ rest) =
      (if leb offset old then old + 1 else old, item) ∷ shift_ready offset rest

  abbrev pub with_inserted : VirtualGridLayoutIndex → ℕ → Item → ModelState Item → ModelState Item
  with_inserted layout offset item state = record state {
    layout = layout;
    ready_by_offset = insert offset item (shift_ready offset state.ready_by_offset);
  }

  -- Into a section that the old layout has, with the transient layout and the span it gives the section.
  abbrev pub insert_grown :
      VirtualGridLayoutIndex
      → ℕ
      → Item
      → ModelState Item
      → SectionSpan
      → ℕ
      → Option VirtualGridLayoutIndex
      → Option (ModelState Item × List ItemsChanged)
  insert_grown layout offset item state section index none = some (state, [])
  insert_grown layout offset item state section index (some transient) =
      get_elem? transient.sections index >>= λ last. some (
        with_inserted layout offset item state,
        record { position = start_in section offset; removed = 0; added = 1 }
            ∷ filler_signals (slot_end last) (slot_end section),
      )

  abbrev pub insert_into :
      VirtualGridLayoutIndex
      → ℕ
      → Item
      → ModelState Item
      → SectionSpan
      → Option ℕ
      → Option (ModelState Item × List ItemsChanged)
  insert_into layout offset item state section none = some (
    with_inserted layout offset item state,
    record { position = start_in section offset; removed = 0; added = section.slot_len } ∷ [],
  )
  insert_into layout offset item state section (some index) =
      insert_grown layout offset item state section index (insert_media_slot state.layout index)

  abbrev pub insert_found :
      VirtualGridLayoutIndex
      → ℕ
      → Item
      → ModelState Item
      → Option SectionSpan
      → Option (ModelState Item × List ItemsChanged)
  insert_found layout offset item state none = some (state, [])
  insert_found layout offset item state (some section) =
      insert_into layout offset item state section
        (position_of_key section.key state.layout.sections)

  -- `none` where an index of a section is out of range.
  unfoldable pub insert_ready_item :
      VirtualGridLayoutIndex
      → ℕ
      → Item
      → ModelState Item
      → Option (ModelState Item × List ItemsChanged)
  insert_ready_item layout offset item state =
      insert_found layout offset item state (find_media offset layout.sections)
