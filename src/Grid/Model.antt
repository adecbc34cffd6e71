-- ===== src/Grid/Model.antt =====
-- src/ui/virtual_media_grid/model.rs: the list model of the grid, without the cache of the GObjects.
-- A signal of the list model is a value of the result.
pub mod Signals
pub mod Slots
pub mod Resident
pub mod Replace
pub mod Evict
pub mod Inserting
use photo_viewer.Base.{
  ℕ, zero, suc, ◌+◌, ◌-◌, min, Bool, true, false, ◌&&◌, ◌||◌, not, Option, none, some, List, [],
  ◌∷◌, ltb, leb, ◌==◌, if◌then◌else◌, get_elem?, length, take, ◌>>=◌,
}
use photo_viewer.Base.U32.{u32_max, saturating_add, checked_add}
use photo_viewer.Base.BTree.{BTreeMap, get, insert, remove, keys}
use photo_viewer.Base.Order.{StrictOrder, nat_order, lex_order}
use photo_viewer.Base.Sort.{sort_desc}
use photo_viewer.Grid.Section.{SectionKey}
use photo_viewer.Grid.Layout.{
  VirtualGridLayoutIndex, GridSlot, media_offset, filler, slot_at, slot_for_media_offset,
}
use photo_viewer.Grid.Range.{MediaRange}

pub data GridSlotState (Item : Type 0) : Type 0 where
  filler_slot : ℕ → SectionKey → GridSlotState Item
  placeholder : ℕ → ℕ → GridSlotState Item
  ready : ℕ → ℕ → Item → GridSlotState Item

pub record ModelState (Item : Type 0) : Type 0 where
  pub layout : VirtualGridLayoutIndex
  pub layout_generation : ℕ
  pub ready_by_offset : BTreeMap Item

-- `items_changed`
pub record ItemsChanged : Type 0 where
  pub position : ℕ
  pub removed : ℕ
  pub added : ℕ

-- The end of `emit_replacements` on a list of positions: sorted, without duplicates.
abbrev pub insert_position : ℕ → List ℕ → List ℕ
insert_position p [] = p ∷ []
insert_position p (q ∷ rest) =
    let later = insert_position p rest in
    if ltb p q then p ∷ q ∷ rest else if p == q then q ∷ rest else q ∷ later

unfoldable pub sort_dedup : List ℕ → List ℕ
sort_dedup [] = []
sort_dedup (p ∷ rest) = insert_position p (sort_dedup rest)

abbrev pub run_signal : ℕ → ℕ → ItemsChanged
run_signal start previous =
    let count = saturating_add (previous - start) 1 in
    record { position = start; removed = count; added = count }

-- The loop over the positions, in a run from `start` to `previous`.
unfoldable pub runs_from : ℕ → ℕ → List ℕ → List ItemsChanged
runs_from start previous [] = run_signal start previous ∷ []
runs_from start previous (position ∷ rest) = elim (position == saturating_add previous 1) [
  | true ↦ runs_from start position rest
  | false ↦ run_signal start previous ∷ runs_from position position rest
]

abbrev pub position_runs : List ℕ → List ItemsChanged
position_runs [] = []
position_runs (position ∷ rest) = runs_from position position rest

unfoldable pub emit_replacements : List ℕ → List ItemsChanged
unfolding sort_dedup runs_from
emit_replacements positions = position_runs (sort_dedup positions)

-- `changed_slots.push(slot)` for the slot of an offset, if it has one.
abbrev pub push_slot : Option ℕ → List ℕ → List ℕ
push_slot none slots = slots
push_slot (some slot) slots = slot ∷ slots

abbrev pub has_slot : VirtualGridLayoutIndex → ℕ → Bool
has_slot layout offset = elim (slot_for_media_offset layout offset) [ none ↦ false | some _ ↦ true ]

module _ {Item : Type 0} where
  unfoldable pub slot : GridSlotState Item → ℕ
  slot (filler_slot position section) = position
  slot (placeholder position offset) = position
  slot (ready position offset item) = position

  unfoldable pub state_media_offset : GridSlotState Item → Option ℕ
  state_media_offset (filler_slot position section) = none
  state_media_offset (placeholder position offset) = some offset
  state_media_offset (ready position offset item) = some offset

  unfoldable pub media_item : GridSlotState Item → Option Item
  media_item (filler_slot position section) = none
  media_item (placeholder position offset) = none
  media_item (ready position offset item) = some item

  abbrev pub offset_state : ℕ → ℕ → Option Item → GridSlotState Item
  offset_state position offset none = placeholder position offset
  offset_state position offset (some item) = ready position offset item

  unfoldable pub state_of_slot :
      BTreeMap Item → VirtualGridLayoutIndex → ℕ → GridSlot → Option (GridSlotState Item)
  unfolding get
  state_of_slot ready_items layout position (filler section) = do
    span ← get_elem? layout.sections section
    some (filler_slot position span.key)
  state_of_slot ready_items layout position (media_offset offset) =
      some (offset_state position offset (get offset ready_items))

  -- `slot_state_with_layout`
  unfoldable pub slot_state_with_layout :
      BTreeMap Item → VirtualGridLayoutIndex → ℕ → Option (GridSlotState Item)
  unfolding slot_at state_of_slot
  slot_state_with_layout ready_items layout position = do
    found ← slot_at layout position
    state_of_slot ready_items layout position found

  unfoldable pub slot_state_at : ModelState Item → ℕ → Option (GridSlotState Item)
  unfolding slot_state_with_layout
  slot_state_at state position = slot_state_with_layout state.ready_by_offset state.layout position

  abbrev pub n_items : ModelState Item → ℕ
  n_items state = state.layout.slot_count

  -- A structural change: all old slots out, all new ones in.
  abbrev pub relayout_signal : ModelState Item → ModelState Item → List ItemsChanged
  relayout_signal old new_state =
      record { position = 0; removed = n_items old; added = n_items new_state } ∷ []

  unfoldable pub replace_layout :
      VirtualGridLayoutIndex → ℕ → ModelState Item → ModelState Item × List ItemsChanged
  replace_layout layout generation state =
      let after : ModelState Item = record {
        layout = layout;
        layout_generation = generation;
        ready_by_offset = [];
      } in
      (after, relayout_signal state after)

  -- `.retain(|offset, _| layout.slot_for_media_offset(*offset).is_some())`
  unfoldable pub retain_placed : VirtualGridLayoutIndex → BTreeMap Item → BTreeMap Item
  unfolding slot_for_media_offset
  retain_placed layout [] = []
  retain_placed layout ((offset, item) ∷ rest) =
      let later = retain_placed layout rest in
      if has_slot layout offset then (offset, item) ∷ later else later

  unfoldable pub reflow_layout :
      VirtualGridLayoutIndex → ℕ → ModelState Item → ModelState Item × List ItemsChanged
  unfolding retain_placed
  reflow_layout layout generation state =
      let after : ModelState Item = record {
        layout = layout;
        layout_generation = generation;
        ready_by_offset = retain_placed layout state.ready_by_offset;
      } in
      (after, relayout_signal state after)

  -- The loop of `replace_layout_with_ready_range`; past the limit of u32 it breaks.
  unfoldable pub fill_ready :
      VirtualGridLayoutIndex → MediaRange → ℕ → List Item → BTreeMap Item → BTreeMap Item
  unfolding insert slot_for_media_offset
  fill_ready layout range index [] filled = filled
  fill_ready layout range index (item ∷ rest) filled =
      let offset = range.start + index in
      let next =
        fill_ready layout range (suc index) rest
          (if has_slot layout offset then insert offset item filled else filled) in
      if ltb u32_max offset || leb range.end offset then filled else next

  unfoldable pub replace_layout_with_ready_range :
      VirtualGridLayoutIndex
      → ℕ
      → MediaRange
      → List Item
      → ModelState Item
      → ModelState Item × List ItemsChanged
  unfolding fill_ready
  replace_layout_with_ready_range layout generation range items state =
      let after : ModelState Item = record {
        layout = layout;
        layout_generation = generation;
        ready_by_offset = fill_ready layout range 0 items [];
      } in
      (after, relayout_signal state after)

  refreshed : ℕ → Item → ModelState Item → Option ℕ → ModelState Item × List ItemsChanged
  unfolding emit_replacements insert
  refreshed offset item state none = (state, [])
  refreshed offset item state (some position) = (
    record state { ready_by_offset = insert offset item state.ready_by_offset },
    emit_replacements (position ∷ []),
  )

  unfoldable pub refresh_ready_item :
      ℕ → Item → ModelState Item → ModelState Item × List ItemsChanged
  unfolding refreshed slot_for_media_offset
  refresh_ready_item offset item state =
      refreshed offset item state (slot_for_media_offset state.layout offset)
