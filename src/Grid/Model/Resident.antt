-- ===== src/Grid/Model/Resident.antt =====
-- src/ui/virtual_media_grid/model.rs: the resident items of the list model, replaced by ranges and
-- evicted.
use photo_viewer.Base.{
  ℕ, zero, suc, ◌+◌, ◌-◌, min, Bool, true, false, not, Option, none, some, List, [], ◌∷◌, ltb, leb,
  ◌==◌, if◌then◌else◌, get_elem?, length, take, ◌>>=◌,
}
use photo_viewer.Base.U32.{u32_max, saturating_add}
use photo_viewer.Base.Int.{ℤ, eqb_ℤ}
use photo_viewer.Base.BTree.{BTreeMap, get, insert, remove, keys}
use photo_viewer.Base.Order.{nat_order, lex_order}
use photo_viewer.Base.Sort.{sort_desc}
use photo_viewer.Grid.Layout.{VirtualGridLayoutIndex, slot_for_media_offset}
use photo_viewer.Grid.Range.{MediaRange}
use photo_viewer.Grid.Model.{ModelState, ItemsChanged, push_slot, emit_replacements}

-- How far an offset lies from the window, unless it lies in it.
abbrev pub distance_from : MediaRange → ℕ → Option ℕ
distance_from keep offset =
    if ltb offset keep.start
    then some (keep.start - offset)
    else if leb keep.end offset
    then some (saturating_add (offset - keep.end) 1)
    else none

abbrev pub candidate : Option ℕ → ℕ → List (ℕ × ℕ) → List (ℕ × ℕ)
candidate none offset rest = rest
candidate (some distance) offset rest = (distance, offset) ∷ rest

unfoldable pub candidates : MediaRange → List ℕ → List (ℕ × ℕ)
candidates keep [] = []
candidates keep (offset ∷ rest) =
    candidate (distance_from keep offset) offset (candidates keep rest)

-- The furthest first.
abbrev pub own_distance : ℕ × ℕ → ℕ × ℕ
own_distance pair = pair

module _ {Item : Type 0} where
  -- `items.get(offset - range.start)` below the end of what was returned.
  abbrev pub incoming_at : MediaRange → List Item → ℕ → Option Item
  incoming_at range items offset =
      let returned_end = min (saturating_add range.start (min (length items) u32_max)) range.end in
      if ltb offset returned_end then get_elem? items (offset - range.start) else none

  abbrev pub is_changed : (Item → Item → Bool) → Option Item → Option Item → Bool
  is_changed item_eq (some item) none = true
  is_changed item_eq (some item) (some existing) = not (item_eq existing item)
  is_changed item_eq none none = false
  is_changed item_eq none (some existing) = true

  abbrev pub put_incoming : ℕ → Option Item → BTreeMap Item → BTreeMap Item
  put_incoming offset (some item) ready_items = insert offset item ready_items
  put_incoming offset none ready_items = remove offset ready_items

  -- One round of the loop of `replace_ready_range`: the resident items and the changed slots.
  unfoldable pub replace_one :
      (Item → Item → Bool)
      → VirtualGridLayoutIndex
      → MediaRange
      → List Item
      → ℕ
      → BTreeMap Item × List ℕ
      → BTreeMap Item × List ℕ
  unfolding get insert remove slot_for_media_offset
  replace_one item_eq layout range items offset (ready_items, slots) =
      if is_changed item_eq (incoming_at range items offset) (get offset ready_items)
      then (
        put_incoming offset (incoming_at range items offset) ready_items,
        push_slot (slot_for_media_offset layout offset) slots,
      )
      else (ready_items, slots)

  -- `for offset in range.start..range.end`, with the number of rounds that are left.
  unfoldable pub replace_loop :
      (Item → Item → Bool)
      → VirtualGridLayoutIndex
      → MediaRange
      → List Item
      → ℕ
      → ℕ
      → BTreeMap Item × List ℕ
      → BTreeMap Item × List ℕ
  unfolding replace_one
  replace_loop item_eq layout range items zero offset acc = acc
  replace_loop item_eq layout range items (suc rounds) offset acc =
      replace_loop item_eq layout range items rounds (suc offset)
        (replace_one item_eq layout range items offset acc)

  unfoldable pub replaced :
      ModelState Item → BTreeMap Item × List ℕ → ModelState Item × List ItemsChanged
  unfolding emit_replacements
  replaced state (ready_items, slots) =
      (record state { ready_by_offset = ready_items }, emit_replacements slots)

  unfoldable pub replace_ready_range :
      (Item → Item → Bool)
      → MediaRange
      → List Item
      → ModelState Item
      → ModelState Item × List ItemsChanged
  unfolding replaced replace_loop
  replace_ready_range item_eq range items state =
      if leb range.end range.start
      then (state, [])
      else replaced state (
          replace_loop item_eq state.layout range items (range.end - range.start) range.start
            (state.ready_by_offset, []))

  unfoldable pub evict_all :
      VirtualGridLayoutIndex → List (ℕ × ℕ) → BTreeMap Item × List ℕ → BTreeMap Item × List ℕ
  unfolding remove slot_for_media_offset
  evict_all layout [] acc = acc
  evict_all layout ((_, offset) ∷ rest) (ready_items, slots) =
      evict_all layout rest
        (remove offset ready_items, push_slot (slot_for_media_offset layout offset) slots)

  unfoldable pub evict_to_capacity :
      MediaRange → ℕ → ModelState Item → ModelState Item × List ItemsChanged
  unfolding evict_all candidates replaced keys
  evict_to_capacity keep capacity state =
      if leb (length state.ready_by_offset) capacity
      then (state, [])
      else let excess = length state.ready_by_offset - capacity in
        replaced state (
          evict_all state.layout
            (take excess (
              sort_desc (lex_order nat_order nat_order) own_distance
                (candidates keep (keys state.ready_by_offset))))
            (state.ready_by_offset, []))

  -- `RECENT_READY_ITEM_CAP` items of history.
  unfoldable pub evict_outside : MediaRange → ModelState Item → ModelState Item × List ItemsChanged
  unfolding evict_to_capacity
  evict_outside keep state = evict_to_capacity keep 1500 state

-- The run of `ready_ranges` that ends with an offset, and the runs before it.
abbrev pub push_ready : ℕ → List MediaRange → List MediaRange
push_ready offset [] = record { start = offset; end = offset + 1 } ∷ []
push_ready offset (last ∷ []) =
    if last.end == offset
    then record last { end = last.end + 1 } ∷ []
    else last ∷ record { start = offset; end = offset + 1 } ∷ []
push_ready offset (range ∷ next ∷ rest) = range ∷ push_ready offset (next ∷ rest)

unfoldable pub grouped : List ℕ → List MediaRange → List MediaRange
grouped [] ranges = ranges
grouped (offset ∷ rest) ranges = grouped rest (push_ready offset ranges)

unfoldable pub ready_ranges : {Item : Type 0} → ModelState Item → List MediaRange
unfolding grouped keys
ready_ranges state = grouped (keys state.ready_by_offset) []

module _ {Item : Type 0} (item_id : Item → ℤ) where
  unfoldable pub find_id : ℤ → BTreeMap Item → Option (ℕ × Item)
  find_id id [] = none
  find_id id ((offset, item) ∷ rest) = elim (eqb_ℤ (item_id item) id) [
    | true ↦ some (offset, item)
    | false ↦ find_id id rest
  ]

  unfoldable pub slot_for_media_id : ℤ → ModelState Item → Option ℕ
  unfolding find_id slot_for_media_offset
  slot_for_media_id id state = do
    found ← find_id id state.ready_by_offset
    slot_for_media_offset state.layout found.0

  unfoldable pub ready_item_for_media_id : ℤ → ModelState Item → Option Item
  unfolding find_id
  ready_item_for_media_id id state = do found ← find_id id state.ready_by_offset; some found.1

  unfoldable pub ready_offset_for_media_id : ℤ → ModelState Item → Option ℕ
  unfolding find_id
  ready_offset_for_media_id id state = do found ← find_id id state.ready_by_offset; some found.0
