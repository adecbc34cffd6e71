-- ===== src/Grid/Model/Inserting/Shifted.antt =====
-- What an insertion does to the resident items.
use photo_viewer.Base.{
  ℕ, suc, ◌+◌, ◌-◌, ◌≤◌, ◌<◌, ◌≡◌, refl, Option, none, some, List, [], ◌∷◌, ltb, ◌==◌,
  if◌then◌else◌, get_elem?, arith, Bool-cases, Option-cases, dec_lt, subst, inl, inr,
}
use photo_viewer.Base.U32.{u32_max}
use photo_viewer.Base.BTree.{BTreeMap, get, insert, get-insert}
use photo_viewer.Grid.Section.{SectionKey}
use photo_viewer.Grid.Layout.{SectionSpan, VirtualGridLayoutIndex, slot_for_media_offset}
use photo_viewer.Grid.Layout.Tiles.{IsLayout, Tiles, Tiles-media_le, Tiles-media_le_slots}
use photo_viewer.Grid.Layout.Lookup.{span_index_for_media_offset-found}
use photo_viewer.Grid.Layout.Insert.{grow_span-total, lt-length_of_found}
use photo_viewer.Grid.Layout.Inserted.{insert_media_slot-runs}
use photo_viewer.Sections.{key_eq}
use photo_viewer.Grid.Model.{ModelState, ItemsChanged}
use photo_viewer.Grid.Model.Inserting.{
  find_media, position_of_key, start_in, shift_ready, with_inserted, insert_into, insert_ready_item,
}

get-shift_ready :
    {Item : Type 0} (k offset : ℕ) (m : BTreeMap Item)
    → get k (shift_ready offset m)
      ≡ (if ltb k offset then get k m else if k == offset then none else get (k - 1) m)
unfolding get shift_ready
get-shift_ready k offset [] = ground arith
get-shift_ready k offset ((old, item) ∷ rest) = ground (arith, get-shift_ready k offset rest)

find_media-found :
    (m s : ℕ) (spans : List SectionSpan) (media slots offset : ℕ)
    → Tiles m s spans media slots
    → media ≤ u32_max
    → m ≤ offset
    → offset < media
    → (i : ℕ) × (span : SectionSpan) × (find_media offset spans ≡ some span)
      × (get_elem? spans i ≡ some span)
      × (span.media_start ≤ offset)
      × (offset < span.media_start + span.media_len)
unfolding find_media
find_media-found m s [] media slots offset t fits h k = absurd (omega arith)
find_media-found m s (x ∷ rest) media slots offset t fits h k =
    let ends = Tiles-media_le (m + x.media_len) (s + x.slot_len) rest media slots t.4 in
    elim (dec_lt offset (m + x.media_len)) [
      | yes p ↦ (0, x, ground (arith, t.0), refl, omega (arith, t.0), omega (arith, t.0))
      | no p ↦
          let (i, span, found, at, from, to) =
            find_media-found (m + x.media_len) (s + x.slot_len) rest media slots offset t.4 fits
              (omega arith) k in
          (suc i, span, ground (arith, t.0, found), at, from, to)
    ]

-- The state and the first signal after the insertion of an item.
pub record IsInserted {Item : Type 0} (layout : VirtualGridLayoutIndex) (offset : ℕ) (item : Item)
    (state : ModelState Item) (result : Option (ModelState Item × List ItemsChanged)) : Type 0 where
  pub after : ModelState Item
  pub signal : ItemsChanged
  pub signals : List ItemsChanged
  pub runs : result ≡ some (after, signal ∷ signals)
  pub layout_set : after.layout ≡ layout
  pub placed : slot_for_media_offset layout offset ≡ some signal.position
  pub no_removal : signal.removed ≡ 0
  pub items :
      (k : ℕ)
      → get k after.ready_by_offset ≡ (
          if k == offset
          then some item
          else if ltb k offset
          then get k state.ready_by_offset
          else get (k - 1) state.ready_by_offset)

position_of_key-found :
    (key : SectionKey) (spans : List SectionSpan) (index : ℕ)
    → position_of_key key spans ≡ some index
    → (span : SectionSpan) × (get_elem? spans index ≡ some span)
unfolding position_of_key key_eq
position_of_key-found key [] index h = absurd cc
position_of_key-found key (span ∷ rest) index h = elim (Bool-cases (key_eq span.key key)) [
  | inl e ↦ (span, ground (arith, e, h))
  | inr e ↦ elim (Option-cases (position_of_key key rest)) [
    | inl none_found ↦ absurd (ground (arith, e, none_found, h))
    | inr (i, found) ↦
        let (x, at) = position_of_key-found key rest i found in
        let next : suc i ≡ index = ground (arith, e, found, h) in
        (x, subst (λ n. get_elem? (span ∷ rest) n ≡ some x) next at)
  ]
]

module _ {Item : Type 0} (layout : VirtualGridLayoutIndex) (w : IsLayout layout) (offset : ℕ)
    (item : Item) (state : ModelState Item) where
  with_inserted-items :
      (k : ℕ)
      → get k (insert offset item (shift_ready offset state.ready_by_offset)) ≡ (
          if k == offset
          then some item
          else if ltb k offset
          then get k state.ready_by_offset
          else get (k - 1) state.ready_by_offset)
  with_inserted-items k = ground (
    arith,
    get-insert k offset item (shift_ready offset state.ready_by_offset),
    get-shift_ready k offset state.ready_by_offset,
  )

  slot-start_in :
      (i : ℕ) (section : SectionSpan)
      → get_elem? layout.sections i ≡ some section
      → section.media_start ≤ offset
      → offset < section.media_start + section.media_len
      → slot_for_media_offset layout offset ≡ some (start_in section offset)
  unfolding slot_for_media_offset
  slot-start_in i section at from to =
      rw (span_index_for_media_offset-found layout w offset i section at from to, at) refl

  with_inserted-IsInserted :
      (i : ℕ) (section : SectionSpan) (added : ℕ) (signals : List ItemsChanged)
      → get_elem? layout.sections i ≡ some section
      → section.media_start ≤ offset
      → offset < section.media_start + section.media_len
      → IsInserted layout offset item state (
          some (
            with_inserted layout offset item state,
            record { position = start_in section offset; removed = 0; added = added } ∷ signals,
          ))
  with_inserted-IsInserted i section added signals at from to = record {
    after = with_inserted layout offset item state;
    signal = record { position = start_in section offset; removed = 0; added = added };
    signals = signals;
    runs = refl;
    layout_set = refl;
    placed = slot-start_in i section at from to;
    no_removal = refl;
    items = with_inserted-items;
  }

  insert_into-IsInserted :
      (i : ℕ) (section : SectionSpan) (p : Option ℕ)
      → IsLayout state.layout
      → state.layout.slot_count < u32_max
      → position_of_key section.key state.layout.sections ≡ p
      → get_elem? layout.sections i ≡ some section
      → section.media_start ≤ offset
      → offset < section.media_start + section.media_len
      → IsInserted layout offset item state (insert_into layout offset item state section p)
  insert_into-IsInserted i section none old room e at from to =
      with_inserted-IsInserted i section section.slot_len [] at from to
  insert_into-IsInserted i section (some index) old room e at from to =
      let self = state.layout in
      let fewer =
        Tiles-media_le_slots 0 0 self.sections self.media_count self.slot_count (omega arith)
          old.tiles in
      let (span, here) = position_of_key-found section.key self.sections index e in
      let (out, g) =
        grow_span-total 0 0 self.sections self.media_count self.slot_count index old.tiles
          (omega arith) room (lt-length_of_found self.sections index span here) in
      rw (insert_media_slot-runs self index out (omega arith) room g.runs, g.at span here)
        (with_inserted-IsInserted i section 1 _ at from to)

-- For a state with a well-formed layout whose slots can be counted, and a well-formed layout that has a
-- medium at the offset: the insertion installs this layout, its first signal inserts at the slot of the
-- offset and removes nothing, and then the offset holds the item, the items before it stay, and the items
-- from it on have moved by one offset.
pub insert_ready_item-IsInserted :
    {Item : Type 0} (layout : VirtualGridLayoutIndex) (offset : ℕ) (item : Item)
    (state : ModelState Item)
    → IsLayout layout
    → IsLayout state.layout
    → state.layout.slot_count < u32_max
    → offset < layout.media_count
    → IsInserted layout offset item state (insert_ready_item layout offset item state)
unfolding insert_ready_item
insert_ready_item-IsInserted layout offset item state w old room h =
    let fewer =
      Tiles-media_le_slots 0 0 layout.sections layout.media_count layout.slot_count (omega arith)
        w.tiles in
    let slots_fit = w.slots_fit in
    let (i, section, found, at, from, to) =
      find_media-found 0 0 layout.sections layout.media_count layout.slot_count offset w.tiles
        (omega arith) (omega arith) h in
    rw found (
      insert_into-IsInserted layout w offset item state i section
        (position_of_key section.key state.layout.sections) old room refl at from to)
