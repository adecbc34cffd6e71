-- ===== src/Grid/Model/Slots.antt =====
-- The slots that an operation of the list model changes.
use photo_viewer.Base.{
  ℕ, ◌≤◌, ◌<◌, ◌≡◌, refl, true, Option, none, some, List, [], ◌∷◌, arith, inl, inr, dec_lt,
}
use photo_viewer.Base.BTree.{get}
use photo_viewer.Grid.Layout.{
  VirtualGridLayoutIndex, slot_for_media_offset, span_index_for_media_offset,
}
use photo_viewer.Grid.Layout.Tiles.{IsLayout}
use photo_viewer.Grid.Layout.Bijection.{
  media_offset_at_slot-slot_for_media_offset, slot_at_total, slot_at-past_end,
}
use photo_viewer.Grid.Model.{
  ModelState, push_slot, slot_state_at, slot_state_with_layout, state_of_slot,
}
use photo_viewer.Grid.Model.Signals.{member, AllBelow}

pub slot_for_media_offset-below :
    (layout : VirtualGridLayoutIndex) (offset slot : ℕ)
    → IsLayout layout
    → slot_for_media_offset layout offset ≡ some slot
    → slot < layout.slot_count
unfolding slot_for_media_offset span_index_for_media_offset
slot_for_media_offset-below layout offset slot w e = elim (dec_lt offset layout.media_count) [
  | yes p ↦
      let (position, found, below, back) =
        media_offset_at_slot-slot_for_media_offset layout offset w p in
      ground (arith, e, found)
  | no p ↦ ground (arith, e)
]

pub AllBelow-le : (l : List ℕ) {a b : ℕ} → AllBelow a l → a ≤ b → AllBelow b l
AllBelow-le [] h k = tt
AllBelow-le (p ∷ rest) (lt, h) k = (omega arith, AllBelow-le rest h k)

pub push_slot-AllBelow :
    (layout : VirtualGridLayoutIndex) (w : IsLayout layout) (offset : ℕ) (slots : List ℕ)
    (found : Option ℕ)
    → slot_for_media_offset layout offset ≡ found
    → AllBelow layout.slot_count slots
    → AllBelow layout.slot_count (push_slot found slots)
push_slot-AllBelow layout w offset slots none e b = b
push_slot-AllBelow layout w offset slots (some slot) e b =
    (slot_for_media_offset-below layout offset slot w e, b)

pub member-push_slot :
    (q : ℕ) (found : Option ℕ) (slots : List ℕ)
    → member q slots ≡ true
    → member q (push_slot found slots) ≡ true
member-push_slot q none slots h = h
member-push_slot q (some slot) slots h = ground arith

pub pushed-told :
    (q : ℕ) (found : Option ℕ) (slots : List ℕ)
    → found ≡ some q
    → member q (push_slot found slots) ≡ true
pushed-told q none slots e = ground arith
pushed-told q (some slot) slots e = ground arith

-- A slot that no changed offset stands in shows what it showed.
pub slot_state_at-same :
    {Item : Type 0} (state after : ModelState Item) (q : ℕ)
    → IsLayout state.layout
    → after.layout ≡ state.layout
    → ((j : ℕ)
        → slot_for_media_offset state.layout j ≡ some q
        → get j after.ready_by_offset ≡ get j state.ready_by_offset)
    → slot_state_at after q ≡ slot_state_at state q
unfolding slot_state_at slot_state_with_layout state_of_slot
slot_state_at-same state after q w e same = elim (dec_lt q state.layout.slot_count) [
  | yes p ↦ elim (slot_at_total state.layout q w p) [
    | inl (offset, at, below, back) ↦ rw (e, at) (ground (arith, same offset back))
    | inr (section, span, at, found, from, to) ↦ rw (e, at) refl
  ]
  | no p ↦ rw (e, slot_at-past_end state.layout q (omega arith)) refl
]
