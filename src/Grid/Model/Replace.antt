-- ===== src/Grid/Model/Replace.antt =====
-- `replace_ready_range`: what it installs, and that every slot whose state it changes is announced.
use photo_viewer.Base.{
  ℕ, zero, suc, ◌+◌, ◌-◌, ◌≤◌, ◌<◌, get_elem?, length, ◌∷◌, ◌≡◌, refl, sym, ◌∙◌, Bool, true, false,
  ◌&&◌, Option, none, some, List, [], ltb, leb, ◌==◌, if◌then◌else◌, arith, lt→not-leb,
}
use photo_viewer.Base.U32.{u32_max}
use photo_viewer.Base.BTree.{BTreeMap, get, get-insert, get-remove}
use photo_viewer.Grid.Layout.{VirtualGridLayoutIndex, slot_for_media_offset}
use photo_viewer.Grid.Layout.Tiles.{IsLayout}
use photo_viewer.Grid.Range.{MediaRange}
use photo_viewer.Grid.Model.{ModelState, ItemsChanged, push_slot, slot_state_at}
use photo_viewer.Grid.Model.Resident.{
  incoming_at, is_changed, put_incoming, replace_one, replace_loop, replaced, replace_ready_range,
}
use photo_viewer.Grid.Model.Signals.{
  member, announced, AllBelow, AllBalanced, emit_replacements_lem, emit_replacements-AllBalanced,
}
use photo_viewer.Grid.Model.Slots.{
  push_slot-AllBelow, member-push_slot, pushed-told, AllBelow-le, slot_state_at-same,
}

-- What some rounds of the loop from an offset on do to the resident items and the changed slots.
record IsReplaced (Item : Type 0) (layout : VirtualGridLayoutIndex) (range : MediaRange)
    (items : List Item) (first rounds : ℕ) (before after : BTreeMap Item × List ℕ) : Type 0 where
  residents :
      (j : ℕ)
      → get j after.0 ≡ (
          if leb first j && ltb j (first + rounds)
          then incoming_at range items j
          else get j before.0)
  kept : (q : ℕ) → member q before.1 ≡ true → member q after.1 ≡ true
  told :
      (j q : ℕ)
      → slot_for_media_offset layout j ≡ some q
      → member q after.1 ≡ false
      → get j after.0 ≡ get j before.0
  below : AllBelow layout.slot_count before.1 → AllBelow layout.slot_count after.1

module _ {Item : Type 0} (item_eq : Item → Item → Bool)
    (item_eq_sound : (a b : Item) → item_eq a b ≡ true → a ≡ b) (layout : VirtualGridLayoutIndex)
    (w : IsLayout layout) (range : MediaRange) (items : List Item) where
  unchanged :
      (incoming existing : Option Item)
      → is_changed item_eq incoming existing ≡ false
      → existing ≡ incoming
  unchanged none none h = refl
  unchanged none (some item) h = ground arith
  unchanged (some item) none h = ground arith
  unchanged (some item) (some existing) h = ground (arith, item_eq_sound existing item)

  get-put_incoming :
      (j offset : ℕ) (incoming : Option Item) (ready_items : BTreeMap Item)
      → get j (put_incoming offset incoming ready_items)
        ≡ (if offset == j then incoming else get j ready_items)
  get-put_incoming j offset none ready_items = get-remove j offset ready_items
  get-put_incoming j offset (some item) ready_items = get-insert j offset item ready_items

  changed-IsReplaced :
      (offset : ℕ) (ready_items : BTreeMap Item) (slots : List ℕ)
      → IsReplaced Item layout range items offset 1
          (ready_items, slots)
          (
            put_incoming offset (incoming_at range items offset) ready_items,
            push_slot (slot_for_media_offset layout offset) slots,
          )
  changed-IsReplaced offset ready_items slots = record {
    residents =
        λ j. ground (arith, get-put_incoming j offset (incoming_at range items offset) ready_items);
    kept = λ q. member-push_slot q (slot_for_media_offset layout offset) slots;
    told = λ j q e h. ground (
      arith,
      get-put_incoming j offset (incoming_at range items offset) ready_items,
      pushed-told q (slot_for_media_offset layout offset) slots,
    );
    below = push_slot-AllBelow layout w offset slots (slot_for_media_offset layout offset) refl;
  }

  unchanged-IsReplaced :
      (offset : ℕ) (before : BTreeMap Item × List ℕ)
      → is_changed item_eq (incoming_at range items offset) (get offset before.0) ≡ false
      → IsReplaced Item layout range items offset 1 before before
  unchanged-IsReplaced offset before h =
      let same = unchanged (incoming_at range items offset) (get offset before.0) h in
      record {
        residents = λ j. ground (arith, same);
        kept = λ q m. m;
        told = λ j q e m. refl;
        below = λ b. b;
      }

  if-IsReplaced :
      (offset : ℕ) (b : Bool) (before x y : BTreeMap Item × List ℕ)
      → (b ≡ true → IsReplaced Item layout range items offset 1 before x)
      → (b ≡ false → IsReplaced Item layout range items offset 1 before y)
      → IsReplaced Item layout range items offset 1 before (if b then x else y)
  if-IsReplaced offset true before x y h k = h refl
  if-IsReplaced offset false before x y h k = k refl

  replace_one-IsReplaced :
      (offset : ℕ) (before : BTreeMap Item × List ℕ)
      → IsReplaced Item layout range items offset 1 before
          (replace_one item_eq layout range items offset before)
  unfolding replace_one
  replace_one-IsReplaced offset (ready_items, slots) =
      if-IsReplaced offset
        (is_changed item_eq (incoming_at range items offset) (get offset ready_items))
        (ready_items, slots)
        (
          put_incoming offset (incoming_at range items offset) ready_items,
          push_slot (slot_for_media_offset layout offset) slots,
        )
        (ready_items, slots) (λ h. changed-IsReplaced offset ready_items slots)
        (unchanged-IsReplaced offset (ready_items, slots))

  IsReplaced-suc :
      (first rounds : ℕ) (before between after : BTreeMap Item × List ℕ)
      → IsReplaced Item layout range items first 1 before between
      → IsReplaced Item layout range items (suc first) rounds between after
      → IsReplaced Item layout range items first (suc rounds) before after
  IsReplaced-suc first rounds before between after p r = record {
    residents = λ j. ground (arith, p.residents j, r.residents j);
    kept = λ q m. r.kept q (p.kept q m);
    told = λ j q e m. ground (arith, p.told j q e, r.told j q e m, r.kept q);
    below = λ b. r.below (p.below b);
  }

  replace_loop-IsReplaced :
      (rounds first : ℕ) (before : BTreeMap Item × List ℕ)
      → IsReplaced Item layout range items first rounds before
          (replace_loop item_eq layout range items rounds first before)
  unfolding replace_loop
  replace_loop-IsReplaced zero first before = record {
    residents = λ j. ground arith;
    kept = λ q m. m;
    told = λ j q e m. refl;
    below = λ b. b;
  }
  replace_loop-IsReplaced (suc rounds) first before =
      IsReplaced-suc first rounds before (replace_one item_eq layout range items first before)
        (replace_loop item_eq layout range items rounds (suc first)
          (replace_one item_eq layout range items first before))
        (replace_one-IsReplaced first before)
        (replace_loop-IsReplaced rounds (suc first)
          (replace_one item_eq layout range items first before))

-- What installing a range does.
pub record IsInstalled (Item : Type 0) (range : MediaRange) (items : List Item)
    (state : ModelState Item) (result : ModelState Item × List ItemsChanged) : Type 0 where
  pub residents :
      (j : ℕ)
      → get j result.0.ready_by_offset ≡ (
          if leb range.start j && ltb j range.end
          then get_elem? items (j - range.start)
          else get j state.ready_by_offset)
  pub told :
      (q : ℕ) → announced q result.1 ≡ false → slot_state_at result.0 q ≡ slot_state_at state q
  pub balanced : AllBalanced result.1
  pub same_layout : result.0.layout ≡ state.layout

get_elem?-past :
    {Item : Type 0} (items : List Item) (k : ℕ) → length items ≤ k → get_elem? items k ≡ none
get_elem?-past [] k h = refl
get_elem?-past (item ∷ items) zero h = absurd (omega arith)
get_elem?-past (item ∷ items) (suc k) h = get_elem?-past items k (omega arith)

-- The items are those that were returned, in their order from the start of the range on.
incoming_at-returned :
    {Item : Type 0} (range : MediaRange) (items : List Item) (j : ℕ)
    → range.end ≤ u32_max
    → range.start ≤ j
    → j < range.end
    → incoming_at range items j ≡ get_elem? items (j - range.start)
incoming_at-returned range items j fits from to =
    ground (arith, get_elem?-past items (j - range.start))

replaced-IsInstalled :
    (Item : Type 0) (range : MediaRange) (items : List Item) (state : ModelState Item)
    (r : BTreeMap Item × List ℕ)
    → range.start < range.end
    → range.end ≤ u32_max
    → IsLayout state.layout
    → IsReplaced Item state.layout range items range.start
        (range.end - range.start)
        (state.ready_by_offset, [])
        r
    → IsInstalled Item range items state (replaced state r)
unfolding replaced
replaced-IsInstalled Item range items state (ready_items, slots) lt fits w p = record {
  residents = λ j. ground (arith, p.residents j, incoming_at-returned range items j fits);
  told = λ q quiet.
      slot_state_at-same state (record state { ready_by_offset = ready_items }) q w refl
        (λ j e. p.told j q e (
          sym (emit_replacements_lem q slots (AllBelow-le slots (p.below tt) w.slots_fit))
          ∙ quiet));
  balanced = emit_replacements-AllBalanced slots;
  same_layout = refl;
}

-- In a well-formed layout, for an equality test of items that implies equality, installing a range
-- with offsets, all in u32, makes the offset that is so many behind its start hold the item with this
-- index among those returned, or none where fewer were returned, and keeps what all other offsets hold;
-- it announces every slot whose state it changes, in signals that replace slots by as many, and keeps
-- the layout.
pub replace_ready_range_lem :
    (Item : Type 0) (item_eq : Item → Item → Bool)
    (item_eq_sound : (a b : Item) → item_eq a b ≡ true → a ≡ b) (range : MediaRange)
    (items : List Item) (state : ModelState Item)
    → range.start < range.end
    → range.end ≤ u32_max
    → IsLayout state.layout
    → IsInstalled Item range items state (replace_ready_range item_eq range items state)
unfolding replace_ready_range
replace_ready_range_lem Item item_eq item_eq_sound range items state lt fits w =
    rw (lt→not-leb range.end range.start lt) (
      replaced-IsInstalled Item range items state
        (replace_loop item_eq state.layout range items (range.end - range.start) range.start
          (state.ready_by_offset, []))
        lt fits w
        (replace_loop-IsReplaced item_eq item_eq_sound state.layout w range items
          (range.end - range.start) range.start (state.ready_by_offset, [])))
