-- ===== src/Grid/Model/Evict.antt =====
-- `evict_to_capacity`: what it may evict, and that every slot whose state it changes is announced.
use photo_viewer.Base.{
  ℕ, zero, suc, ◌-◌, ◌≡◌, refl, sym, ◌∙◌, true, false, Option, none, some, List, [], ◌∷◌, leb,
  arith, Bool-cases, inl, inr, ◌⊎◌, length, take,
}
use photo_viewer.Base.BTree.{BTreeMap, get, remove, keys, get-remove}
use photo_viewer.Base.Order.{StrictOrder, nat_order, lex_order}
use photo_viewer.Base.Sort.{insert_desc, sort_desc}
use photo_viewer.Grid.Layout.{VirtualGridLayoutIndex, slot_for_media_offset}
use photo_viewer.Grid.Layout.Tiles.{IsLayout}
use photo_viewer.Grid.Range.{MediaRange, contains}
use photo_viewer.Grid.Model.{ModelState, ItemsChanged, push_slot, slot_state_at}
use photo_viewer.Grid.Model.Resident.{
  distance_from, candidate, candidates, evict_all, own_distance, evict_to_capacity, replaced,
}
use photo_viewer.Grid.Model.Signals.{
  member, announced, AllBelow, AllBalanced, emit_replacements_lem, emit_replacements-AllBalanced,
}
use photo_viewer.Grid.Model.Slots.{
  push_slot-AllBelow, member-push_slot, pushed-told, AllBelow-le, slot_state_at-same,
}

abbrev by_distance : StrictOrder (ℕ × ℕ)
by_distance = lex_order nat_order nat_order

-- Every candidate lies outside the window.
abbrev AllOutside : MediaRange → List (ℕ × ℕ) → Type 0
AllOutside keep [] = Unit
AllOutside keep ((_, offset) ∷ rest) = (contains keep offset ≡ false) × AllOutside keep rest

candidate-AllOutside :
    (keep : MediaRange) (offset : ℕ) (found : Option ℕ) (rest : List (ℕ × ℕ))
    → distance_from keep offset ≡ found
    → AllOutside keep rest
    → AllOutside keep (candidate found offset rest)
unfolding contains
candidate-AllOutside keep offset none rest e h = h
candidate-AllOutside keep offset (some distance) rest e h = (ground arith, h)

candidates-AllOutside :
    (keep : MediaRange) (offsets : List ℕ) → AllOutside keep (candidates keep offsets)
unfolding candidates
candidates-AllOutside keep [] = tt
candidates-AllOutside keep (offset ∷ rest) =
    candidate-AllOutside keep offset (distance_from keep offset) (candidates keep rest) refl
      (candidates-AllOutside keep rest)

insert_desc-AllOutside :
    (keep : MediaRange) (x : ℕ × ℕ) (l : List (ℕ × ℕ))
    → contains keep x.1 ≡ false
    → AllOutside keep l
    → AllOutside keep (insert_desc by_distance own_distance x l)
unfolding insert_desc
insert_desc-AllOutside keep (d, o) [] h k = (h, tt)
insert_desc-AllOutside keep (d, o) ((e, p) ∷ rest) h (a, b) =
    elim (by_distance.lt (e, p) (d, o))
      as (λ x. AllOutside keep (elim x [
        | true ↦ (d, o) ∷ (e, p) ∷ rest
        | false ↦ (e, p) ∷ insert_desc by_distance own_distance (d, o) rest
      ])) [ true ↦ (h, (a, b)) | false ↦ (a, insert_desc-AllOutside keep (d, o) rest h b) ]

sort_desc-AllOutside :
    (keep : MediaRange) (l : List (ℕ × ℕ))
    → AllOutside keep l
    → AllOutside keep (sort_desc by_distance own_distance l)
unfolding sort_desc
sort_desc-AllOutside keep [] h = tt
sort_desc-AllOutside keep ((d, o) ∷ rest) (a, h) =
    insert_desc-AllOutside keep (d, o) (sort_desc by_distance own_distance rest) a
      (sort_desc-AllOutside keep rest h)

take-AllOutside :
    (keep : MediaRange) (n : ℕ) (l : List (ℕ × ℕ)) → AllOutside keep l → AllOutside keep (take n l)
take-AllOutside keep zero l h = tt
take-AllOutside keep (suc n) [] h = tt
take-AllOutside keep (suc n) ((d, o) ∷ rest) (a, h) = (a, take-AllOutside keep n rest h)

-- What evicting some offsets does to the resident items and the changed slots.
record IsEvicted (Item : Type 0) (keep : MediaRange) (layout : VirtualGridLayoutIndex)
    (before after : BTreeMap Item × List ℕ) : Type 0 where
  protected : (j : ℕ) → contains keep j ≡ true → get j after.0 ≡ get j before.0
  only_out : (j : ℕ) → (get j after.0 ≡ get j before.0) ⊎ (get j after.0 ≡ none)
  kept : (q : ℕ) → member q before.1 ≡ true → member q after.1 ≡ true
  told :
      (j q : ℕ)
      → slot_for_media_offset layout j ≡ some q
      → member q after.1 ≡ false
      → get j after.0 ≡ get j before.0
  below : AllBelow layout.slot_count before.1 → AllBelow layout.slot_count after.1

module _ (Item : Type 0) (keep : MediaRange) (layout : VirtualGridLayoutIndex)
    (w : IsLayout layout) where
  evict_all-IsEvicted :
      (l : List (ℕ × ℕ)) (ready_items : BTreeMap Item) (slots : List ℕ)
      → AllOutside keep l
      → IsEvicted Item keep layout (ready_items, slots) (evict_all layout l (ready_items, slots))
  unfolding evict_all
  evict_all-IsEvicted [] ready_items slots h = record {
    protected = λ j k. refl;
    only_out = λ j. inl refl;
    kept = λ q m. m;
    told = λ j q e m. refl;
    below = λ b. b;
  }
  evict_all-IsEvicted ((d, o) ∷ rest) ready_items slots (a, h) =
      let later =
        evict_all-IsEvicted rest (remove o ready_items)
          (push_slot (slot_for_media_offset layout o) slots) h in
      record {
        protected = λ j k. ground (arith, later.protected j k, get-remove j o ready_items);
        only_out = λ j. ground (arith, later.only_out j, get-remove j o ready_items);
        kept = λ q m. later.kept q (member-push_slot q (slot_for_media_offset layout o) slots m);
        told = λ j q e m. ground (
          arith,
          later.told j q e m,
          later.kept q,
          pushed-told q (slot_for_media_offset layout o) slots,
          get-remove j o ready_items,
        );
        below = λ b.
            later.below
              (push_slot-AllBelow layout w o slots (slot_for_media_offset layout o) refl b);
      }

-- What an eviction does.
pub record IsBounded (Item : Type 0) (keep : MediaRange) (state : ModelState Item)
    (result : ModelState Item × List ItemsChanged) : Type 0 where
  pub window_kept :
      (j : ℕ)
      → contains keep j ≡ true
      → get j result.0.ready_by_offset ≡ get j state.ready_by_offset
  pub evicted_only :
      (j : ℕ)
      → (get j result.0.ready_by_offset ≡ get j state.ready_by_offset)
        ⊎ (get j result.0.ready_by_offset ≡ none)
  pub evicted_told :
      (q : ℕ) → announced q result.1 ≡ false → slot_state_at result.0 q ≡ slot_state_at state q
  pub balanced : AllBalanced result.1
  pub same_layout : result.0.layout ≡ state.layout

same-IsBounded :
    (Item : Type 0) (keep : MediaRange) (state : ModelState Item)
    → IsBounded Item keep state (state, [])
same-IsBounded Item keep state = record {
  window_kept = λ j k. refl;
  evicted_only = λ j. inl refl;
  evicted_told = λ q quiet. refl;
  balanced = tt;
  same_layout = refl;
}

replaced-IsBounded :
    (Item : Type 0) (keep : MediaRange) (state : ModelState Item) (r : BTreeMap Item × List ℕ)
    → IsLayout state.layout
    → IsEvicted Item keep state.layout (state.ready_by_offset, []) r
    → IsBounded Item keep state (replaced state r)
unfolding replaced
replaced-IsBounded Item keep state (ready_items, slots) w p = record {
  window_kept = p.protected;
  evicted_only = p.only_out;
  evicted_told = λ q quiet.
      slot_state_at-same state (record state { ready_by_offset = ready_items }) q w refl
        (λ j e. p.told j q e (
          sym (emit_replacements_lem q slots (AllBelow-le slots (p.below tt) w.slots_fit))
          ∙ quiet));
  balanced = emit_replacements-AllBalanced slots;
  same_layout = refl;
}

-- In a well-formed layout an eviction keeps every item of the protected window, and of the others each
-- stays or is taken out; it announces every slot whose state it changes, in signals that replace slots
-- by as many, and keeps the layout.
pub evict_to_capacity_lem :
    (Item : Type 0) (keep : MediaRange) (capacity : ℕ) (state : ModelState Item)
    → IsLayout state.layout
    → IsBounded Item keep state (evict_to_capacity keep capacity state)
unfolding evict_to_capacity
evict_to_capacity_lem Item keep capacity state w =
    elim (Bool-cases (leb (length state.ready_by_offset) capacity)) [
      | inl fits ↦ rw fits (same-IsBounded Item keep state)
      | inr full ↦ rw full (
          let excess = length state.ready_by_offset - capacity in
          let offsets = keys state.ready_by_offset in
          let evicted =
            take excess (sort_desc by_distance own_distance (candidates keep offsets)) in
          replaced-IsBounded Item keep state
            (evict_all state.layout evicted (state.ready_by_offset, [])) w
            (evict_all-IsEvicted Item keep state.layout w evicted state.ready_by_offset [] (
              take-AllOutside keep excess
                (sort_desc by_distance own_distance (candidates keep offsets))
                (sort_desc-AllOutside keep (candidates keep offsets)
                  (candidates-AllOutside keep offsets)))))
    ]
