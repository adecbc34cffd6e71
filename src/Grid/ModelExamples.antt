-- ===== src/Grid/ModelExamples.antt =====
-- The list model at a layout of two date sections, and its theorems there.
use photo_viewer.Base.U32.{u32_max}
use photo_viewer.Base.Sort.{sort_desc}
use photo_viewer.Base.Order.{lex_lt}
use photo_viewer.Grid.Section.{section_sort_key}
use photo_viewer.Grid.Model.Inserting.{insert_ready_item}
use photo_viewer.Grid.Model.Inserting.Shifted.{IsInserted, insert_ready_item-IsInserted}
use photo_viewer.Base.{ℕ, ◌<◌, ◌≡◌, refl, true, ◌==◌, some, [], ◌∷◌, arith}
use photo_viewer.Base.Int.{pos}
use photo_viewer.Grid.Section.{SectionKey}
use photo_viewer.Grid.Layout.{SectionCounts, new}
use photo_viewer.Grid.Layout.Build.{new-IsLayout}
use photo_viewer.Grid.Range.{MediaRange}
use photo_viewer.Grid.Model.{ModelState, emit_replacements}
use photo_viewer.Grid.Model.Resident.{replace_ready_range, evict_to_capacity}
use photo_viewer.Grid.Model.Replace.{IsInstalled, replace_ready_range_lem}
use photo_viewer.Grid.Model.Evict.{IsBounded, evict_to_capacity_lem}

abbrev may_day : SectionKey
may_day = record { year = some (pos 2024); month = some 5; day = some 3 }

abbrev new_year : SectionKey
new_year = record { year = some (pos 2023); month = some 1; day = some 1 }

abbrev counts : SectionCounts
counts = (new_year, 2) ∷ (may_day, 4) ∷ []

-- The items are numbers.
abbrev state : ModelState ℕ
state = record {
  layout = new counts 3;
  layout_generation = 1;
  ready_by_offset = (0, 10) ∷ (1, 11) ∷ (5, 15) ∷ [];
}

abbrev window : MediaRange
window = record { start = 1; end = 5 }

emit_replacements-example :
    emit_replacements (7 ∷ 3 ∷ 4 ∷ 3 ∷ [])
    ≡ record { position = 3; removed = 2; added = 2 }
      ∷ record { position = 7; removed = 1; added = 1 }
      ∷ []
unfolding emit_replacements
emit_replacements-example = refl

ℕ_eq_sound : (a b : ℕ) → (a == b) ≡ true → a ≡ b
ℕ_eq_sound a b h = ground arith

replace_ready_range_lem_example :
    IsInstalled ℕ window
      (11 ∷ 12 ∷ [])
      state
      (replace_ready_range (λ a b. a == b) window (11 ∷ 12 ∷ []) state)
replace_ready_range_lem_example =
    replace_ready_range_lem ℕ (λ a b. a == b) ℕ_eq_sound window (11 ∷ 12 ∷ []) state (omega arith)
      (omega arith) (new-IsLayout counts 3)

evict_to_capacity_lem_example : IsBounded ℕ window state (evict_to_capacity window 2 state)
evict_to_capacity_lem_example = evict_to_capacity_lem ℕ window 2 state (new-IsLayout counts 3)

-- A fifth photo of that day.
abbrev more : SectionCounts
more = (new_year, 2) ∷ (may_day, 5) ∷ []

slots_countable : state.layout.slot_count < u32_max
unfolding new section_sort_key sort_desc lex_lt
slots_countable = omega arith

offset_shown : 2 < (new more 3).media_count
unfolding new section_sort_key sort_desc lex_lt
offset_shown = omega arith

insert_ready_item-IsInserted_example :
    IsInserted (new more 3) 2 99 state (insert_ready_item (new more 3) 2 99 state)
insert_ready_item-IsInserted_example =
    insert_ready_item-IsInserted (new more 3) 2 99 state (new-IsLayout more 3)
      (new-IsLayout counts 3) slots_countable offset_shown
