-- ===== src/Sections.antt =====
-- src/core/section_model.rs: media grouped by date, the counts of the date sections, the section of an
-- offset and the labels.
pub mod Counted
pub mod Offset
pub mod Grouped
pub mod Labels
pub mod Keys
pub mod Items
mod Examples
use photo_viewer.Base.{
  ℕ, zero, suc, ◌+◌, ◌%◌, ◌^◌, Bool, true, false, ◌&&◌, ◌||◌, not, Option, none, some, List, [],
  ◌∷◌, ◌++◌, ltb, leb, ◌==◌, if◌then◌else◌, length,
}
use photo_viewer.Base.U32.{saturating_add}
use photo_viewer.Base.Int.{ℤ, eqb_ℤ}
use photo_viewer.Base.Text.{Text, ascii}
use photo_viewer.Base.Order.{StrictOrder}
use photo_viewer.Base.Sort.{sort_desc}
use photo_viewer.Grid.Section.{
  GroupBy, year, month, day, SectionKey, date_rank, DateRank, date_rank_order,
}
use photo_viewer.Grid.Layout.{SectionCounts}

abbrev eq_year : Option ℤ → Option ℤ → Bool
eq_year none none = true
eq_year (some a) (some b) = eqb_ℤ a b
eq_year _ _ = false

abbrev eq_part : Option ℕ → Option ℕ → Bool
eq_part none none = true
eq_part (some a) (some b) = a == b
eq_part _ _ = false

-- The derived equality of the keys.
unfoldable pub key_eq : SectionKey → SectionKey → Bool
key_eq a b = eq_year a.year b.year && (eq_part a.month b.month && eq_part a.day b.day)

pub record Date : Type 0 where
  pub date_year : ℤ
  pub date_month : ℕ
  pub date_day : ℕ

unfoldable pub key_of_date : GroupBy → Date → SectionKey
key_of_date year d = record { year = some d.date_year; month = none; day = none }
key_of_date month d = record { year = some d.date_year; month = some d.date_month; day = none }
key_of_date day d = record {
  year = some d.date_year;
  month = some d.date_month;
  day = some d.date_day;
}

-- `*map.entry(key).or_insert(0) += count`, on u32
unfoldable pub add_count : SectionKey → ℕ → SectionCounts → SectionCounts
unfolding key_eq
add_count key count [] = (key, count % 2 ^ 32) ∷ []
add_count key count ((k, c) ∷ rest) =
    let later = add_count key count rest in
    if key_eq k key then (k, (c + count) % 2 ^ 32) ∷ rest else (k, c) ∷ later

unfoldable pub add_groups : GroupBy → List (Date × ℕ) → SectionCounts → SectionCounts
unfolding add_count key_of_date
add_groups mode [] counts = counts
add_groups mode ((date, count) ∷ rest) counts =
    add_groups mode rest (add_count (key_of_date mode date) count counts)

unfoldable pub counts_from_date_groups : List (Date × ℕ) → GroupBy → SectionCounts
unfolding add_groups
counts_from_date_groups groups mode = add_groups mode groups []

abbrev pub rank_of : SectionKey × ℕ → DateRank
rank_of (key, count) = date_rank key

-- The loop over the sections, from `acc` on.
unfoldable pub find_offset : ℕ → ℕ → SectionCounts → Option SectionKey
find_offset offset acc [] = none
find_offset offset acc ((key, count) ∷ rest) =
    let later = find_offset offset (saturating_add acc count) rest in
    if ltb offset (saturating_add acc count) then some key else later

abbrev pub last_key : SectionCounts → Option SectionKey
last_key [] = none
last_key ((key, count) ∷ []) = some key
last_key (_ ∷ next ∷ rest) = last_key (next ∷ rest)

abbrev pub or_last : Option SectionKey → SectionCounts → Option SectionKey
or_last none ordered = last_key ordered
or_last (some key) ordered = some key

unfoldable pub newest_first : SectionCounts → SectionCounts
unfolding date_rank
newest_first counts = sort_desc date_rank_order rank_of counts

unfoldable pub section_for_global_offset : SectionCounts → ℕ → Option SectionKey
unfolding newest_first find_offset
section_for_global_offset [] offset = none
section_for_global_offset (section ∷ rest) offset =
    let ordered = newest_first (section ∷ rest) in or_last (find_offset offset 0 ordered) ordered

pub record MediaSection (Item : Type 0) : Type 0 where
  pub key : SectionKey
  pub label : Text
  pub items : List Item

-- The locals of `group_items`.
pub record Grouping (Item : Type 0) : Type 0 where
  pub sections : List (MediaSection Item)
  pub section_positions : List (SectionKey × ℕ)
  pub unknown_section : Option (MediaSection Item)

unfoldable pub position_of : SectionKey → List (SectionKey × ℕ) → Option ℕ
unfolding key_eq
position_of key [] = none
position_of key ((k, index) ∷ rest) = if key_eq k key then some index else position_of key rest

-- `key.year.is_none() && key.month.is_none() && key.day.is_none()`
abbrev pub is_unknown : SectionKey → Bool
is_unknown key = elim key.year [
  | some _ ↦ false
  | none ↦ elim key.month [ some _ ↦ false | none ↦ elim key.day [ some _ ↦ false | none ↦ true ] ]
]

module _ {Item : Type 0} where
  abbrev pub push_to : Item → MediaSection Item → MediaSection Item
  push_to item section = record section { items = section.items ++ item ∷ [] }

  abbrev pub section_with : SectionKey → Item → MediaSection Item
  section_with key item = record { key = key; label = []; items = item ∷ [] }

  -- `sections[idx].items.push(item.clone())`
  unfoldable pub push_item : Item → ℕ → List (MediaSection Item) → List (MediaSection Item)
  push_item item index [] = []
  push_item item zero (section ∷ rest) = push_to item section ∷ rest
  push_item item (suc index) (section ∷ rest) = section ∷ push_item item index rest

  abbrev pub push_unknown :
      SectionKey → Item → Option (MediaSection Item) → Option (MediaSection Item)
  push_unknown key item none = some (section_with key item)
  push_unknown key item (some section) = some (push_to item section)

  unfoldable pub group_at : SectionKey → Item → Grouping Item → Option ℕ → Grouping Item
  unfolding push_item
  group_at key item g (some index) = record g { sections = push_item item index g.sections }
  group_at key item g none = record g {
    sections = g.sections ++ section_with key item ∷ [];
    section_positions = (key, length g.sections) ∷ g.section_positions;
  }

  -- One round of `group_items`.
  unfoldable pub group_one : SectionKey → Item → Grouping Item → Grouping Item
  unfolding group_at position_of
  group_one key item g =
      if is_unknown key
      then record g { unknown_section = push_unknown key item g.unknown_section }
      else group_at key item g (position_of key g.section_positions)

  unfoldable pub group_all : (Item → Date) → GroupBy → List Item → Grouping Item → Grouping Item
  unfolding group_one key_of_date
  group_all sort_datetime mode [] g = g
  group_all sort_datetime mode (item ∷ rest) g =
      group_all sort_datetime mode rest (group_one (key_of_date mode (sort_datetime item)) item g)
