-- ===== src/Sections/Grouped.antt =====
-- `group_items`: the sections with a key, before and after an item is pushed or a section appended.
use photo_viewer.Base.{
  ℕ, zero, suc, ◌+◌, ◌≤◌, ◌≡◌, refl, Option, none, some, List, [], ◌∷◌, ◌++◌, if◌then◌else◌, arith,
  length,
}
use photo_viewer.Grid.Section.{GroupBy, SectionKey}
use photo_viewer.Grid.Calendar.{in_section}
use photo_viewer.Sections.{Date, key_eq, MediaSection, push_item}
use photo_viewer.Sections.Counted.{key_eq_iff}

module _ {Item : Type 0} where
  -- The items of the first section with a key, its index, and how many sections have the key.
  unfoldable pub items_of : SectionKey → List (MediaSection Item) → List Item
  items_of key [] = []
  items_of key (section ∷ rest) =
      if key_eq section.key key then section.items else items_of key rest

  unfoldable pub index_of : SectionKey → ℕ → List (MediaSection Item) → Option ℕ
  index_of key n [] = none
  index_of key n (section ∷ rest) =
      if key_eq section.key key then some n else index_of key (suc n) rest

  unfoldable pub sections_of : SectionKey → List (MediaSection Item) → ℕ
  sections_of key [] = 0
  sections_of key (section ∷ rest) =
      (if key_eq section.key key then 1 else 0) + sections_of key rest

  -- The items of a listing in a section.
  unfoldable pub listed_in : (Item → Date) → GroupBy → SectionKey → List Item → List Item
  listed_in sort_datetime mode key [] = []
  listed_in sort_datetime mode key (item ∷ rest) =
      let later = listed_in sort_datetime mode key rest in
      let date = sort_datetime item in
      if in_section mode key date.date_year date.date_month date.date_day
      then item ∷ later
      else later

  index_of-ge :
      (k : SectionKey) (n i : ℕ) (sections : List (MediaSection Item))
      → index_of k n sections ≡ some i
      → n ≤ i
  unfolding index_of
  index_of-ge k n i [] e = ground arith
  index_of-ge k n i (section ∷ rest) e = ground (arith, index_of-ge k (suc n) i rest)

  pub index_of-push_item :
      (item : Item) (j : SectionKey) (i n : ℕ) (sections : List (MediaSection Item))
      → index_of j n (push_item item i sections) ≡ index_of j n sections
  unfolding index_of push_item
  index_of-push_item item j i n [] = refl
  index_of-push_item item j zero n (section ∷ rest) = refl
  index_of-push_item item j (suc i) n (section ∷ rest) =
      ground (arith, index_of-push_item item j i (suc n) rest)

  pub sections_of-push_item :
      (item : Item) (j : SectionKey) (i : ℕ) (sections : List (MediaSection Item))
      → sections_of j (push_item item i sections) ≡ sections_of j sections
  unfolding sections_of push_item
  sections_of-push_item item j i [] = refl
  sections_of-push_item item j zero (section ∷ rest) = refl
  sections_of-push_item item j (suc i) (section ∷ rest) =
      ground (arith, sections_of-push_item item j i rest)

  pub items_of-push_item :
      (item : Item) (j k : SectionKey) (n i : ℕ) (sections : List (MediaSection Item))
      → index_of k n sections ≡ some (n + i)
      → items_of j (push_item item i sections)
        ≡ (if key_eq k j then items_of k sections ++ item ∷ [] else items_of j sections)
  unfolding items_of push_item index_of
  items_of-push_item item j k n i [] e = ground arith
  items_of-push_item item j k n zero (section ∷ rest) e = ground (
    arith,
    index_of-ge k (suc n) n rest,
    key_eq_iff section.key k,
    key_eq_iff section.key j,
    key_eq_iff k j,
  )
  items_of-push_item item j k n (suc i) (section ∷ rest) e = ground (
    arith,
    items_of-push_item item j k (suc n) i rest,
    key_eq_iff section.key k,
    key_eq_iff section.key j,
    key_eq_iff k j,
  )

  pub index_of-append :
      (j : SectionKey) (n : ℕ) (sections : List (MediaSection Item)) (last : MediaSection Item)
      → index_of j n sections ≡ none
      → index_of j n (sections ++ last ∷ [])
        ≡ (if key_eq last.key j then some (n + length sections) else none)
  unfolding index_of
  index_of-append j n [] last e = ground arith
  index_of-append j n (section ∷ rest) last e = ground (arith, index_of-append j (suc n) rest last)

  pub index_of-append_found :
      (j : SectionKey) (n i : ℕ) (sections : List (MediaSection Item)) (last : MediaSection Item)
      → index_of j n sections ≡ some i
      → index_of j n (sections ++ last ∷ []) ≡ some i
  unfolding index_of
  index_of-append_found j n i [] last e = ground arith
  index_of-append_found j n i (section ∷ rest) last e =
      ground (arith, index_of-append_found j (suc n) i rest last)

  pub sections_of-append :
      (j : SectionKey) (sections : List (MediaSection Item)) (last : MediaSection Item)
      → sections_of j (sections ++ last ∷ [])
        ≡ sections_of j sections + (if key_eq last.key j then 1 else 0)
  unfolding sections_of
  sections_of-append j [] last = ground arith
  sections_of-append j (section ∷ rest) last = ground (arith, sections_of-append j rest last)

  pub absent-sections_of :
      (j : SectionKey) (n : ℕ) (sections : List (MediaSection Item))
      → index_of j n sections ≡ none
      → (sections_of j sections ≡ 0) × (items_of j sections ≡ [])
  unfolding sections_of index_of items_of
  absent-sections_of j n [] e = (refl, refl)
  absent-sections_of j n (section ∷ rest) e = ground (arith, absent-sections_of j (suc n) rest)

  pub items_of-append :
      (j : SectionKey) (n : ℕ) (sections : List (MediaSection Item)) (last : MediaSection Item)
      → index_of j n sections ≡ none
      → items_of j (sections ++ last ∷ []) ≡ (if key_eq last.key j then last.items else [])
  unfolding items_of index_of
  items_of-append j n [] last e = ground arith
  items_of-append j n (section ∷ rest) last e = ground (arith, items_of-append j (suc n) rest last)

  pub items_of-append_found :
      (j : SectionKey) (n i : ℕ) (sections : List (MediaSection Item)) (last : MediaSection Item)
      → index_of j n sections ≡ some i
      → items_of j (sections ++ last ∷ []) ≡ items_of j sections
  unfolding items_of index_of
  items_of-append_found j n i [] last e = ground arith
  items_of-append_found j n i (section ∷ rest) last e =
      ground (arith, items_of-append_found j (suc n) i rest last)
