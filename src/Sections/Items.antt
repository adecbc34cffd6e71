-- ===== src/Sections/Items.antt =====
-- `group_items`: every medium stands in the section of its date, in the order of the listing.
use mathlib.Core.List.{append-nil, append_assoc}
use photo_viewer.Base.{
  ℕ, ◌≤◌, ◌≡◌, refl, sym, ap, ◌∙◌, Bool, true, false, Option, none, some, List, [], ◌∷◌, ◌++◌,
  if◌then◌else◌, arith, Option-cases, inl, inr, length, subst,
}
use photo_viewer.Grid.Section.{GroupBy, year, month, day, SectionKey}
use photo_viewer.Sections.{
  Date, key_eq, key_of_date, MediaSection, Grouping, position_of, is_unknown, section_with,
  group_at, group_one, group_all,
}
use photo_viewer.Sections.Counted.{key_eq_iff, key_of_date-in_section}
use photo_viewer.Sections.Keys.{AllKeys, AllLabelled, label_all-AllLabelled, group_all-AllKeys}
use photo_viewer.Sections.Labels.{Wording, label_all, with_unknown, group_items}
use photo_viewer.Sections.Grouped.{
  items_of, index_of, sections_of, listed_in, index_of-push_item, sections_of-push_item,
  items_of-push_item, index_of-append, index_of-append_found, sections_of-append,
  absent-sections_of, items_of-append, items_of-append_found,
}

-- The positions are those of the sections, which have distinct keys.
record IsGrouping (Item : Type 0) (g : Grouping Item) : Type 0 where
  indexed : (k : SectionKey) → position_of k g.section_positions ≡ index_of k 0 g.sections
  single : (k : SectionKey) → sections_of k g.sections ≤ 1
  none_unknown : g.unknown_section ≡ none

abbrev just_if : {A : Type 0} → Bool → A → List A
just_if true a = a ∷ []
just_if false a = []

-- A round of the loop: the sections as before, and one item more in that of its key.
record IsPushed (Item : Type 0) (key : SectionKey) (item : Item) (g after : Grouping Item)
    : Type 0 where
  good : IsGrouping Item after
  pushed :
      (j : SectionKey)
      → items_of j after.sections ≡ items_of j g.sections ++ just_if (key_eq key j) item

dated-is_unknown : (mode : GroupBy) (date : Date) → is_unknown (key_of_date mode date) ≡ false
unfolding key_of_date
dated-is_unknown year date = refl
dated-is_unknown month date = refl
dated-is_unknown day date = refl

just_if-append :
    {A : Type 0} (b : Bool) (x : A) (l : List A) → just_if b x ++ l ≡ (if b then x ∷ l else l)
just_if-append true x l = refl
just_if-append false x l = refl

position_of-cons :
    (k key : SectionKey) (index : ℕ) (rest : List (SectionKey × ℕ))
    → position_of k ((key, index) ∷ rest)
      ≡ (if key_eq key k then some index else position_of k rest)
unfolding position_of
position_of-cons k key index rest = refl

module _ {Item : Type 0} where
  group_at-IsPushed :
      (key : SectionKey) (item : Item) (g : Grouping Item) (found : Option ℕ)
      → position_of key g.section_positions ≡ found
      → IsGrouping Item g
      → IsPushed Item key item g (group_at key item g found)
  unfolding group_at
  group_at-IsPushed key item g (some index) e good = record {
    good = record {
      indexed = λ k. good.indexed k ∙ sym (index_of-push_item item k index 0 g.sections);
      single = λ k. ground (arith, sections_of-push_item item k index g.sections, good.single k);
      none_unknown = good.none_unknown;
    };
    pushed = λ j. ground (
      arith,
      items_of-push_item item j key 0 index g.sections,
      good.indexed key,
      key_eq_iff key j,
      append-nil (items_of j g.sections),
    );
  }
  group_at-IsPushed key item g none e good = record {
    good = record {
      indexed = λ k. elim (Option-cases (index_of k 0 g.sections)) [
        | inl absent ↦ ground (
          arith,
          position_of-cons k key (length g.sections) g.section_positions,
          index_of-append k 0 g.sections (section_with key item) absent,
          good.indexed k,
        )
        | inr (i, found) ↦ ground (
          arith,
          position_of-cons k key (length g.sections) g.section_positions,
          index_of-append_found k 0 i g.sections (section_with key item) found,
          good.indexed k,
          good.indexed key,
          key_eq_iff key k,
        )
      ];
      single = λ k. ground (
        arith,
        sections_of-append k g.sections (section_with key item),
        absent-sections_of key 0 g.sections,
        good.indexed key,
        good.single k,
        key_eq_iff key k,
      );
      none_unknown = good.none_unknown;
    };
    pushed = λ j. elim (Option-cases (index_of j 0 g.sections)) [
      | inl absent ↦ ground (
        arith,
        items_of-append j 0 g.sections (section_with key item) absent,
        absent-sections_of j 0 g.sections absent,
      )
      | inr (i, found) ↦ ground (
        arith,
        items_of-append_found j 0 i g.sections (section_with key item) found,
        good.indexed j,
        good.indexed key,
        key_eq_iff key j,
        append-nil (items_of j g.sections),
      )
    ];
  }

  group_one-dated :
      (key : SectionKey) (item : Item) (g : Grouping Item)
      → is_unknown key ≡ false
      → group_one key item g ≡ group_at key item g (position_of key g.section_positions)
  unfolding group_one
  group_one-dated key item g h = rw h

  group_one-IsPushed :
      (key : SectionKey) (item : Item) (g : Grouping Item)
      → is_unknown key ≡ false
      → IsGrouping Item g
      → IsPushed Item key item g (group_one key item g)
  group_one-IsPushed key item g h good =
      subst (IsPushed Item key item g) (sym (group_one-dated key item g h))
        (group_at-IsPushed key item g (position_of key g.section_positions) refl good)

  -- The items of a key, after those of a listing were added.
  record IsListed (sort_datetime : Item → Date) (mode : GroupBy) (items : List Item)
      (g after : Grouping Item) : Type 0 where
    sorted : IsGrouping Item after
    listed :
        (j : SectionKey)
        → items_of j after.sections ≡ items_of j g.sections ++ listed_in sort_datetime mode j items

  group_all-IsListed :
      (sort_datetime : Item → Date) (mode : GroupBy) (items : List Item) (g : Grouping Item)
      → IsGrouping Item g
      → IsListed sort_datetime mode items g (group_all sort_datetime mode items g)
  unfolding group_all listed_in
  group_all-IsListed sort_datetime mode [] g good = record {
    sorted = good;
    listed = λ j. sym (append-nil (items_of j g.sections));
  }
  group_all-IsListed sort_datetime mode (item ∷ rest) g good =
      let key = key_of_date mode (sort_datetime item) in
      let one = group_one-IsPushed key item g (dated-is_unknown mode (sort_datetime item)) good in
      let later = group_all-IsListed sort_datetime mode rest (group_one key item g) one.good in
      record {
        sorted = later.sorted;
        listed = λ j.
            let own = just_if (key_eq key j) item in
            let others = listed_in sort_datetime mode j rest in
            later.listed j
            ∙ ap (λ l. l ++ others) (one.pushed j)
            ∙ append_assoc (items_of j g.sections) own others
            ∙ ap (λ l. items_of j g.sections ++ l) (just_if-append (key_eq key j) item others)
            ∙ ap (λ b. items_of j g.sections ++ (if b then item ∷ others else others))
                (key_of_date-in_section mode j (sort_datetime item));
      }

  module _ (words : Wording) where
    items_of-label_all :
        (j : SectionKey) (sections : List (MediaSection Item))
        → items_of j (label_all words sections) ≡ items_of j sections
    unfolding items_of label_all
    items_of-label_all j [] = refl
    items_of-label_all j (section ∷ rest) = ground (arith, items_of-label_all j rest)

    sections_of-label_all :
        (j : SectionKey) (sections : List (MediaSection Item))
        → sections_of j (label_all words sections) ≡ sections_of j sections
    unfolding sections_of label_all
    sections_of-label_all j [] = refl
    sections_of-label_all j (section ∷ rest) = ground (arith, sections_of-label_all j rest)

    pub record IsByDate (sort_datetime : Item → Date) (mode : GroupBy) (items : List Item)
        (sections : List (MediaSection Item)) : Type 0 where
      pub by_date :
          (key : SectionKey) → items_of key sections ≡ listed_in sort_datetime mode key items
      pub once : (key : SectionKey) → sections_of key sections ≤ 1
      pub labels : AllLabelled words mode sections

    labelled-IsByDate :
        (sort_datetime : Item → Date) (mode : GroupBy) (items : List Item) (empty g : Grouping Item)
        → ((j : SectionKey) → items_of j empty.sections ≡ [])
        → IsListed sort_datetime mode items empty g
        → AllKeys mode g.sections
        → IsByDate sort_datetime mode items
            (with_unknown words g.unknown_section (label_all words g.sections))
    unfolding with_unknown
    labelled-IsByDate sort_datetime mode items empty g none_in p keys =
        rw p.sorted.none_unknown (record {
          by_date = λ key.
              items_of-label_all key g.sections
              ∙ p.listed key
              ∙ ap (λ l. l ++ listed_in sort_datetime mode key items) (none_in key);
          once = λ key. ground (arith, sections_of-label_all key g.sections, p.sorted.single key);
          labels = label_all-AllLabelled words mode g.sections keys;
        })

    -- Grouping a listing gives each date section at most once, with exactly the items whose date belongs
    -- to it, which agrees with its key in the parts that the mode shows, in the order of the listing. Each
    -- section has a key with these parts, and the label of the mode with the values of these parts, in
    -- days the weekday, and the number of its items modulo 2 ^ 32.
    pub group_items_lem :
        (sort_datetime : Item → Date) (items : List Item) (mode : GroupBy)
        → IsByDate sort_datetime mode items (group_items words sort_datetime items mode)
    unfolding group_items items_of position_of index_of sections_of
    group_items_lem sort_datetime items mode =
        let empty : Grouping Item = record {
          sections = [];
          section_positions = [];
          unknown_section = none;
        } in
        labelled-IsByDate sort_datetime mode items empty (group_all sort_datetime mode items empty)
          (λ j. refl)
          (group_all-IsListed sort_datetime mode items empty
            (record { indexed = λ k. refl; single = λ k. omega arith; none_unknown = refl }))
          (group_all-AllKeys sort_datetime mode items empty tt)
