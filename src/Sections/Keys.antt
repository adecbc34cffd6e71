-- ===== src/Sections/Keys.antt =====
-- The keys and the labels of the sections of `group_items`.
use photo_viewer.Base.{
  ℕ, zero, suc, ◌%◌, ◌^◌, ◌≡◌, refl, ap, Bool, true, false, Option, none, some, List, [], ◌∷◌, ◌++◌,
  if◌then◌else◌, length,
}
use photo_viewer.Base.Int.{ℤ}
use photo_viewer.Base.Text.{Text, ascii}
use photo_viewer.Grid.Section.{GroupBy, year, month, day, SectionKey}
use photo_viewer.Sections.{
  Date, key_of_date, MediaSection, Grouping, push_item, section_with, is_unknown, position_of,
  push_unknown, group_at, group_one, group_all,
}
use photo_viewer.Sections.Labels.{
  Weekday, mon, tue, wed, thu, fri, sat, sun, Wording, weekday_cn, weekday_name, make_label,
  labelled, label_all,
}

-- The parts of a key in a mode.
abbrev pub IsKey : GroupBy → SectionKey → Type 0
IsKey year key = (y : ℤ) × (key ≡ record { year = some y; month = none; day = none })
IsKey month key = (y : ℤ) × (m : ℕ) × (key ≡ record { year = some y; month = some m; day = none })
IsKey day key =
    (y : ℤ) × (m : ℕ) × (d : ℕ) × (key ≡ record { year = some y; month = some m; day = some d })

-- The name of a weekday under its key in the translation, nothing for a date that does not exist.
abbrev pub day_name : Wording → Option Weekday → Text
day_name words none = []
day_name words (some mon) = words.trf (ascii "date.weekday.mon") []
day_name words (some tue) = words.trf (ascii "date.weekday.tue") []
day_name words (some wed) = words.trf (ascii "date.weekday.wed") []
day_name words (some thu) = words.trf (ascii "date.weekday.thu") []
day_name words (some fri) = words.trf (ascii "date.weekday.fri") []
day_name words (some sat) = words.trf (ascii "date.weekday.sat") []
day_name words (some sun) = words.trf (ascii "date.weekday.sun") []

weekday_name-day_name :
    (words : Wording) (found : Option Weekday) → weekday_name words found ≡ day_name words found
unfolding weekday_cn
weekday_name-day_name words none = refl
weekday_name-day_name words (some mon) = refl
weekday_name-day_name words (some tue) = refl
weekday_name-day_name words (some wed) = refl
weekday_name-day_name words (some thu) = refl
weekday_name-day_name words (some fri) = refl
weekday_name-day_name words (some sat) = refl
weekday_name-day_name words (some sun) = refl

key_of_date-IsKey : (mode : GroupBy) (date : Date) → IsKey mode (key_of_date mode date)
unfolding key_of_date
key_of_date-IsKey year date = (date.date_year, refl)
key_of_date-IsKey month date = (date.date_year, date.date_month, refl)
key_of_date-IsKey day date = (date.date_year, date.date_month, date.date_day, refl)

module _ {Item : Type 0} where
  abbrev pub AllKeys : GroupBy → List (MediaSection Item) → Type 0
  AllKeys mode [] = Unit
  AllKeys mode (section ∷ rest) = IsKey mode section.key × AllKeys mode rest

  -- The values of a label: the parts of the key, and the number of items in u32.
  abbrev pub number_text : Wording → MediaSection Item → Text
  number_text words section = words.nat_text (length section.items % 2 ^ 32)

  abbrev pub IsLabelled : Wording → GroupBy → MediaSection Item → Type 0
  IsLabelled words year section =
      (y : ℤ) × (section.key ≡ record { year = some y; month = none; day = none })
      × (section.label
          ≡ words.trf (ascii "section.label.year")
              ((ascii "year", words.int_text y) ∷ (ascii "count", number_text words section) ∷ []))
  IsLabelled words month section =
      (y : ℤ) × (m : ℕ) × (section.key ≡ record { year = some y; month = some m; day = none })
      × (section.label
          ≡ words.trf (ascii "section.label.month") (
              (ascii "year", words.int_text y)
              ∷ (ascii "month", words.nat_text m)
              ∷ (ascii "count", number_text words section)
              ∷ []))
  IsLabelled words day section =
      (y : ℤ) × (m : ℕ) × (d : ℕ) × (section.key
        ≡ record { year = some y; month = some m; day = some d })
      × (section.label
          ≡ words.trf (ascii "section.label.day") (
              (ascii "year", words.int_text y)
              ∷ (ascii "month", words.nat_text m)
              ∷ (ascii "day", words.nat_text d)
              ∷ (ascii "weekday", day_name words (words.weekday_of y m d))
              ∷ (ascii "count", number_text words section)
              ∷ []))

  abbrev pub AllLabelled : Wording → GroupBy → List (MediaSection Item) → Type 0
  AllLabelled words mode [] = Unit
  AllLabelled words mode (section ∷ rest) =
      IsLabelled words mode section × AllLabelled words mode rest

  labelled-IsLabelled :
      (words : Wording) (mode : GroupBy) (section : MediaSection Item)
      → IsKey mode section.key
      → IsLabelled words mode (labelled words section)
  unfolding make_label
  labelled-IsLabelled words year section (y, e) = (y, e, rw e refl)
  labelled-IsLabelled words month section (y, m, e) = (y, m, e, rw e refl)
  labelled-IsLabelled words day section (y, m, d, e) =
      let name = weekday_name-day_name words (words.weekday_of y m d) in
      (
        y,
        m,
        d,
        e,
        rw e (
            ap
              (λ weekday. words.trf (ascii "section.label.day") (
                (ascii "year", words.int_text y)
                ∷ (ascii "month", words.nat_text m)
                ∷ (ascii "day", words.nat_text d)
                ∷ (ascii "weekday", weekday)
                ∷ (ascii "count", number_text words section)
                ∷ []))
              name),
      )

  pub label_all-AllLabelled :
      (words : Wording) (mode : GroupBy) (sections : List (MediaSection Item))
      → AllKeys mode sections
      → AllLabelled words mode (label_all words sections)
  unfolding label_all
  label_all-AllLabelled words mode [] keys = tt
  label_all-AllLabelled words mode (section ∷ rest) (key, keys) =
      (labelled-IsLabelled words mode section key, label_all-AllLabelled words mode rest keys)

  push_item-AllKeys :
      (mode : GroupBy) (item : Item) (index : ℕ) (sections : List (MediaSection Item))
      → AllKeys mode sections
      → AllKeys mode (push_item item index sections)
  unfolding push_item
  push_item-AllKeys mode item index [] keys = tt
  push_item-AllKeys mode item zero (section ∷ rest) keys = keys
  push_item-AllKeys mode item (suc index) (section ∷ rest) (key, keys) =
      (key, push_item-AllKeys mode item index rest keys)

  append-AllKeys :
      (mode : GroupBy) (sections : List (MediaSection Item)) (section : MediaSection Item)
      → AllKeys mode sections
      → IsKey mode section.key
      → AllKeys mode (sections ++ section ∷ [])
  append-AllKeys mode [] section keys key = (key, tt)
  append-AllKeys mode (first ∷ rest) section (own, keys) key =
      (own, append-AllKeys mode rest section keys key)

  group_at-AllKeys :
      (mode : GroupBy) (key : SectionKey) (item : Item) (g : Grouping Item) (found : Option ℕ)
      → IsKey mode key
      → AllKeys mode g.sections
      → AllKeys mode ((group_at key item g found).sections)
  unfolding group_at
  group_at-AllKeys mode key item g (some index) own keys =
      push_item-AllKeys mode item index g.sections keys
  group_at-AllKeys mode key item g none own keys =
      append-AllKeys mode g.sections (section_with key item) keys own

  group_one-AllKeys :
      (mode : GroupBy) (key : SectionKey) (item : Item) (g : Grouping Item)
      → IsKey mode key
      → AllKeys mode g.sections
      → AllKeys mode ((group_one key item g).sections)
  unfolding group_one
  group_one-AllKeys mode key item g own keys = kept (is_unknown key)
    where
      kept :
          (unknown : Bool)
          → AllKeys mode (
              (if unknown
                then record g { unknown_section = push_unknown key item g.unknown_section }
                else group_at key item g (position_of key g.section_positions)).sections)
      kept true = keys
      kept false = group_at-AllKeys mode key item g (position_of key g.section_positions) own keys

  pub group_all-AllKeys :
      (sort_datetime : Item → Date) (mode : GroupBy) (items : List Item) (g : Grouping Item)
      → AllKeys mode g.sections
      → AllKeys mode ((group_all sort_datetime mode items g).sections)
  unfolding group_all
  group_all-AllKeys sort_datetime mode [] g keys = keys
  group_all-AllKeys sort_datetime mode (item ∷ rest) g keys =
      let key = key_of_date mode (sort_datetime item) in
      group_all-AllKeys sort_datetime mode rest (group_one key item g)
        (group_one-AllKeys mode key item g (key_of_date-IsKey mode (sort_datetime item)) keys)
