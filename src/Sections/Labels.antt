-- ===== src/Sections/Labels.antt =====
-- src/core/section_model.rs: the labels, for the words of src/core/i18n and the calendar of `chrono`.
use photo_viewer.Base.{
  ℕ, ◌≡◌, true, not, Option, none, some, List, [], ◌∷◌, ◌++◌, if◌then◌else◌, length, arith, ◌%◌,
  ◌^◌, ◌⊎◌,
}
use photo_viewer.Base.Int.{ℤ}
use photo_viewer.Base.Text.{Text, ascii}
use photo_viewer.Grid.Section.{GroupBy, SectionKey, date_rank, date_rank_order}
use photo_viewer.Grid.Layout.{SectionCounts}
use photo_viewer.Sections.Counted.{count_of, key_eq_iff}
use photo_viewer.Sections.{Date, key_eq, MediaSection, Grouping, group_all}

pub data Weekday : Type 0 where
  mon tue wed thu fri sat sun : Weekday

-- The formatting that the labels use: `trf` with the values of its placeholders, the decimals, and
-- `NaiveDate::from_ymd_opt` with `weekday`.
pub record Wording : Type 0 where
  pub trf : Text → List (Text × Text) → Text
  pub int_text : ℤ → Text
  pub nat_text : ℕ → Text
  pub weekday_of : ℤ → ℕ → ℕ → Option Weekday

module _ (words : Wording) where
  unfoldable pub weekday_cn : Weekday → Text
  weekday_cn sun = words.trf (ascii "date.weekday.sun") []
  weekday_cn mon = words.trf (ascii "date.weekday.mon") []
  weekday_cn tue = words.trf (ascii "date.weekday.tue") []
  weekday_cn wed = words.trf (ascii "date.weekday.wed") []
  weekday_cn thu = words.trf (ascii "date.weekday.thu") []
  weekday_cn fri = words.trf (ascii "date.weekday.fri") []
  weekday_cn sat = words.trf (ascii "date.weekday.sat") []

  abbrev pub weekday_name : Option Weekday → Text
  weekday_name none = []
  weekday_name (some d) = weekday_cn d

  label_of : Option ℤ → Option ℕ → Option ℕ → Text → Text
  unfolding weekday_cn
  label_of (some y) (some m) (some d) count = words.trf (ascii "section.label.day") (
      (ascii "year", words.int_text y)
      ∷ (ascii "month", words.nat_text m)
      ∷ (ascii "day", words.nat_text d)
      ∷ (ascii "weekday", weekday_name (words.weekday_of y m d))
      ∷ (ascii "count", count)
      ∷ [])
  label_of (some y) (some m) none count = words.trf (ascii "section.label.month") (
      (ascii "year", words.int_text y)
      ∷ (ascii "month", words.nat_text m)
      ∷ (ascii "count", count)
      ∷ [])
  label_of (some y) none none count =
      words.trf (ascii "section.label.year")
        ((ascii "year", words.int_text y) ∷ (ascii "count", count) ∷ [])
  label_of (some y) none (some d) count =
      words.trf (ascii "section.label.unknown") ((ascii "count", count) ∷ [])
  label_of none m d count = words.trf (ascii "section.label.unknown") ((ascii "count", count) ∷ [])

  unfoldable pub make_label : SectionKey → ℕ → Text
  unfolding label_of
  make_label key count = label_of key.year key.month key.day (words.nat_text count)

  label_of_nocount : Option ℤ → Option ℕ → Option ℕ → Text
  label_of_nocount (some y) (some m) (some d) = words.trf (ascii "section.label.day.nocount") (
      (ascii "year", words.int_text y)
      ∷ (ascii "month", words.nat_text m)
      ∷ (ascii "day", words.nat_text d)
      ∷ [])
  label_of_nocount (some y) (some m) none =
      words.trf (ascii "section.label.month.nocount")
        ((ascii "year", words.int_text y) ∷ (ascii "month", words.nat_text m) ∷ [])
  label_of_nocount (some y) none none =
      words.trf (ascii "section.label.year.nocount") ((ascii "year", words.int_text y) ∷ [])
  label_of_nocount (some y) none (some d) = words.trf (ascii "section.label.unknown.nocount") []
  label_of_nocount none m d = words.trf (ascii "section.label.unknown.nocount") []

  unfoldable pub make_label_nocount : SectionKey → Text
  unfolding label_of_nocount
  make_label_nocount key = label_of_nocount key.year key.month key.day

  -- " – ", with the bytes of the dash
  abbrev pub range_text : SectionKey → SectionKey → Text
  range_text start end =
      make_label_nocount start ++ (32 ∷ 226 ∷ 128 ∷ 147 ∷ 32 ∷ []) ++ make_label_nocount end

  unfoldable pub make_visible_range_label : SectionKey → SectionKey → Text
  make_visible_range_label first_visible last_visible =
      if key_eq first_visible last_visible
      then make_label_nocount first_visible
      else if not (date_rank_order.lt (date_rank last_visible) (date_rank first_visible))
      then range_text first_visible last_visible
      else range_text last_visible first_visible

  module _ {Item : Type 0} where
    -- `sec.items.len() as u32`
    abbrev pub labelled : MediaSection Item → MediaSection Item
    labelled section = record section {
      label = make_label section.key (length section.items % 2 ^ 32);
    }

    unfoldable pub label_all : List (MediaSection Item) → List (MediaSection Item)
    unfolding make_label
    label_all [] = []
    label_all (section ∷ rest) = labelled section ∷ label_all rest

    unfoldable pub with_unknown :
        Option (MediaSection Item) → List (MediaSection Item) → List (MediaSection Item)
    with_unknown none sections = sections
    with_unknown (some section) sections = sections ++ labelled section ∷ []

    unfoldable pub group_items : (Item → Date) → List Item → GroupBy → List (MediaSection Item)
    unfolding label_all group_all with_unknown
    group_items sort_datetime items mode =
        let empty : Grouping Item = record {
          sections = [];
          section_positions = [];
          unknown_section = none;
        } in
        let g = group_all sort_datetime mode items empty in
        with_unknown g.unknown_section (label_all g.sections)

    relabelled : Option ℕ → MediaSection Item → MediaSection Item
    relabelled none section = section
    relabelled (some true_count) section = record section {
      label = make_label section.key true_count;
    }

    unfoldable pub apply_authoritative_counts :
        List (MediaSection Item) → SectionCounts → List (MediaSection Item)
    unfolding relabelled count_of make_label
    apply_authoritative_counts [] counts = []
    apply_authoritative_counts (section ∷ rest) counts =
        relabelled (count_of section.key counts) section ∷ apply_authoritative_counts rest counts

  -- The label of a viewport does not depend on which of its ends is the newer one, where the dates of
  -- the two ends differ in rank.
  make_visible_range_label_comm :
      (a b : SectionKey)
      → (date_rank_order.lt (date_rank a) (date_rank b) ≡ true)
        ⊎ (date_rank_order.lt (date_rank b) (date_rank a) ≡ true)
      → make_visible_range_label a b ≡ make_visible_range_label b a
  unfolding make_visible_range_label
  make_visible_range_label_comm a b h = ground (
    arith,
    key_eq_iff a b,
    key_eq_iff b a,
    date_rank_order.asymm (date_rank a) (date_rank b),
    date_rank_order.asymm (date_rank b) (date_rank a),
  )
