-- ===== src/Sections/Examples.antt =====
-- Tests of the date sections, and their theorems on two days.
use photo_viewer.Base.{
  ℕ, ◌≡◌, refl, true, none, some, List, [], ◌∷◌, ◌++◌, arith, if◌then◌else◌, ◌%◌, ◌^◌, suc,
}
use photo_viewer.Base.Int.{ℤ, pos, negsuc}
use photo_viewer.Base.Text.{Text}
use photo_viewer.Base.Order.{lex_lt}
use photo_viewer.Base.Sort.{sort_desc}
use photo_viewer.Grid.Section.{month, SectionKey, date_rank, date_rank_order}
use photo_viewer.Grid.Layout.{SectionCounts}
use photo_viewer.Sections.{Date, counts_from_date_groups, section_for_global_offset}
use photo_viewer.Sections.Counted.{count_of, sum_of, has_date, counts_from_date_groups_lem}
use photo_viewer.Sections.Offset.{IsSectionAt, section_for_global_offset_lem}
use photo_viewer.Sections.Labels.{Wording, group_items}
use photo_viewer.Sections.Items.{IsByDate, group_items_lem}

abbrev may_day : Date
may_day = record { date_year = pos 2024; date_month = 5; date_day = 3 }

abbrev may_end : Date
may_end = record { date_year = pos 2024; date_month = 5; date_day = 31 }

abbrev may : SectionKey
may = record { year = some (pos 2024); month = some 5; day = none }

abbrev june : SectionKey
june = record { year = some (pos 2024); month = some 6; day = none }

abbrev groups : List (Date × ℕ)
groups = (may_day, 4) ∷ (may_end, 2) ∷ []

counts_by_month : counts_from_date_groups groups month ≡ (may, 6) ∷ []
unfolding counts_from_date_groups
counts_by_month = refl

counts_from_date_groups_lem_example :
    count_of may (counts_from_date_groups groups month)
    ≡ (if has_date month may groups then some (sum_of month may groups % 2 ^ 32) else none)
counts_from_date_groups_lem_example = counts_from_date_groups_lem groups month may

abbrev counts : SectionCounts
counts = (may, 6) ∷ (june, 3) ∷ []

offset-june : section_for_global_offset counts 2 ≡ some june
unfolding section_for_global_offset sort_desc lex_lt
offset-june = refl

section_for_global_offset_lem_example : IsSectionAt counts 2 (section_for_global_offset counts 2)
section_for_global_offset_lem_example = section_for_global_offset_lem counts 2 (omega arith)

abbrev int_byte : ℤ → Text
int_byte (pos n) = n ∷ []
int_byte (negsuc n) = 45 ∷ suc n ∷ []

abbrev values_text : List (Text × Text) → Text
values_text [] = []
values_text ((name, value) ∷ rest) = value ++ values_text rest

may-june : date_rank_order.lt (date_rank may) (date_rank june) ≡ true
unfolding date_rank lex_lt
may-june = refl

-- Words that show their key, and decimals that are one byte.
abbrev words : Wording
words = record {
  trf = λ key values. key ++ values_text values;
  int_text = int_byte;
  nat_text = λ n. n ∷ [];
  weekday_of = λ y m d. none;
}

group_items_lem_example :
    IsByDate words
      (λ date. date)
      month
      (may_day ∷ may_end ∷ [])
      (group_items words (λ date. date) (may_day ∷ may_end ∷ []) month)
group_items_lem_example = group_items_lem words (λ date. date) (may_day ∷ may_end ∷ []) month
