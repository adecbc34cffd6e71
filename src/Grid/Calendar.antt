-- ===== src/Grid/Calendar.antt =====
-- What a date section means, told apart from the code: which dates belong to a section, and which of two
-- sections is the older one.
use photo_viewer.Base.{
  ℕ, ◌≡◌, Bool, true, false, ◌&&◌, ◌||◌, Option, none, some, List, [], ◌∷◌, ltb, ◌==◌, arith,
}
use photo_viewer.Base.Int.{ℤ, ltb_ℤ, eqb_ℤ}
use photo_viewer.Base.Order.{lex_lt}
use photo_viewer.Grid.Section.{
  GroupBy, year, month, day, SectionKey, i64_min, section_sort_key, sort_key_order, date_rank,
  date_rank_order,
}

abbrev pub shows_month : GroupBy → Bool
shows_month year = false
shows_month month = true
shows_month day = true

abbrev pub shows_day : GroupBy → Bool
shows_day year = false
shows_day month = false
shows_day day = true

-- A part of the key: absent where it is not shown, and the part of the date where it is.
abbrev pub part_is : Bool → Option ℕ → ℕ → Bool
part_is false none n = true
part_is false (some p) n = false
part_is true none n = false
part_is true (some p) n = p == n

abbrev pub year_is : Option ℤ → ℤ → Bool
year_is none y = false
year_is (some x) y = eqb_ℤ x y

-- Whether a date belongs to a section, in a grid that shows years, months or days.
abbrev pub in_section : GroupBy → SectionKey → ℤ → ℕ → ℕ → Bool
in_section mode key y m d =
    year_is key.year y
    && part_is (shows_month mode) key.month m
    && part_is (shows_day mode) key.day d

-- A missing year counts as the least one, a missing month or day as zero.
abbrev year_of : SectionKey → ℤ
year_of key = elim key.year [ none ↦ i64_min | some y ↦ y ]

abbrev number_of : Option ℕ → ℕ
number_of none = 0
number_of (some n) = n

-- An earlier year, or an earlier month of one year, or an earlier day of one month.
abbrev pub is_older : SectionKey → SectionKey → Bool
is_older a b =
    ltb_ℤ (year_of a) (year_of b)
    || (eqb_ℤ (year_of a) (year_of b) && ltb (number_of a.month) (number_of b.month))
    || (eqb_ℤ (year_of a) (year_of b)
        && (number_of a.month == number_of b.month)
        && ltb (number_of a.day) (number_of b.day))

-- No section is older than the one behind it.
abbrev pub NewestFirst : List (SectionKey × ℕ) → Type 0
NewestFirst [] = Unit
NewestFirst (a ∷ []) = Unit
NewestFirst (a ∷ b ∷ rest) = (is_older a.0 b.0 ≡ false) × NewestFirst (b ∷ rest)

pub date_rank-is_older :
    (a b : SectionKey)
    → date_rank_order.lt (date_rank a) (date_rank b) ≡ false
    → is_older a b ≡ false
unfolding date_rank lex_lt
date_rank-is_older a b h = ground arith

pub section_sort_key-is_older :
    (a b : SectionKey)
    → sort_key_order.lt (section_sort_key a) (section_sort_key b) ≡ false
    → is_older a b ≡ false
unfolding section_sort_key lex_lt
section_sort_key-is_older a b h = ground arith
