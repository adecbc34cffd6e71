-- ===== src/Sections/Counted.antt =====
-- The counts that `counts_from_date_groups` folds.
use photo_viewer.Base.{
  ℕ, ◌+◌, ◌%◌, ◌^◌, ◌≡◌, refl, ap, ◌↔◌, Bool, true, false, ◌||◌, Option, none, some, List, [], ◌∷◌,
  if◌then◌else◌, arith, ◌<◌, Bool-cases, inl, inr,
}
use photo_viewer.Base.Int.{ℤ, eq_of_parts}
use photo_viewer.Grid.Section.{GroupBy, year, month, day, SectionKey}
use photo_viewer.Grid.Calendar.{in_section}
use photo_viewer.Grid.Layout.{SectionCounts}
use photo_viewer.Sections.{
  Date, key_eq, key_of_date, add_count, add_groups, counts_from_date_groups, eq_year, eq_part,
}

eq_year_sound : (a b : Option ℤ) → eq_year a b ≡ true → a ≡ b
eq_year_sound none none h = refl
eq_year_sound none (some y) h = ground arith
eq_year_sound (some x) none h = ground arith
eq_year_sound (some x) (some y) h = ap some (eq_of_parts x y (ground arith))

eq_part_sound : (a b : Option ℕ) → eq_part a b ≡ true → a ≡ b
eq_part_sound a b h = ground arith

eq_year_refl : (a : Option ℤ) → eq_year a a ≡ true
eq_year_refl a = ground arith

eq_part_refl : (a : Option ℕ) → eq_part a a ≡ true
eq_part_refl a = ground arith

key_eq_sound : (a b : SectionKey) → key_eq a b ≡ true → a ≡ b
unfolding key_eq
key_eq_sound a b h =
    ground
      (arith, eq_year_sound a.year b.year, eq_part_sound a.month b.month, eq_part_sound a.day b.day)

key_eq_refl : (a : SectionKey) → key_eq a a ≡ true
unfolding key_eq
key_eq_refl a = ground (arith, eq_year_refl a.year, eq_part_refl a.month, eq_part_refl a.day)

pub key_eq_iff : (a b : SectionKey) → (key_eq a b ≡ true) ↔ (a ≡ b)
key_eq_iff a b = (key_eq_sound a b, λ e. rw e (key_eq_refl b))

-- `map.get(key)`
unfoldable pub count_of : SectionKey → SectionCounts → Option ℕ
count_of key [] = none
count_of key ((k, count) ∷ rest) = if key_eq k key then some count else count_of key rest

abbrev plus_count : ℕ → Option ℕ → ℕ
plus_count count none = count % 2 ^ 32
plus_count count (some c) = (c + count) % 2 ^ 32

count_of-add_count :
    (j k : SectionKey) (count : ℕ) (counts : SectionCounts)
    → count_of j (add_count k count counts)
      ≡ (if key_eq k j then some (plus_count count (count_of k counts)) else count_of j counts)
unfolding count_of add_count
count_of-add_count j k count [] = ground arith
count_of-add_count j k count ((i, c) ∷ rest) =
    ground
      (arith, count_of-add_count j k count rest, key_eq_iff i k, key_eq_iff i j, key_eq_iff k j)

-- The key of a date is that of the section to which the date belongs.
pub key_of_date-in_section :
    (mode : GroupBy) (key : SectionKey) (date : Date)
    → key_eq (key_of_date mode date) key
      ≡ in_section mode key date.date_year date.date_month date.date_day
unfolding key_eq key_of_date
key_of_date-in_section year key date = ground arith
key_of_date-in_section month key date = ground arith
key_of_date-in_section day key date = ground arith

-- The sum of the counts of a section, and whether it has any.
abbrev pub sum_of : GroupBy → SectionKey → List (Date × ℕ) → ℕ
sum_of mode key [] = 0
sum_of mode key ((date, count) ∷ rest) =
    (if in_section mode key date.date_year date.date_month date.date_day then count else 0)
    + sum_of mode key rest

abbrev pub has_date : GroupBy → SectionKey → List (Date × ℕ) → Bool
has_date mode key [] = false
has_date mode key ((date, count) ∷ rest) =
    in_section mode key date.date_year date.date_month date.date_day || has_date mode key rest

mod_plus : (a b : ℕ) → (a % 2 ^ 32 + b) % 2 ^ 32 ≡ (a + b) % 2 ^ 32
mod_plus a b = omega arith

mod_less : (a : ℕ) → a % 2 ^ 32 < 2 ^ 32
mod_less a = omega arith

add_groups-found :
    (mode : GroupBy) (key : SectionKey) (groups : List (Date × ℕ)) (counts : SectionCounts) (c : ℕ)
    → count_of key counts ≡ some (c % 2 ^ 32)
    → count_of key (add_groups mode groups counts) ≡ some ((c + sum_of mode key groups) % 2 ^ 32)
unfolding add_groups
add_groups-found mode key [] counts c e = ground (arith, e)
add_groups-found mode key ((date, count) ∷ rest) counts c e =
    let k = key_of_date mode date in
    let belongs = key_of_date-in_section mode key date in
    let added = count_of-add_count key k count counts in
    elim (Bool-cases (key_eq k key)) [
      | inl here ↦ ground (
        arith,
        added,
        belongs,
        key_eq_iff k key,
        mod_plus c count,
        add_groups-found mode key rest (add_count k count counts) (c + count),
      )
      | inr away ↦
          ground
            (arith, added, belongs, add_groups-found mode key rest (add_count k count counts) c)
    ]

add_groups-absent :
    (mode : GroupBy) (key : SectionKey) (groups : List (Date × ℕ)) (counts : SectionCounts)
    → count_of key counts ≡ none
    → count_of key (add_groups mode groups counts)
      ≡ (if has_date mode key groups then some (sum_of mode key groups % 2 ^ 32) else none)
unfolding add_groups
add_groups-absent mode key [] counts e = ground (arith, e)
add_groups-absent mode key ((date, count) ∷ rest) counts e =
    let k = key_of_date mode date in
    let belongs = key_of_date-in_section mode key date in
    let added = count_of-add_count key k count counts in
    elim (Bool-cases (key_eq k key)) [
      | inl here ↦ ground (
        arith,
        added,
        belongs,
        key_eq_iff k key,
        add_groups-found mode key rest (add_count k count counts) count,
      )
      | inr away ↦
          ground (arith, added, belongs, add_groups-absent mode key rest (add_count k count counts))
    ]

-- For every section, the folded map holds the sum of the counts of the dates that belong to it, which
-- agree with its key in the parts that the mode shows, modulo 2 ^ 32, and has no entry for it where no
-- date belongs to it.
pub counts_from_date_groups_lem :
    (groups : List (Date × ℕ)) (mode : GroupBy) (key : SectionKey)
    → count_of key (counts_from_date_groups groups mode)
      ≡ (if has_date mode key groups then some (sum_of mode key groups % 2 ^ 32) else none)
unfolding counts_from_date_groups count_of
counts_from_date_groups_lem groups mode key = add_groups-absent mode key groups [] refl
