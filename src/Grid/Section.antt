-- ===== src/Grid/Section.antt =====
-- src/core/section_model.rs: the key of a date section and the order of sections; the sort key of
-- src/ui/virtual_media_grid/layout_index.rs.
use photo_viewer.Base.{ℕ, ◌^◌, ◌-◌, ◌≡◌, Bool, true, false, Option, none, some, ℕ_discrete, arith}
use photo_viewer.Base.Int.{ℤ, negsuc}
use photo_viewer.Base.Order.{StrictOrder, nat_order, int_order, bool_order, lex_order}

pub data GroupBy : Type 0 where
  year month day : GroupBy

pub record SectionKey : Type 0 where
  pub year : Option ℤ  -- i32
  pub month : Option ℕ
  pub day : Option ℕ

abbrev pub i64_min : ℤ
i64_min = negsuc (2 ^ 63 - 1)

abbrev pub is_some {ℓ} : {A : Type ℓ} → Option A → Bool
is_some none = false
is_some (some _) = true

abbrev pub unwrap_or {ℓ} : {A : Type ℓ} → A → Option A → A
unwrap_or d none = d
unwrap_or d (some a) = a

-- (i64, u32, u32, bool, bool, bool), as nested pairs
abbrev pub SortKey : Type 0
SortKey = ℤ × (ℕ × (ℕ × (Bool × (Bool × Bool))))

unfoldable pub section_sort_key : SectionKey → SortKey
section_sort_key key = (
  unwrap_or i64_min key.year,
  (
    unwrap_or 0 key.month,
    (unwrap_or 0 key.day, (is_some key.year, (is_some key.month, is_some key.day))),
  ),
)

abbrev pub sort_key_order : StrictOrder SortKey
sort_key_order = lex_order int_order (
    lex_order nat_order
      (lex_order nat_order (lex_order bool_order (lex_order bool_order bool_order))))

abbrev pub DateRank : Type 0
DateRank = ℤ × (ℕ × ℕ)

unfoldable pub date_rank : SectionKey → DateRank
date_rank key = (unwrap_or i64_min key.year, (unwrap_or 0 key.month, unwrap_or 0 key.day))

abbrev pub date_rank_order : StrictOrder DateRank
date_rank_order = lex_order int_order (lex_order nat_order nat_order)

pub ℤ-discrete : Discrete ℤ
ℤ-discrete = hlevel ℕ_discrete

unfoldable pub SectionKey-discrete : Discrete SectionKey
unfolding ℤ-discrete
SectionKey-discrete = hlevel (ℕ_discrete, ℤ-discrete)

pub SectionKey-set : IsSet SectionKey
SectionKey-set = hlevel

-- Sections with one sort key are one section: the sort of the grid leaves no choice.
pub section_sort_key_inj : (a b : SectionKey) → section_sort_key a ≡ section_sort_key b → a ≡ b
unfolding section_sort_key
section_sort_key_inj a b h = ground arith
