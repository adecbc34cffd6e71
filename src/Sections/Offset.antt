-- ===== src/Sections/Offset.antt =====
-- The section that `section_for_global_offset` gives for an offset.
use photo_viewer.Base.{
  ℕ, ◌+◌, ◌≤◌, ◌<◌, ◌≡◌, refl, sym, ap, subst, ◌⊎◌, inl, inr, Option, none, some, [], ◌∷◌, ◌++◌,
  arith, dec_lt,
}
use photo_viewer.Base.U32.{u32_max, saturating_add}
use photo_viewer.Base.Sort.{sort_desc, sort_desc-permᴰ, sort_desc-IsDescending, IsDescending}
use mathlib.Core.List.{Perm, Permᴰ}
use photo_viewer.Grid.Section.{SectionKey, date_rank_order}
use photo_viewer.Grid.Calendar.{NewestFirst, date_rank-is_older}
use photo_viewer.Grid.Layout.{SectionCounts}
use photo_viewer.Grid.Layout.Rows.{total}
use photo_viewer.Grid.Layout.Sections.{total-permᴰ}
use photo_viewer.Sections.{
  rank_of, find_offset, or_last, last_key, newest_first, section_for_global_offset,
}

-- A section of a list whose media, after those of the sections before it, hold an offset.
pub record HoldsOffset (ordered : SectionCounts) (acc offset : ℕ) (key : SectionKey) : Type 0 where
  pub before : SectionCounts
  pub count : ℕ
  pub after : SectionCounts
  pub split : ordered ≡ before ++ ((key, count) ∷ after)
  pub from : acc + total before ≤ offset
  pub to : offset < acc + total before + count

find_offset_lem :
    (offset acc : ℕ) (ordered : SectionCounts)
    → acc ≤ offset
    → offset < acc + total ordered
    → acc + total ordered ≤ u32_max
    → (key : SectionKey) × (find_offset offset acc ordered ≡ some key)
      × HoldsOffset ordered acc offset key
unfolding find_offset saturating_add
find_offset_lem offset acc [] h k l = absurd (omega arith)
find_offset_lem offset acc ((key, count) ∷ rest) h k l = elim (dec_lt offset (acc + count)) [
  | yes lt ↦ (
    key,
    ground arith,
    record {
      before = [];
      count = count;
      after = rest;
      split = refl;
      from = omega arith;
      to = omega arith;
    },
  )
  | no ge ↦
      let (found, e, holds) =
        find_offset_lem offset (acc + count) rest (omega arith) (omega arith) (omega arith) in
      (
        found,
        ground (arith, e),
        record {
          before = (key, count) ∷ holds.before;
          count = holds.count;
          after = holds.after;
          split = ap (λ l. (key, count) ∷ l) holds.split;
          from = omega (arith, holds.from);
          to = omega (arith, holds.to);
        },
      )
]

find_offset-past :
    (offset acc : ℕ) (ordered : SectionCounts)
    → acc + total ordered ≤ offset
    → acc + total ordered ≤ u32_max
    → find_offset offset acc ordered ≡ none
unfolding find_offset saturating_add
find_offset-past offset acc [] h k = refl
find_offset-past offset acc ((key, count) ∷ rest) h k =
    ground (arith, find_offset-past offset (acc + count) rest)

-- The last section of a list, if it has any.
pub data IsLast (ordered : SectionCounts) (result : Option SectionKey) : Type 0 where
  empty : ordered ≡ [] → result ≡ none → IsLast ordered result
  last :
      (before : SectionCounts) (key : SectionKey) (count : ℕ)
      → ordered ≡ before ++ ((key, count) ∷ [])
      → result ≡ some key
      → IsLast ordered result

last-behind :
    (a : SectionKey × ℕ) (ordered : SectionCounts) (result : Option SectionKey)
    → (ordered ≡ [] → IsLast (a ∷ ordered) result)
    → IsLast ordered result
    → IsLast (a ∷ ordered) result
last-behind a ordered result h (empty e f) = h e
last-behind a ordered result h (last before key count e f) =
    last (a ∷ before) key count (ap (λ l. a ∷ l) e) f

last_key-IsLast : (ordered : SectionCounts) → IsLast ordered (last_key ordered)
last_key-IsLast [] = empty refl refl
last_key-IsLast ((key, count) ∷ []) = last [] key count refl refl
last_key-IsLast (a ∷ next ∷ rest) =
    last-behind a (next ∷ rest) (last_key (next ∷ rest)) (λ e. absurd cc)
      (last_key-IsLast (next ∷ rest))

descending-NewestFirst :
    (ordered : SectionCounts) → IsDescending date_rank_order rank_of ordered → NewestFirst ordered
descending-NewestFirst [] h = tt
descending-NewestFirst (a ∷ []) h = tt
descending-NewestFirst (a ∷ b ∷ rest) (first, later) =
    (date_rank-is_older a.0 b.0 first, descending-NewestFirst (b ∷ rest) later)

-- What the section of an offset is, in the sections ordered with the newest first.
pub record IsSectionAt (counts : SectionCounts) (offset : ℕ) (result : Option SectionKey)
    : Type 0 where
  pub ordered : SectionCounts
  pub same : Perm ordered counts
  pub newest : NewestFirst ordered
  pub answer :
      ((offset < total counts)
        × ((key : SectionKey) × (result ≡ some key) × HoldsOffset ordered 0 offset key))
      ⊎ ((total counts ≤ offset) × IsLast ordered result)

answered :
    (counts ordered : SectionCounts) (offset : ℕ)
    → total ordered ≡ total counts
    → total counts ≤ u32_max
    → ((offset < total counts)
        × ((key : SectionKey) × (or_last (find_offset offset 0 ordered) ordered ≡ some key)
            × HoldsOffset ordered 0 offset key))
      ⊎ ((total counts ≤ offset) × IsLast ordered (or_last (find_offset offset 0 ordered) ordered))
answered counts ordered offset sum fits = elim (dec_lt offset (total counts)) [
  | yes lt ↦
      let (key, e, holds) =
        find_offset_lem offset 0 ordered (omega arith) (omega arith) (omega arith) in
      inl (lt, (key, ap (λ found. or_last found ordered) e, holds))
  | no ge ↦ inr (
    omega arith,
    subst (IsLast ordered)
        (ap (λ found. or_last found ordered)
          (sym (find_offset-past offset 0 ordered (omega arith) (omega arith))))
        (last_key-IsLast ordered),
  )
]

-- Where the counts sum up within u32, an offset below the sum gets the section whose media, after those
-- of all newer sections, hold it, and any other offset gets the oldest section; sections are newer by
-- year, month and day.
pub section_for_global_offset_lem :
    (counts : SectionCounts) (offset : ℕ)
    → total counts ≤ u32_max
    → IsSectionAt counts offset (section_for_global_offset counts offset)
unfolding section_for_global_offset newest_first sort_desc find_offset
section_for_global_offset_lem [] offset fits = record {
  ordered = [];
  same = ∣ Permᴰ.nil ∣₁;
  newest = tt;
  answer = inr (omega arith, empty refl refl);
}
section_for_global_offset_lem (section ∷ rest) offset fits =
    let p = sort_desc-permᴰ date_rank_order rank_of (section ∷ rest) in
    record {
      ordered = newest_first (section ∷ rest);
      same = ∣ p ∣₁;
      newest =
          descending-NewestFirst (sort_desc date_rank_order rank_of (section ∷ rest))
            (sort_desc-IsDescending date_rank_order rank_of (section ∷ rest));
      answer =
          answered (section ∷ rest) (newest_first (section ∷ rest)) offset (total-permᴰ p) fits;
    }
