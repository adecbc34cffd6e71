-- ===== src/Grid/Layout/Sections.antt =====
-- Which sections a layout has, and that the order of the count map does not show.
use mathlib.Core.List.{Perm, Permᴰ, Pairwise}
use mathlib.Core.List.Perm
use mathlib.Core.List.Permᴰ
use mathlib.Core.List.Pairwise
use photo_viewer.Base.{ℕ, ◌<◌, ◌≡◌, ◌≢◌, refl, ap, ◌∙◌, max, [], ◌∷◌, map, arith}
use photo_viewer.Base.U32.{u32_max}
use photo_viewer.Base.Sort.{
  sort_desc, sort_desc-perm, sort_desc-permᴰ, sort_desc-IsDescending, IsDescending,
}
use photo_viewer.Grid.Section.{SectionKey, SectionKey-set, section_sort_key_inj, sort_key_order}
use photo_viewer.Grid.Calendar.{NewestFirst, section_sort_key-is_older}
use photo_viewer.Grid.Layout.{
  SectionCounts, is_nonempty, key_of, nonempty_sections, ordered_sections, lay_out, new,
}
use photo_viewer.Grid.Layout.Rows.{Nonempty, total, entry, AllInRows, build_spans-IsWhole}

Nonempty-filter : (counts : SectionCounts) → Nonempty (nonempty_sections counts)
unfolding nonempty_sections
Nonempty-filter [] = tt
Nonempty-filter ((key, count) ∷ rest) = ground (arith, Nonempty-filter rest)

total-filter : (counts : SectionCounts) → total (nonempty_sections counts) ≡ total counts
unfolding nonempty_sections
total-filter [] = refl
total-filter ((key, count) ∷ rest) = ground (arith, total-filter rest)

Nonempty-permᴰ : {xs ys : SectionCounts} → Permᴰ xs ys → Nonempty xs → Nonempty ys
Nonempty-permᴰ Permᴰ.nil h = tt
Nonempty-permᴰ (Permᴰ.cons {a = x} {b = y} e p) h = ground (arith, Nonempty-permᴰ p h.1)
Nonempty-permᴰ (Permᴰ.swap e f) h = ground arith
Nonempty-permᴰ (Permᴰ.trans p q) h = Nonempty-permᴰ q (Nonempty-permᴰ p h)

pub total-permᴰ : {xs ys : SectionCounts} → Permᴰ xs ys → total xs ≡ total ys
total-permᴰ Permᴰ.nil = refl
total-permᴰ (Permᴰ.cons e p) = ground (arith, total-permᴰ p)
total-permᴰ (Permᴰ.swap e f) = ground arith
total-permᴰ (Permᴰ.trans p q) = total-permᴰ p ∙ total-permᴰ q

-- The sections that a layout shows: those with media, each once, the newest first.
pub record IsOrdered (counts ordered : SectionCounts) : Type 0 where
  pub same : Perm ordered (nonempty_sections counts)
  pub newest_first : NewestFirst ordered
  pub nonempty : Nonempty ordered
  pub sum : total ordered ≡ total counts

descending-NewestFirst :
    (ordered : SectionCounts) → IsDescending sort_key_order key_of ordered → NewestFirst ordered
descending-NewestFirst [] h = tt
descending-NewestFirst (a ∷ []) h = tt
descending-NewestFirst (a ∷ b ∷ rest) (first, later) =
    (section_sort_key-is_older a.0 b.0 first, descending-NewestFirst (b ∷ rest) later)

ordered_sections-IsOrdered : (counts : SectionCounts) → IsOrdered counts (ordered_sections counts)
unfolding ordered_sections
ordered_sections-IsOrdered counts =
    let kept = nonempty_sections counts in
    let p = sort_desc-permᴰ sort_key_order key_of kept in
    record {
      same = ∣ p ∣₁;
      newest_first =
          descending-NewestFirst (sort_desc sort_key_order key_of kept)
            (sort_desc-IsDescending sort_key_order key_of kept);
      nonempty = Nonempty-permᴰ (Permᴰ.symm p) (Nonempty-filter counts);
      sum = total-permᴰ p ∙ total-filter counts;
    }

-- Where the slots of all sections fit below the limit of `u32`, the layout has the sections with
-- media and no others, the newest first by year, month and day, each with the media that were counted
-- for it and in whole rows of the grid, and its media count is the sum of all counts.
pub new_complete :
    (counts : SectionCounts) (columns : ℕ)
    → (new counts columns).slot_count < u32_max
    → IsOrdered counts (map entry (new counts columns).sections)
      × ((new counts columns).media_count ≡ total counts)
      × AllInRows (new counts columns).columns (new counts columns).sections
unfolding new
new_complete counts columns small =
    let ordered = ordered_sections-IsOrdered counts in
    let whole =
      build_spans-IsWhole (max columns 1) 0 0 0 (ordered_sections counts) (omega arith)
        ordered.nonempty (omega arith) (omega arith) (omega arith) small in
    (rw whole.entries ordered, omega (arith, whole.media, ordered.sum), whole.in_rows)

abbrev pub DistinctSections : SectionCounts → Type 0
DistinctSections = Pairwise (λ x y. x.0 ≢ y.0)

ordered_sections-perm :
    {counts counts' : SectionCounts}
    → Perm counts counts'
    → DistinctSections counts
    → ordered_sections counts ≡ ordered_sections counts'
unfolding ordered_sections
ordered_sections-perm {counts} p d =
    let set : IsSet (SectionKey × ℕ) = hlevel SectionKey-set in
    let distinct = Pairwise.imp (λ a b ne same. ne (section_sort_key_inj a.0 b.0 same)) d in
    sort_desc-perm sort_key_order key_of set (Perm.filter is_nonempty p)
      (Pairwise.filter is_nonempty {l = counts} distinct)

-- Two iteration orders of one count map, whose keys are distinct, give the same layout.
pub new-perm :
    (columns : ℕ) {counts counts' : SectionCounts}
    → Perm counts counts'
    → DistinctSections counts
    → new counts columns ≡ new counts' columns
unfolding new
new-perm columns p d = ap (lay_out (max columns 1)) (ordered_sections-perm p d)
