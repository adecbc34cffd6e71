-- ===== src/Grid/Layout/Rows.antt =====
-- A layout that fits loses no media, and each of its sections takes whole rows.
use native.Mathlib.Nat.{div-add-mod', mod-lt}
use photo_viewer.Base.{
  ℕ, ◌+◌, ◌*◌, ◌/◌, ◌%◌, ◌≤◌, ◌<◌, ◌≡◌, refl, ◌∙◌, inl, inr, List, [], ◌∷◌, map, arith, ◌==◌,
  Bool-cases, dec_lt,
}
use photo_viewer.Base.U32.{u32_max}
use photo_viewer.Grid.Section.{SectionKey}
use photo_viewer.Grid.Layout.{
  SectionSpan, SectionCounts, aligned_slot_len, build_spans, clipped_media_len, clipped_slot_len,
}
use photo_viewer.Grid.Layout.Tiles.{Tiles-slot_le}
use photo_viewer.Grid.Layout.Build.{
  build_spans-Tiled, build_spans-cons, build_spans-stop, span_of, clipped_slot_len_bounds,
  clipped_media_len_bounds,
}

-- The slots of the span are `rows` whole rows, from the start of a row, and fewer would not do.
pub record InRows (columns : ℕ) (span : SectionSpan) : Type 0 where
  pub first_row : ℕ
  pub rows : ℕ
  pub starts : span.slot_start ≡ first_row * columns
  pub fills : span.slot_len ≡ rows * columns
  pub tight : span.slot_len < span.media_len + columns

abbrev pub AllInRows : ℕ → List SectionSpan → Type 0
AllInRows columns [] = Unit
AllInRows columns (span ∷ rest) = InRows columns span × AllInRows columns rest

-- The rows that `len` media need.
aligned_slot_len_rows :
    (len columns : ℕ)
    → 0 < columns
    → aligned_slot_len len columns < u32_max
    → (rows : ℕ) × (aligned_slot_len len columns ≡ rows * columns)
      × (aligned_slot_len len columns < len + columns)
unfolding aligned_slot_len
aligned_slot_len_rows len columns pos small = elim (Bool-cases (len % columns == 0)) [
  | inl whole ↦ (len / columns, ground (arith, div-add-mod' len columns), ground arith)
  | inr part ↦ (
    len / columns + 1,
    grind (arith, div-add-mod' len columns, mod-lt len pos),
    ground (arith, mod-lt len pos),
  )
]

abbrev pub Nonempty : SectionCounts → Type 0
Nonempty [] = Unit
Nonempty ((key, count) ∷ rest) = (0 < count) × Nonempty rest

abbrev pub total : SectionCounts → ℕ
total [] = 0
total ((key, count) ∷ rest) = count + total rest

-- What a span holds, as an entry of the counts.
abbrev pub entry : SectionSpan → SectionKey × ℕ
entry span = (span.key, span.media_len)

pub record IsWhole (columns m : ℕ) (counts : SectionCounts) (built : List SectionSpan × ℕ × ℕ)
    : Type 0 where
  pub entries : map entry built.0 ≡ counts
  pub media : built.1 ≡ m + total counts
  pub in_rows : AllInRows columns built.0

-- Below the limits nothing is clipped.
clipped_media_len_exact :
    (m s count : ℕ)
    → m ≤ s
    → s + clipped_media_len m s count < u32_max
    → clipped_media_len m s count ≡ count
unfolding clipped_media_len
clipped_media_len_exact m s count h small = omega arith

clipped_slot_len_exact :
    (columns s len : ℕ)
    → s + clipped_slot_len columns s len < u32_max
    → clipped_slot_len columns s len ≡ aligned_slot_len len columns
unfolding clipped_slot_len
clipped_slot_len_exact columns s len small = ground arith

clipped_media_len_pos :
    (m s count : ℕ) → 0 < count → m ≤ s → s < u32_max → 0 < clipped_media_len m s count
unfolding clipped_media_len
clipped_media_len_pos m s count pos h small = omega arith

-- The span of the next section, where the slots behind it fit.
span_of-whole :
    (columns m s first_row : ℕ) (key : SectionKey) (count : ℕ)
    → 0 < columns
    → m ≤ s
    → s ≡ first_row * columns
    → let span = span_of columns m s key count in
      s + span.slot_len < u32_max
      → (entry span ≡ (key, count))
        × (next_row : ℕ) × (s + span.slot_len ≡ next_row * columns)
        × InRows columns span
span_of-whole columns m s first_row key count pos h at small =
    let len = clipped_media_len m s count in
    let (_, _, slots_fit) = clipped_media_len_bounds m s count in
    let (padded, _) = clipped_slot_len_bounds columns s len slots_fit in
    let exact = clipped_slot_len_exact columns s len small in
    let (rows, fills, tight) = aligned_slot_len_rows len columns pos (omega arith) in
    (
      cc (clipped_media_len_exact m s count h (omega arith)),
      (first_row + rows),
      grind arith,
      record {
        first_row = first_row;
        rows = rows;
        starts = at;
        fills = exact ∙ fills;
        tight = omega arith;
      },
    )

pub build_spans-IsWhole :
    (columns m s first_row : ℕ) (counts : SectionCounts)
    → 0 < columns
    → Nonempty counts
    → m ≤ s
    → s ≤ u32_max
    → s ≡ first_row * columns
    → (build_spans columns m s counts).2 < u32_max
    → IsWhole columns m counts (build_spans columns m s counts)
build_spans-IsWhole columns m s first_row [] pos all h k at small =
    unfold build_spans in record { entries = refl; media = omega arith; in_rows = tt }
build_spans-IsWhole columns m s first_row ((key, count) ∷ rest) pos all h k at small =
    elim (dec_lt 0 (clipped_media_len m s count)) [
      | yes p ↦
          let span = span_of columns m s key count in
          let step = build_spans-cons columns m s key count rest (omega arith) k p in
          let small' : (build_spans columns (m + span.media_len) (s + span.slot_len) rest).2
              < u32_max =
            rw step at small in
          let (_, media_fits, slots_fit) = clipped_media_len_bounds m s count in
          let (padded, slot_len_fits) =
            clipped_slot_len_bounds columns s span.media_len slots_fit in
          let tiled =
            build_spans-Tiled (columns) (m + span.media_len) (s + span.slot_len) rest (omega arith)
              (omega arith) in
          let ends = Tiles-slot_le (m + span.media_len) (s + span.slot_len) _ _ _ tiled.tiles in
          let (same, next_row, next, in_rows) =
            span_of-whole columns m s first_row key count pos h at (omega arith) in
          let later =
            build_spans-IsWhole columns (m + span.media_len) (s + span.slot_len) next_row rest pos
              all.1 (omega arith) (omega arith) next small' in
          let counted : span.media_len ≡ count =
            clipped_media_len_exact m s count h (omega arith) in
          rw step (record {
            entries = cc (same, later.entries);
            media = omega (arith, later.media);
            in_rows = (in_rows, later.in_rows);
          })
      | no p ↦
          let stopped : s < u32_max =
            rw (build_spans-stop columns m s key count rest (omega arith)) at small in
          absurd (p (clipped_media_len_pos m s count all.0 h stopped))
    ]
