-- ===== src/Grid/Layout/Build.antt =====
-- What `new` builds, from the counts of the sections.
use photo_viewer.Base.{
  ℕ, ◌+◌, ◌-◌, ◌≤◌, ◌<◌, ◌≡◌, refl, false, max, dec_lt, List, [], ◌∷◌, arith, ◌==◌,
}
use photo_viewer.Base.U32.{u32_max, saturating_add}
use photo_viewer.Grid.Section.{SectionKey}
use photo_viewer.Grid.Layout.{
  SectionSpan, SectionCounts, ordered_sections, build_spans, new, clipped_media_len,
  clipped_slot_len,
}
use photo_viewer.Grid.Layout.Tiles.{Tiles, IsLayout}

pub clipped_media_len_bounds :
    (m s count : ℕ)
    → (clipped_media_len m s count ≤ count)
      × (clipped_media_len m s count ≤ u32_max - m)
      × (clipped_media_len m s count ≤ u32_max - s)
unfolding clipped_media_len
clipped_media_len_bounds m s count = omega arith

pub clipped_slot_len_bounds :
    (columns s media_len : ℕ)
    → media_len ≤ u32_max - s
    → (media_len ≤ clipped_slot_len columns s media_len)
      × (clipped_slot_len columns s media_len ≤ u32_max - s)
unfolding clipped_slot_len
clipped_slot_len_bounds columns s media_len h = ground arith

saturating_add_exact : (a b : ℕ) → b ≤ u32_max - a → a ≤ u32_max → saturating_add a b ≡ a + b
saturating_add_exact a b h k = omega arith

pub build_spans-stop :
    (columns m s : ℕ) (key : SectionKey) (count : ℕ) (rest : SectionCounts)
    → clipped_media_len m s count ≡ 0
    → build_spans columns m s ((key, count) ∷ rest) ≡ ([], m, s)
unfolding build_spans
build_spans-stop columns m s key count rest e = rw e

abbrev pub span_of : ℕ → ℕ → ℕ → SectionKey → ℕ → SectionSpan
span_of columns m s key count = record {
  key = key;
  media_start = m;
  media_len = clipped_media_len m s count;
  slot_start = s;
  slot_len = clipped_slot_len columns s (clipped_media_len m s count);
}

-- One more section: its span, before the spans of the others.
pub build_spans-cons :
    (columns m s : ℕ) (key : SectionKey) (count : ℕ) (rest : SectionCounts)
    → m ≤ u32_max
    → s ≤ u32_max
    → 0 < clipped_media_len m s count
    → let span = span_of columns m s key count in
      let later = build_spans columns (m + span.media_len) (s + span.slot_len) rest in
      build_spans columns m s ((key, count) ∷ rest) ≡ (span ∷ later.0, later.1, later.2)
unfolding build_spans
build_spans-cons columns m s key count rest h k pos =
    let (_, media_fits, slots_fit) = clipped_media_len_bounds m s count in
    let len = clipped_media_len m s count in
    let (_, slot_len_fits) = clipped_slot_len_bounds columns s len slots_fit in
    let more : (len == 0) ≡ false = ground arith in
    rw (more, saturating_add_exact m len media_fits h, saturating_add_exact s _ slot_len_fits k)

-- Every loop tiles what it builds, and stays in range.
pub record Tiled (m s : ℕ) (built : List SectionSpan × ℕ × ℕ) : Type 0 where
  pub tiles : Tiles m s built.0 built.1 built.2
  pub fits : built.2 ≤ u32_max

pub build_spans-Tiled :
    (columns m s : ℕ) (counts : SectionCounts)
    → m ≤ s
    → s ≤ u32_max
    → Tiled m s (build_spans columns m s counts)
build_spans-Tiled columns m s [] h k =
    unfold build_spans in record { tiles = (refl, refl); fits = k }
build_spans-Tiled columns m s ((key, count) ∷ rest) h k =
    let len = clipped_media_len m s count in
    let (_, media_fits, slots_fit) = clipped_media_len_bounds m s count in
    let (padded, slot_len_fits) = clipped_slot_len_bounds columns s len slots_fit in
    elim (dec_lt 0 (clipped_media_len m s count)) [
      | yes p ↦
          let later =
            build_spans-Tiled columns (m + len) (s + clipped_slot_len columns s len) rest
              (omega arith) (omega arith) in
          rw (build_spans-cons columns m s key count rest (omega arith) k p)
            (record { tiles = (refl, refl, p, padded, later.tiles); fits = later.fits })
      | no p ↦
          rw (build_spans-stop columns m s key count rest (omega arith))
            (record { tiles = (refl, refl); fits = k })
    ]

-- `new` builds a well-formed layout from all counts, in any order, and any number of columns.
pub new-IsLayout : (counts : SectionCounts) (columns : ℕ) → IsLayout (new counts columns)
unfolding new
new-IsLayout counts columns =
    let built =
      build_spans-Tiled (max columns 1) 0 0 (ordered_sections counts) (omega arith) (omega arith) in
    record { columns_pos = omega arith; tiles = built.tiles; slots_fit = built.fits }
