-- ===== src/Grid/Layout/Insert.antt =====
-- `insert_media_slot`: one more media at the end of a section.
use mathlib.Core.Path.{subst₂}
use photo_viewer.Base.{
  ℕ, zero, suc, ◌+◌, ◌<◌, ◌≡◌, refl, some, List, [], ◌∷◌, arith, get_elem?, length,
}
use photo_viewer.Base.U32.{u32_max}
use photo_viewer.Grid.Layout.{SectionSpan, shift_spans, grow_span}
use photo_viewer.Grid.Layout.Tiles.{Tiles, Tiles-media_le, Tiles-slot_le}

-- A span behind the insertion, and the span that takes it.
abbrev pub moved : SectionSpan → SectionSpan
moved span = record span { media_start = span.media_start + 1; slot_start = span.slot_start + 1 }

abbrev pub grown : SectionSpan → SectionSpan
grown span = record span { media_len = span.media_len + 1; slot_len = span.slot_len + 1 }

record IsShifted (m s : ℕ) (spans : List SectionSpan) (media slots : ℕ) (out : List SectionSpan)
    : Type 0 where
  runs : shift_spans spans ≡ some out
  tiles : Tiles (m + 1) (s + 1) out (media + 1) (slots + 1)
  at :
      (j : ℕ) (span : SectionSpan)
      → get_elem? spans j ≡ some span
      → get_elem? out j ≡ some (moved span)

Tiles-at :
    {m m' s s' : ℕ} (spans : List SectionSpan) (media slots : ℕ)
    → m ≡ m'
    → s ≡ s'
    → Tiles m s spans media slots
    → Tiles m' s' spans media slots
Tiles-at spans media slots e f t = subst₂ (λ a b. Tiles a b spans media slots) e f t

-- An entry for an entry, and so below one more entry.
at-cons :
    (x : SectionSpan) (rest out : List SectionSpan)
    → ((j : ℕ) (span : SectionSpan)
        → get_elem? rest j ≡ some span
        → get_elem? out j ≡ some (moved span))
    → (j : ℕ) (span : SectionSpan) → get_elem? (x ∷ rest) j ≡ some span
    → get_elem? (moved x ∷ out) j ≡ some (moved span)
at-cons x rest out h zero span e = cc
at-cons x rest out h (suc j) span e = h j span e

shift_spans-cons :
    (x : SectionSpan) (rest out : List SectionSpan)
    → x.media_start < u32_max
    → x.slot_start < u32_max
    → shift_spans rest ≡ some out
    → shift_spans (x ∷ rest) ≡ some (moved x ∷ out)
unfolding shift_spans
shift_spans-cons x rest out h k e = ground arith

grow_span-zero :
    (x : SectionSpan) (rest out : List SectionSpan)
    → x.media_len < u32_max
    → x.slot_len < u32_max
    → shift_spans rest ≡ some out
    → grow_span (x ∷ rest) 0 ≡ some (grown x ∷ out)
unfolding grow_span
grow_span-zero x rest out h k e = ground arith

grow_span-suc :
    (x : SectionSpan) (rest out : List SectionSpan) (i : ℕ)
    → grow_span rest i ≡ some out
    → grow_span (x ∷ rest) (suc i) ≡ some (x ∷ out)
unfolding grow_span
grow_span-suc x rest out i e = ground arith

shift_spans-total :
    (m s : ℕ) (spans : List SectionSpan) (media slots : ℕ)
    → Tiles m s spans media slots
    → media < u32_max
    → slots < u32_max
    → (out : List SectionSpan) × IsShifted m s spans media slots out
shift_spans-total m s [] media slots t h k =
    ([], record { runs = unfold shift_spans in refl; tiles = omega arith; at = λ j span e. cc })
shift_spans-total m s (x ∷ rest) media slots t h k =
    let (out, later) =
      shift_spans-total (m + x.media_len) (s + x.slot_len) rest media slots t.4 h k in
    let ends = Tiles-media_le (m + x.media_len) (s + x.slot_len) rest media slots t.4 in
    let slot_ends = Tiles-slot_le (m + x.media_len) (s + x.slot_len) rest media slots t.4 in
    (
      moved x ∷ out,
      record {
        runs = shift_spans-cons x rest out (omega arith) (omega arith) later.runs;
        tiles = (
          omega arith,
          omega arith,
          t.2,
          t.3,
          Tiles-at out _ _ (omega arith) (omega arith) later.tiles,
        );
        at = at-cons x rest out later.at;
      },
    )

-- The spans after an insertion into section `i`.
pub record IsGrown (m s : ℕ) (spans : List SectionSpan) (media slots i : ℕ) (out : List SectionSpan)
    : Type 0 where
  pub runs : grow_span spans i ≡ some out
  pub tiles : Tiles m s out (media + 1) (slots + 1)
  pub before :
      (j : ℕ) (span : SectionSpan)
      → j < i
      → get_elem? spans j ≡ some span
      → get_elem? out j ≡ some span
  pub at :
      (span : SectionSpan) → get_elem? spans i ≡ some span → get_elem? out i ≡ some (grown span)
  pub after :
      (j : ℕ) (span : SectionSpan)
      → i < j
      → get_elem? spans j ≡ some span
      → get_elem? out j ≡ some (moved span)

before-cons :
    (x : SectionSpan) (rest out : List SectionSpan) (i : ℕ)
    → ((j : ℕ) (span : SectionSpan)
        → j < i
        → get_elem? rest j ≡ some span
        → get_elem? out j ≡ some span)
    → (j : ℕ) (span : SectionSpan) → j < suc i
    → get_elem? (x ∷ rest) j ≡ some span
    → get_elem? (x ∷ out) j ≡ some span
before-cons x rest out i h zero span lt e = e
before-cons x rest out i h (suc j) span lt e = h j span (omega arith) e

after-cons :
    (x : SectionSpan) (rest out : List SectionSpan) (i : ℕ)
    → ((j : ℕ) (span : SectionSpan)
        → i < j
        → get_elem? rest j ≡ some span
        → get_elem? out j ≡ some (moved span))
    → (j : ℕ) (span : SectionSpan) → suc i < j
    → get_elem? (x ∷ rest) j ≡ some span
    → get_elem? (x ∷ out) j ≡ some (moved span)
after-cons x rest out i h zero span lt e = absurd (omega arith)
after-cons x rest out i h (suc j) span lt e = h j span (omega arith) e

after-head :
    (x y : SectionSpan) (rest out : List SectionSpan)
    → ((j : ℕ) (span : SectionSpan)
        → get_elem? rest j ≡ some span
        → get_elem? out j ≡ some (moved span))
    → (j : ℕ) (span : SectionSpan) → 0 < j
    → get_elem? (x ∷ rest) j ≡ some span
    → get_elem? (y ∷ out) j ≡ some (moved span)
after-head x y rest out h zero span lt e = absurd (omega arith)
after-head x y rest out h (suc j) span lt e = h j span e

pub grow_span-total :
    (m s : ℕ) (spans : List SectionSpan) (media slots i : ℕ)
    → Tiles m s spans media slots
    → media < u32_max
    → slots < u32_max
    → i < length spans
    → (out : List SectionSpan) × IsGrown m s spans media slots i out
grow_span-total m s [] media slots i t h k lt = absurd (omega arith)
grow_span-total m s (x ∷ rest) media slots zero t h k lt =
    let (out, later) =
      shift_spans-total (m + x.media_len) (s + x.slot_len) rest media slots t.4 h k in
    let ends = Tiles-media_le (m + x.media_len) (s + x.slot_len) rest media slots t.4 in
    let slot_ends = Tiles-slot_le (m + x.media_len) (s + x.slot_len) rest media slots t.4 in
    (
      grown x ∷ out,
      record {
        runs = grow_span-zero x rest out (omega arith) (omega arith) later.runs;
        tiles = (
          t.0,
          t.1,
          omega arith,
          omega arith,
          Tiles-at out _ _ (omega arith) (omega arith) later.tiles,
        );
        before = λ j span lt e. absurd (omega arith);
        at = λ span e. cc;
        after = after-head x (grown x) rest out later.at;
      },
    )
grow_span-total m s (x ∷ rest) media slots (suc i) t h k lt =
    let (out, later) =
      grow_span-total (m + x.media_len) (s + x.slot_len) rest media slots i t.4 h k (omega arith) in
    (
      x ∷ out,
      record {
        runs = grow_span-suc x rest out i later.runs;
        tiles = (t.0, t.1, t.2, t.3, later.tiles);
        before = before-cons x rest out i later.before;
        at = later.at;
        after = after-cons x rest out i later.after;
      },
    )

pub lt-length_of_found :
    (spans : List SectionSpan) (i : ℕ) (span : SectionSpan)
    → get_elem? spans i ≡ some span
    → i < length spans
lt-length_of_found [] i span e = cc
lt-length_of_found (x ∷ rest) zero span e = omega arith
lt-length_of_found (x ∷ rest) (suc i) span e = omega (arith, lt-length_of_found rest i span e)
