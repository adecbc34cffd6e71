-- ===== src/Grid/Layout/Tiles.antt =====
-- The well-formedness of a layout: its spans tile the media offsets and the slots without a gap.
use photo_viewer.Base.{
  ℕ, zero, suc, ◌+◌, ◌≤◌, ◌<◌, ◌≡◌, refl, some, List, [], ◌∷◌, arith, get_elem?, partition_point,
  dec_lt,
}
use photo_viewer.Base.U32.{u32_max}
use photo_viewer.Grid.Layout.{SectionSpan, VirtualGridLayoutIndex, ends_by_slot, ends_by_media}

-- `spans` cover the media offsets from `m` up to `media` and the slots from `s` up to `slots`.
abbrev pub Tiles : ℕ → ℕ → List SectionSpan → ℕ → ℕ → Type 0
Tiles m s [] media slots = (m ≡ media) × (s ≡ slots)
Tiles m s (span ∷ rest) media slots =
    (span.media_start ≡ m)
    × (span.slot_start ≡ s)
    × (0 < span.media_len)
    × (span.media_len ≤ span.slot_len)
    × Tiles (m + span.media_len) (s + span.slot_len) rest media slots

pub record IsLayout (self : VirtualGridLayoutIndex) : Type 0 where
  pub columns_pos : 0 < self.columns
  pub tiles : Tiles 0 0 self.sections self.media_count self.slot_count
  pub slots_fit : self.slot_count ≤ u32_max

pub Tiles-media_le :
    (m s : ℕ) (spans : List SectionSpan) (media slots : ℕ) → Tiles m s spans media slots → m ≤ media
Tiles-media_le m s [] media slots t = omega arith
Tiles-media_le m s (span ∷ rest) media slots t =
    omega (arith, Tiles-media_le (m + span.media_len) (s + span.slot_len) rest media slots t.4)

pub Tiles-slot_le :
    (m s : ℕ) (spans : List SectionSpan) (media slots : ℕ) → Tiles m s spans media slots → s ≤ slots
Tiles-slot_le m s [] media slots t = omega arith
Tiles-slot_le m s (span ∷ rest) media slots t =
    omega (arith, Tiles-slot_le (m + span.media_len) (s + span.slot_len) rest media slots t.4)

-- Fewer media than slots.
pub Tiles-media_le_slots :
    (m s : ℕ) (spans : List SectionSpan) (media slots : ℕ)
    → m ≤ s
    → Tiles m s spans media slots
    → media ≤ slots
Tiles-media_le_slots m s [] media slots h t = omega arith
Tiles-media_le_slots m s (span ∷ rest) media slots h t =
    Tiles-media_le_slots (m + span.media_len) (s + span.slot_len) rest media slots (omega arith) t.4

-- What a search is after: the span at an index, with its bounds.
pub record SpanAt (spans : List SectionSpan) (i : ℕ) (span : SectionSpan) (m s media slots : ℕ)
    : Type 0 where
  pub found : get_elem? spans i ≡ some span
  pub media_from : m ≤ span.media_start
  pub slot_from : s ≤ span.slot_start
  pub media_to : span.media_start + span.media_len ≤ media
  pub slot_to : span.slot_start + span.slot_len ≤ slots
  pub nonempty : 0 < span.media_len
  pub padded : span.media_len ≤ span.slot_len

-- Every span found at an index has its bounds.
pub SpanAt-of_found :
    (m s : ℕ) (spans : List SectionSpan) (media slots i : ℕ) (span : SectionSpan)
    → Tiles m s spans media slots
    → get_elem? spans i ≡ some span
    → SpanAt spans i span m s media slots
SpanAt-of_found m s [] media slots i span t e = cc
SpanAt-of_found m s (x ∷ rest) media slots zero span t e = ground (
  arith,
  Tiles-media_le (m + x.media_len) (s + x.slot_len) rest media slots t.4,
  Tiles-slot_le (m + x.media_len) (s + x.slot_len) rest media slots t.4,
)
SpanAt-of_found m s (x ∷ rest) media slots (suc i) span t e =
    let later = SpanAt-of_found (m + x.media_len) (s + x.slot_len) rest media slots i span t.4 e in
    ground arith

-- A slot below the end lies in a span.
pub slot_covered :
    (m s : ℕ) (spans : List SectionSpan) (media slots position : ℕ)
    → Tiles m s spans media slots
    → s ≤ position
    → position < slots
    → (i : ℕ) × (span : SectionSpan) × SpanAt spans i span m s media slots
      × (span.slot_start ≤ position)
      × (position < span.slot_start + span.slot_len)
slot_covered m s [] media slots position t h k = absurd (omega arith)
slot_covered m s (x ∷ rest) media slots position t h k = elim (dec_lt position (s + x.slot_len)) [
  | yes p ↦ (0, x, SpanAt-of_found m s (x ∷ rest) media slots 0 x t refl, omega arith, omega arith)
  | no p ↦
      let (i, span, at, from, to) =
        slot_covered (m + x.media_len) (s + x.slot_len) rest media slots position t.4 (omega arith)
          k in
      (suc i, span, SpanAt-of_found m s (x ∷ rest) media slots (suc i) span t at.found, from, to)
]

-- A media offset below the end lies in a span.
pub media_covered :
    (m s : ℕ) (spans : List SectionSpan) (media slots offset : ℕ)
    → Tiles m s spans media slots
    → m ≤ offset
    → offset < media
    → (i : ℕ) × (span : SectionSpan) × SpanAt spans i span m s media slots
      × (span.media_start ≤ offset)
      × (offset < span.media_start + span.media_len)
media_covered m s [] media slots offset t h k = absurd (omega arith)
media_covered m s (x ∷ rest) media slots offset t h k = elim (dec_lt offset (m + x.media_len)) [
  | yes p ↦ (0, x, SpanAt-of_found m s (x ∷ rest) media slots 0 x t refl, omega arith, omega arith)
  | no p ↦
      let (i, span, at, from, to) =
        media_covered (m + x.media_len) (s + x.slot_len) rest media slots offset t.4 (omega arith)
          k in
      (suc i, span, SpanAt-of_found m s (x ∷ rest) media slots (suc i) span t at.found, from, to)
]

-- The search by slots stops at the span that holds the slot.
pub partition_point-slot :
    (m s : ℕ) (spans : List SectionSpan) (media slots position i : ℕ) (span : SectionSpan)
    → Tiles m s spans media slots
    → slots ≤ u32_max
    → get_elem? spans i ≡ some span
    → span.slot_start ≤ position
    → position < span.slot_start + span.slot_len
    → partition_point (ends_by_slot position) spans ≡ i
partition_point-slot m s [] media slots position i span t fit e h k = cc
partition_point-slot m s (x ∷ rest) media slots position zero span t fit e h k =
    ground (arith, SpanAt-of_found m s (x ∷ rest) media slots 0 span t e)
partition_point-slot m s (x ∷ rest) media slots position (suc i) span t fit e h k = ground (
  arith,
  SpanAt-of_found (m + x.media_len) (s + x.slot_len) rest media slots i span t.4 e,
  Tiles-slot_le (m + x.media_len) (s + x.slot_len) rest media slots t.4,
  partition_point-slot (m + x.media_len) (s + x.slot_len) rest media slots position i span t.4,
)

-- The search by media offsets stops at the span that holds the offset.
pub partition_point-media :
    (m s : ℕ) (spans : List SectionSpan) (media slots offset i : ℕ) (span : SectionSpan)
    → Tiles m s spans media slots
    → media ≤ u32_max
    → get_elem? spans i ≡ some span
    → span.media_start ≤ offset
    → offset < span.media_start + span.media_len
    → partition_point (ends_by_media offset) spans ≡ i
partition_point-media m s [] media slots offset i span t fit e h k = cc
partition_point-media m s (x ∷ rest) media slots offset zero span t fit e h k =
    ground (arith, SpanAt-of_found m s (x ∷ rest) media slots 0 span t e)
partition_point-media m s (x ∷ rest) media slots offset (suc i) span t fit e h k = ground (
  arith,
  SpanAt-of_found (m + x.media_len) (s + x.slot_len) rest media slots i span t.4 e,
  Tiles-media_le (m + x.media_len) (s + x.slot_len) rest media slots t.4,
  partition_point-media (m + x.media_len) (s + x.slot_len) rest media slots offset i span t.4,
)

-- An earlier span ends where a later one starts, or before, in media and in slots.
pub Tiles-ordered :
    (m s : ℕ) (spans : List SectionSpan) (media slots i j : ℕ) (a b : SectionSpan)
    → Tiles m s spans media slots
    → i < j
    → get_elem? spans i ≡ some a
    → get_elem? spans j ≡ some b
    → (a.media_start + a.media_len ≤ b.media_start) × (a.slot_start + a.slot_len ≤ b.slot_start)
Tiles-ordered m s [] media slots i j a b t h ea eb = cc
Tiles-ordered m s (x ∷ rest) media slots i zero a b t h ea eb = absurd (omega arith)
Tiles-ordered m s (x ∷ rest) media slots zero (suc j) a b t h ea eb =
    ground (arith, SpanAt-of_found (m + x.media_len) (s + x.slot_len) rest media slots j b t.4 eb)
Tiles-ordered m s (x ∷ rest) media slots (suc i) (suc j) a b t h ea eb =
    Tiles-ordered (m + x.media_len) (s + x.slot_len) rest media slots i j a b t.4 (omega arith) ea
      eb
