-- ===== src/Grid/Range/Resident.antt =====
-- The resident ranges: which offsets they hold, and that they stay sorted and apart.
use photo_viewer.Base.{
  ℕ, suc, ◌≤◌, ◌<◌, ◌≡◌, refl, ◌∙◌, ap, Bool, true, false, ◌&&◌, ◌||◌, List, [], ◌∷◌, ◌++◌, ltb,
  min, arith, Bool-cases, inl, inr,
}
use photo_viewer.Base.Order.{nat_order, reverse_order}
use photo_viewer.Base.Sort.{insert_desc}
use photo_viewer.Grid.Range.{
  MediaRange, RangeCoordinator, contains, is_empty, touches, union, merge_last, merge_ranges,
  start_of, sort_by_start, mark_resident, clip_ranges, retain_resident_within,
}

-- Whether an offset lies in one of the ranges.
abbrev pub holds : List MediaRange → ℕ → Bool
holds [] offset = false
holds (range ∷ rest) offset = contains range offset || holds rest offset

-- Each range has offsets, and starts at `bound` or later and after a gap behind the one before it.
abbrev pub Apart : ℕ → List MediaRange → Type 0
Apart bound [] = Unit
Apart bound (range ∷ rest) =
    (bound ≤ range.start) × (range.start < range.end) × Apart (suc range.end) rest

-- Each range has offsets, and starts no earlier than the one before it.
abbrev Sorted : ℕ → List MediaRange → Type 0
Sorted bound [] = Unit
Sorted bound (range ∷ rest) =
    (bound ≤ range.start) × (range.start < range.end) × Sorted range.start rest

abbrev AllNonempty : List MediaRange → Type 0
AllNonempty [] = Unit
AllNonempty (range ∷ rest) = (range.start < range.end) × AllNonempty rest

AllNonempty-of_Apart :
    (bound : ℕ) (ranges : List MediaRange) → Apart bound ranges → AllNonempty ranges
AllNonempty-of_Apart bound [] h = tt
AllNonempty-of_Apart bound (range ∷ rest) h = (h.1, AllNonempty-of_Apart (suc range.end) rest h.2)

Apart-weaken : (a b : ℕ) (ranges : List MediaRange) → a ≤ b → Apart b ranges → Apart a ranges
Apart-weaken a b [] h t = tt
Apart-weaken a b (range ∷ rest) h t = (omega arith, t.1, t.2)

AllNonempty-append_one :
    (ranges : List MediaRange) (range : MediaRange)
    → AllNonempty ranges
    → range.start < range.end
    → AllNonempty (ranges ++ range ∷ [])
AllNonempty-append_one [] range h k = (k, tt)
AllNonempty-append_one (x ∷ rest) range h k = (h.0, AllNonempty-append_one rest range h.1 k)

holds-append_one :
    (ranges : List MediaRange) (range : MediaRange) (offset : ℕ)
    → holds (ranges ++ range ∷ []) offset ≡ (holds ranges offset || contains range offset)
holds-append_one [] range offset = ground arith
holds-append_one (x ∷ rest) range offset = ground (arith, holds-append_one rest range offset)

abbrev insert_by_start : MediaRange → List MediaRange → List MediaRange
insert_by_start = insert_desc (reverse_order nat_order) start_of

insert_by_start-before :
    (x y : MediaRange) (ys : List MediaRange)
    → ltb x.start y.start ≡ true
    → insert_by_start x (y ∷ ys) ≡ x ∷ y ∷ ys
unfolding insert_desc
insert_by_start-before x y ys h = ground arith

insert_by_start-behind :
    (x y : MediaRange) (ys : List MediaRange)
    → ltb x.start y.start ≡ false
    → insert_by_start x (y ∷ ys) ≡ y ∷ insert_by_start x ys
unfolding insert_desc
insert_by_start-behind x y ys h = ground arith

insert_by_start-nil : (x : MediaRange) → insert_by_start x [] ≡ x ∷ []
unfolding insert_desc
insert_by_start-nil x = refl

insert_by_start-Sorted :
    (bound : ℕ) (x : MediaRange) (ys : List MediaRange)
    → bound ≤ x.start
    → x.start < x.end
    → Sorted bound ys
    → Sorted bound (insert_by_start x ys)
insert_by_start-Sorted bound x [] h k s = rw (insert_by_start-nil x) (h, k, tt)
insert_by_start-Sorted bound x (y ∷ ys) h k s = elim (Bool-cases (ltb x.start y.start)) [
  | inl before ↦ rw (insert_by_start-before x y ys before) (h, k, (ground arith, s.1, s.2))
  | inr behind ↦
      rw (insert_by_start-behind x y ys behind)
        (s.0, s.1, insert_by_start-Sorted y.start x ys (ground arith) k s.2)
]

holds-insert_by_start :
    (x : MediaRange) (ys : List MediaRange) (offset : ℕ)
    → holds (insert_by_start x ys) offset ≡ (contains x offset || holds ys offset)
holds-insert_by_start x [] offset = rw (insert_by_start-nil x)
holds-insert_by_start x (y ∷ ys) offset = elim (Bool-cases (ltb x.start y.start)) [
  | inl before ↦ rw (insert_by_start-before x y ys before)
  | inr behind ↦
      rw (insert_by_start-behind x y ys behind) (ground (arith, holds-insert_by_start x ys offset))
]

sort_by_start-Sorted : (xs : List MediaRange) → AllNonempty xs → Sorted 0 (sort_by_start xs)
unfolding sort_by_start
sort_by_start-Sorted [] h = tt
sort_by_start-Sorted (x ∷ xs) h =
    insert_by_start-Sorted 0 x (sort_by_start xs) (omega arith) h.0 (sort_by_start-Sorted xs h.1)

holds-sort_by_start :
    (xs : List MediaRange) (offset : ℕ) → holds (sort_by_start xs) offset ≡ holds xs offset
unfolding sort_by_start
holds-sort_by_start [] offset = refl
holds-sort_by_start (x ∷ xs) offset =
    holds-insert_by_start x (sort_by_start xs) offset
    ∙ ap (λ b. contains x offset || b) (holds-sort_by_start xs offset)

Sorted-weaken : (a b : ℕ) (ranges : List MediaRange) → a ≤ b → Sorted b ranges → Sorted a ranges
Sorted-weaken a b [] h t = tt
Sorted-weaken a b (range ∷ rest) h t = (omega arith, t.1, t.2)

merge_last-joined :
    (last range : MediaRange) (rest : List MediaRange)
    → touches last range ≡ true
    → merge_last last (range ∷ rest) ≡ merge_last (union last range) rest
unfolding merge_last
merge_last-joined last range rest h = ground arith

merge_last-apart :
    (last range : MediaRange) (rest : List MediaRange)
    → touches last range ≡ false
    → merge_last last (range ∷ rest) ≡ last ∷ merge_last range rest
unfolding merge_last
merge_last-apart last range rest h = ground arith

merge_last-nil : (last : MediaRange) → merge_last last [] ≡ last ∷ []
unfolding merge_last
merge_last-nil last = refl

merge_last-Apart :
    (bound : ℕ) (last : MediaRange) (rest : List MediaRange)
    → bound ≤ last.start
    → last.start < last.end
    → Sorted last.start rest
    → Apart bound (merge_last last rest)
merge_last-Apart bound last [] h k s = rw (merge_last-nil last) (h, k, tt)
merge_last-Apart bound last (range ∷ rest) h k s = elim (Bool-cases (touches last range)) [
  | inl joined ↦ rw (merge_last-joined last range rest joined) (
      merge_last-Apart bound (union last range) rest (omega arith) (omega arith)
        (Sorted-weaken (min last.start range.start) range.start rest (omega arith) s.2))
  | inr apart ↦
      rw (merge_last-apart last range rest apart)
        (h, k, merge_last-Apart (suc last.end) range rest (ground arith) s.1 s.2)
]

contains-union :
    (a b : MediaRange) (offset : ℕ)
    → touches a b ≡ true
    → a.start < a.end
    → b.start < b.end
    → contains (union a b) offset ≡ (contains a offset || contains b offset)
contains-union a b offset h k l = ground arith

or_assoc : (a b c : Bool) → ((a || b) || c) ≡ (a || (b || c))
or_assoc a b c = ground arith

holds-merge_last :
    (last : MediaRange) (rest : List MediaRange) (offset : ℕ)
    → last.start < last.end
    → Sorted last.start rest
    → holds (merge_last last rest) offset ≡ (contains last offset || holds rest offset)
holds-merge_last last [] offset k s = rw (merge_last-nil last)
holds-merge_last last (range ∷ rest) offset k s = elim (Bool-cases (touches last range)) [
  | inl joined ↦ rw (merge_last-joined last range rest joined) (
      holds-merge_last (union last range) rest offset (omega arith)
        (Sorted-weaken (min last.start range.start) range.start rest (omega arith) s.2)
      ∙ ap (λ b. b || holds rest offset) (contains-union last range offset joined k s.1)
      ∙ or_assoc (contains last offset) (contains range offset) (holds rest offset))
  | inr apart ↦
      rw (merge_last-apart last range rest apart)
        (ap (λ b. contains last offset || b) (holds-merge_last range rest offset s.1 s.2))
]

merge_ranges-Apart : (ranges : List MediaRange) → Sorted 0 ranges → Apart 0 (merge_ranges ranges)
unfolding merge_ranges
merge_ranges-Apart [] s = tt
merge_ranges-Apart (range ∷ rest) s = merge_last-Apart 0 range rest s.0 s.1 s.2

holds-merge_ranges :
    (ranges : List MediaRange) (offset : ℕ)
    → Sorted 0 ranges
    → holds (merge_ranges ranges) offset ≡ holds ranges offset
unfolding merge_ranges
holds-merge_ranges [] offset s = refl
holds-merge_ranges (range ∷ rest) offset s = holds-merge_last range rest offset s.1 s.2

mark_resident-nonempty :
    (self : RangeCoordinator) (range : MediaRange)
    → is_empty range ≡ false
    → (mark_resident self range).resident
      ≡ merge_ranges (sort_by_start (self.resident ++ range ∷ []))
unfolding mark_resident
mark_resident-nonempty self range h = rw h

mark_resident-empty :
    (self : RangeCoordinator) (range : MediaRange)
    → is_empty range ≡ true
    → mark_resident self range ≡ self
unfolding mark_resident
mark_resident-empty self range h = rw h

-- Marking a range keeps the resident ranges sorted, with offsets in each and a gap between two, and
-- then they hold the offsets that they held and those of the range.
pub mark_resident_lem :
    (self : RangeCoordinator) (range : MediaRange)
    → Apart 0 self.resident
    → Apart 0 (mark_resident self range).resident
      × ((offset : ℕ)
          → holds (mark_resident self range).resident offset
            ≡ (holds self.resident offset || contains range offset))
mark_resident_lem self range h = elim (Bool-cases (is_empty range)) [
  | inl empty ↦ rw (mark_resident-empty self range empty) (h, λ offset. ground arith)
  | inr some ↦
      let sorted = sort_by_start-Sorted (self.resident ++ range ∷ []) (
        AllNonempty-append_one self.resident range (AllNonempty-of_Apart 0 self.resident h)
          (ground arith)) in
      rw (mark_resident-nonempty self range some) (
        merge_ranges-Apart _ sorted,
        λ offset.
            holds-merge_ranges _ offset sorted
            ∙ holds-sort_by_start (self.resident ++ range ∷ []) offset
            ∙ holds-append_one self.resident range offset,
      )
]

clip_ranges-Apart :
    (bound : ℕ) (keep : MediaRange) (ranges : List MediaRange)
    → Apart bound ranges
    → Apart bound (clip_ranges keep ranges)
unfolding clip_ranges
clip_ranges-Apart bound keep [] h = tt
clip_ranges-Apart bound keep (range ∷ rest) h =
    let later = clip_ranges-Apart (suc range.end) keep rest h.2 in
    ground (
      arith,
      Apart-weaken bound (suc range.end) (clip_ranges keep rest),
      Apart-weaken (suc (min range.end keep.end)) (suc range.end) (clip_ranges keep rest),
    )

holds-clip_ranges :
    (keep : MediaRange) (ranges : List MediaRange) (offset : ℕ)
    → holds (clip_ranges keep ranges) offset ≡ (holds ranges offset && contains keep offset)
unfolding clip_ranges
holds-clip_ranges keep [] offset = refl
holds-clip_ranges keep (range ∷ rest) offset = ground (arith, holds-clip_ranges keep rest offset)

-- Retaining a window keeps the resident ranges sorted, with offsets in each and a gap between two,
-- and then they hold those of their offsets that lie in the window.
pub retain_resident_within_lem :
    (self : RangeCoordinator) (keep : MediaRange)
    → Apart 0 self.resident
    → Apart 0 (retain_resident_within self keep).resident
      × ((offset : ℕ)
          → holds (retain_resident_within self keep).resident offset
            ≡ (holds self.resident offset && contains keep offset))
unfolding retain_resident_within
retain_resident_within_lem self keep h = (
  clip_ranges-Apart 0 keep self.resident h,
  λ offset. holds-clip_ranges keep self.resident offset,
)
