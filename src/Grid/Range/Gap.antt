-- ===== src/Grid/Range/Gap.antt =====
-- `first_uncovered_range`: the first part of a range that is not resident.
use photo_viewer.Base.{
  ℕ, suc, ◌≤◌, ◌<◌, ◌≡◌, ◌⊎◌, true, false, Option, none, some, List, [], ◌∷◌, max, arith,
  lt→not-leb,
}
use photo_viewer.Grid.Range.{MediaRange, uncovered_from, first_uncovered_range}
use photo_viewer.Grid.Range.Resident.{holds, Apart}

-- Nothing is held before the first range.
holds_before :
    (bound : ℕ) (ranges : List MediaRange) (offset : ℕ)
    → Apart bound ranges
    → offset < bound
    → holds ranges offset ≡ false
holds_before bound [] offset h k = ground arith
holds_before bound (range ∷ rest) offset h k =
    ground (arith, holds_before (suc range.end) rest offset h.2)

-- Where the answer lies, and what stands right behind it.
abbrev pub IsWithin : ℕ → ℕ → List MediaRange → Option MediaRange → Type 0
IsWithin from to ranges none = Unit
IsWithin from to ranges (some gap) =
    (from ≤ gap.start)
    × (gap.start < gap.end)
    × (gap.end ≤ to)
    × ((gap.end ≡ to) ⊎ (holds ranges gap.end ≡ true))

-- What the answer says of one offset of the range.
abbrev pub Tells : ℕ → ℕ → List MediaRange → Option MediaRange → ℕ → Type 0
Tells from to ranges none offset = from ≤ offset → offset < to → holds ranges offset ≡ true
Tells from to ranges (some gap) offset =
    (from ≤ offset → offset < gap.start → holds ranges offset ≡ true)
    × (gap.start ≤ offset → offset < gap.end → holds ranges offset ≡ false)

uncovered_from-IsWithin :
    (cursor end bound : ℕ) (ranges : List MediaRange)
    → cursor < end
    → Apart bound ranges
    → IsWithin cursor end ranges (uncovered_from cursor end ranges)
unfolding uncovered_from
uncovered_from-IsWithin cursor end bound [] h t = ground arith
uncovered_from-IsWithin cursor end bound (range ∷ rest) h t = ground (
  arith,
  uncovered_from-IsWithin cursor end (suc range.end) rest h t.2,
  uncovered_from-IsWithin (max cursor range.end) end (suc range.end) rest,
)

uncovered_from-Tells :
    (cursor end bound : ℕ) (ranges : List MediaRange) (offset : ℕ)
    → cursor < end
    → Apart bound ranges
    → Tells cursor end ranges (uncovered_from cursor end ranges) offset
unfolding uncovered_from
uncovered_from-Tells cursor end bound [] offset h t = ground arith
uncovered_from-Tells cursor end bound (range ∷ rest) offset h t = ground (
  arith,
  holds_before (suc range.end) rest offset t.2,
  uncovered_from-IsWithin cursor end (suc range.end) rest h t.2,
  uncovered_from-IsWithin (max cursor range.end) end (suc range.end) rest,
  uncovered_from-Tells cursor end (suc range.end) rest offset h t.2,
  uncovered_from-Tells (max cursor range.end) end (suc range.end) rest offset,
)

first_uncovered_range-nonempty :
    (resident : List MediaRange) (requested : MediaRange)
    → requested.start < requested.end
    → first_uncovered_range resident requested
      ≡ uncovered_from requested.start requested.end resident
unfolding first_uncovered_range
first_uncovered_range-nonempty resident requested h = rw (lt→not-leb _ _ h)

-- Over resident ranges that are sorted and apart, `first_uncovered_range` of a range with offsets
-- answers with a gap: a part of the range with no resident offset, behind which the range ends or a
-- resident offset stands, and before which all offsets of the range are resident. It answers with
-- nothing where all offsets of the range are resident.
pub first_uncovered_range_lem :
    (resident : List MediaRange) (requested : MediaRange)
    → Apart 0 resident
    → requested.start < requested.end
    → IsWithin requested.start requested.end resident (first_uncovered_range resident requested)
      × ((offset : ℕ)
          → Tells requested.start requested.end resident
              (first_uncovered_range resident requested)
              offset)
first_uncovered_range_lem resident requested t h =
    rw (first_uncovered_range-nonempty resident requested h) (
      uncovered_from-IsWithin requested.start requested.end 0 resident h t,
      λ offset. uncovered_from-Tells requested.start requested.end 0 resident offset h t,
    )
