-- ===== src/Grid/Range/Asked.antt =====
-- What a request does with the first part of its range that is not resident.
use photo_viewer.Base.{ℕ, ◌≤◌, ◌<◌, ◌≡◌, ◌≢◌, ◌⊎◌, ◌*◌, Bool, true, none, some, ◌||◌, arith}
use photo_viewer.Base.U32.{u32_max}
use photo_viewer.Grid.Range.{
  MediaRange, RequestDisposition, covered, RangeCoordinator, request_covers, expanded_visible_range,
  len, contains,
}
use photo_viewer.Grid.Range.Resident.{holds}
use photo_viewer.Grid.Range.Gap.{IsWithin, Tells}

-- A gap that was found is in a request, and one is in flight.
pub record IsAsked (self : RangeCoordinator) (gap : MediaRange)
    (answer : RangeCoordinator × RequestDisposition) : Type 0 where
  pub asked : (request_covers answer.0.in_flight gap || request_covers answer.0.pending gap) ≡ true
  pub resident_same : answer.0.resident ≡ self.resident
  pub flying : answer.0.in_flight ≢ none
  pub not_covered : answer.1 ≢ covered

-- What a request did: nothing, as all of the range is resident, or it asked for the first gap.
abbrev pub Outcome : RangeCoordinator → MediaRange → RangeCoordinator × RequestDisposition → Type 0
Outcome self range answer =
    ((answer ≡ (self, covered))
      × ((offset : ℕ)
          → range.start ≤ offset
          → offset < range.end
          → holds self.resident offset ≡ true))
    ⊎ ((gap : MediaRange) × IsWithin range.start range.end self.resident (some gap)
        × ((offset : ℕ) → Tells range.start range.end self.resident (some gap) offset)
        × IsAsked self gap answer)

-- What is loaded around a visible range with offsets lies below `total`, and holds all visible offsets
-- below `total`; it is at most four times as long as the visible range.
expanded_visible_range_lem :
    (visible : MediaRange) (total : ℕ) (moving_forward : Bool)
    → visible.start < visible.end
    → visible.end ≤ u32_max
    → let expanded = expanded_visible_range visible total moving_forward in
      (expanded.end ≤ total)
      × (len expanded ≤ 4 * len visible)
      × ((offset : ℕ)
          → contains visible offset ≡ true
          → offset < total
          → contains expanded offset ≡ true)
unfolding expanded_visible_range
expanded_visible_range_lem visible total moving_forward h k = ground arith
