-- ===== src/Grid/Range.antt =====
-- src/ui/virtual_media_grid/range_cache.rs: which media ranges are loaded, and which to load next.
pub mod Resident
pub mod Gap
pub mod Requests
pub mod Asked
use photo_viewer.Base.{
  ℕ, ◌+◌, ◌-◌, ◌*◌, ◌^◌, min, max, Bool, true, false, not, ◌&&◌, ◌||◌, Option, none, some, List, [],
  ◌∷◌, ◌++◌, ltb, leb, ◌==◌, if◌then◌else◌,
}
use photo_viewer.Base.U32.{u32_max, saturating_add}
use photo_viewer.Base.Order.{nat_order, reverse_order}
use photo_viewer.Base.Sort.{sort_desc}

pub record MediaRange : Type 0 where
  pub start : ℕ
  pub end : ℕ

abbrev pub is_empty : MediaRange → Bool
is_empty self = leb self.end self.start

abbrev pub len : MediaRange → ℕ
len self = self.end - self.start

abbrev pub contains : MediaRange → ℕ → Bool
contains self offset = leb self.start offset && ltb offset self.end

abbrev pub covers : MediaRange → MediaRange → Bool
covers self other = leb self.start other.start && leb other.end self.end

abbrev pub touches : MediaRange → MediaRange → Bool
touches self other = leb self.start other.end && leb other.start self.end

abbrev pub union : MediaRange → MediaRange → MediaRange
union self other = record { start = min self.start other.start; end = max self.end other.end }

abbrev pub clamp : MediaRange → ℕ → MediaRange
clamp self total = record { start = min self.start total; end = min self.end total }

pub record RangeRequest : Type 0 where
  pub generation : ℕ  -- u64
  pub range : MediaRange

pub data RequestDisposition : Type 0 where
  covered : RequestDisposition
  started : RangeRequest → RequestDisposition
  coalesced : RequestDisposition

pub record Completion : Type 0 where
  pub apply_result : Bool
  pub next : Option RangeRequest

pub record RangeCoordinator : Type 0 where
  pub generation : ℕ  -- u64
  pub in_flight : Option RangeRequest
  pub pending : Option RangeRequest
  pub resident : List MediaRange

abbrev pub default : RangeCoordinator
default = record { generation = 0; in_flight = none; pending = none; resident = [] }

abbrev pub u64_max : ℕ
u64_max = 2 ^ 64 - 1

-- `saturating_add` of `u64`
abbrev pub next_generation : ℕ → ℕ
next_generation generation = min (generation + 1) u64_max

-- The loop over the resident ranges, from the current `cursor`.
unfoldable pub uncovered_from : ℕ → ℕ → List MediaRange → Option MediaRange
uncovered_from cursor end [] = some (record { start = cursor; end = end })
uncovered_from cursor end (range ∷ rest) =
    let skip = uncovered_from cursor end rest in
    let advance = uncovered_from (max cursor range.end) end rest in
    if leb range.end cursor
    then skip
    else if leb end range.start
    then some (record { start = cursor; end = end })
    else if ltb cursor range.start
    then some (record { start = cursor; end = min range.start end })
    else if leb end (max cursor range.end)
    then none
    else advance

unfoldable pub first_uncovered_range : List MediaRange → MediaRange → Option MediaRange
unfolding uncovered_from
first_uncovered_range resident requested =
    if is_empty requested then none else uncovered_from requested.start requested.end resident

abbrev pub request_covers : Option RangeRequest → MediaRange → Bool
request_covers none requested = false
request_covers (some request) requested = covers request.range requested

-- The rest of `request`, from the first part that is not resident.
unfoldable pub request_uncovered :
    RangeCoordinator → MediaRange → RangeCoordinator × RequestDisposition
request_uncovered self requested =
    if request_covers self.in_flight requested || request_covers self.pending requested
    then (self, coalesced)
    else elim self.in_flight [
      | some _ ↦ (
        record self { pending = some (record { generation = self.generation; range = requested }) },
        coalesced,
      )
      | none ↦
          let generation = next_generation self.generation in
          let request : RangeRequest = record { generation = generation; range = requested } in
          (record self { generation = generation; in_flight = some request }, started request)
    ]

-- `let Some(requested) = … else`
unfoldable pub request_found :
    RangeCoordinator → Option MediaRange → RangeCoordinator × RequestDisposition
unfolding request_uncovered
request_found self none = (self, covered)
request_found self (some uncovered) = request_uncovered self uncovered

unfoldable pub request : RangeCoordinator → MediaRange → RangeCoordinator × RequestDisposition
unfolding request_found
request self requested = request_found self (first_uncovered_range self.resident requested)

-- The loop of `mark_resident`, with the last merged range in hand.
unfoldable pub merge_last : MediaRange → List MediaRange → List MediaRange
merge_last last [] = last ∷ []
merge_last last (range ∷ rest) = elim (touches last range) [
  | true ↦ merge_last (union last range) rest
  | false ↦ last ∷ merge_last range rest
]

unfoldable pub merge_ranges : List MediaRange → List MediaRange
unfolding merge_last
merge_ranges [] = []
merge_ranges (range ∷ rest) = merge_last range rest

abbrev pub start_of : MediaRange → ℕ
start_of range = range.start

-- `sort_unstable_by_key(|range| range.start)`
unfoldable pub sort_by_start : List MediaRange → List MediaRange
unfolding sort_desc
sort_by_start ranges = sort_desc (reverse_order nat_order) start_of ranges

unfoldable pub mark_resident : RangeCoordinator → MediaRange → RangeCoordinator
unfolding merge_ranges sort_by_start
mark_resident self range =
    if is_empty range
    then self
    else record self { resident = merge_ranges (sort_by_start (self.resident ++ range ∷ [])) }

unfoldable pub clip_ranges : MediaRange → List MediaRange → List MediaRange
clip_ranges keep [] = []
clip_ranges keep (range ∷ rest) =
    let clipped : MediaRange = record {
      start = max range.start keep.start;
      end = min range.end keep.end;
    } in
    let later = clip_ranges keep rest in if is_empty clipped then later else clipped ∷ later

unfoldable pub retain_resident_within : RangeCoordinator → MediaRange → RangeCoordinator
unfolding clip_ranges
retain_resident_within self keep = record self { resident = clip_ranges keep self.resident }

unfoldable pub invalidate : RangeCoordinator → RangeCoordinator
invalidate self = record self {
  generation = next_generation self.generation;
  pending = none;
  resident = [];
}

abbrev pub has_generation : ℕ → Option RangeRequest → Bool
has_generation generation none = false
has_generation generation (some request) = request.generation == generation

unfoldable pub finish : RangeCoordinator → ℕ → RangeCoordinator × Completion
finish self generation = (
  record self { in_flight = none; pending = none },
  record {
    apply_result = has_generation generation self.in_flight && generation == self.generation;
    next = self.pending;
  },
)

unfoldable pub expanded_visible_range : MediaRange → ℕ → Bool → MediaRange
expanded_visible_range visible total moving_forward =
    if is_empty visible || total == 0
    then record { start = 0; end = 0 }
    else let overscan = max (len visible) 1 in
      let double = min (overscan * 2) u32_max in
      let before = if moving_forward then overscan else double in
      let after = if moving_forward then double else overscan in
      clamp (record { start = visible.start - before; end = saturating_add visible.end after })
        total
