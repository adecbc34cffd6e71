-- ===== src/Grid/Range/Requests.antt =====
-- The requests of the coordinator, over any sequence of calls.
use photo_viewer.Base.{
  ℕ, ◌≤◌, ◌<◌, ◌≡◌, true, false, Option, none, some, List, [], ◌∷◌, sym, refl, subst, ◌∙◌, ◌+◌,
  ◌==◌, arith,
}
use photo_viewer.Grid.Range.{
  MediaRange, RangeRequest, started, RangeCoordinator, default, u64_max, first_uncovered_range,
  request_uncovered, request_found, request, mark_resident, retain_resident_within, invalidate,
  finish,
}
use photo_viewer.Grid.Range.Resident.{Apart, mark_resident_lem, retain_resident_within_lem}

-- The calls of the grid.
pub data Call : Type 0 where
  ask : MediaRange → Call
  installed : MediaRange → Call
  retain : MediaRange → Call
  listing_changed : Call
  landed : ℕ → Call

unfoldable pub run_call : RangeCoordinator → Call → RangeCoordinator
run_call self (ask range) = (request self range).0
run_call self (installed range) = mark_resident self range
run_call self (retain keep) = retain_resident_within self keep
run_call self listing_changed = invalidate self
run_call self (landed generation) = (finish self generation).0

unfoldable pub run_calls : RangeCoordinator → List Call → RangeCoordinator
run_calls self [] = self
run_calls self (call ∷ rest) = run_calls (run_call self call) rest

abbrev pub UpTo : ℕ → Option RangeRequest → Type 0
UpTo generation none = Unit
UpTo generation (some request) = request.generation ≤ generation

abbrev pub Waits : Option RangeRequest → Option RangeRequest → Type 0
Waits none none = Unit
Waits none (some _) = ⊥
Waits (some _) _ = Unit

pub record IsCoordinator (self : RangeCoordinator) : Type 0 where
  pub resident_apart : Apart 0 self.resident
  pub in_flight_known : UpTo self.generation self.in_flight
  pub pending_known : UpTo self.generation self.pending
  pub pending_waits : Waits self.in_flight self.pending
  pub generation_fits : self.generation ≤ u64_max

request_uncovered-IsCoordinator :
    (self : RangeCoordinator) (range : MediaRange)
    → IsCoordinator self
    → IsCoordinator (request_uncovered self range).0
unfolding request_uncovered
request_uncovered-IsCoordinator self range h = ground arith

request_found-IsCoordinator :
    (self : RangeCoordinator) (found : Option MediaRange)
    → IsCoordinator self
    → IsCoordinator (request_found self found).0
unfolding request_found
request_found-IsCoordinator self none h = h
request_found-IsCoordinator self (some uncovered) h =
    request_uncovered-IsCoordinator self uncovered h

abbrev with_resident : RangeCoordinator → List MediaRange → RangeCoordinator
with_resident self ranges = record self { resident = ranges }

with_resident-IsCoordinator :
    (self : RangeCoordinator) (ranges : List MediaRange)
    → Apart 0 ranges
    → IsCoordinator self
    → IsCoordinator (with_resident self ranges)
with_resident-IsCoordinator self ranges t h = record {
  resident_apart = t;
  in_flight_known = h.in_flight_known;
  pending_known = h.pending_known;
  pending_waits = h.pending_waits;
  generation_fits = h.generation_fits;
}

mark_resident-with_resident :
    (self : RangeCoordinator) (range : MediaRange)
    → mark_resident self range ≡ with_resident self (mark_resident self range).resident
unfolding mark_resident
mark_resident-with_resident self range = ground arith

retain_resident_within-with_resident :
    (self : RangeCoordinator) (keep : MediaRange)
    → retain_resident_within self keep
      ≡ with_resident self (retain_resident_within self keep).resident
unfolding retain_resident_within
retain_resident_within-with_resident self keep = refl

run_call-IsCoordinator :
    (self : RangeCoordinator) (call : Call)
    → IsCoordinator self
    → IsCoordinator (run_call self call)
unfolding run_call
run_call-IsCoordinator self (ask range) h =
    unfold request in request_found-IsCoordinator self (first_uncovered_range self.resident range) h
run_call-IsCoordinator self (installed range) h =
    subst IsCoordinator (sym (mark_resident-with_resident self range))
      (with_resident-IsCoordinator self _ (mark_resident_lem self range h.resident_apart).0 h)
run_call-IsCoordinator self (retain keep) h =
    subst IsCoordinator (sym (retain_resident_within-with_resident self keep)) (
      with_resident-IsCoordinator self _ (retain_resident_within_lem self keep h.resident_apart).0
        h)
run_call-IsCoordinator self listing_changed h = unfold invalidate in ground arith
run_call-IsCoordinator self (landed generation) h = unfold finish in ground arith

run_calls-IsCoordinator :
    (self : RangeCoordinator) (calls : List Call)
    → IsCoordinator self
    → IsCoordinator (run_calls self calls)
unfolding run_calls
run_calls-IsCoordinator self [] h = h
run_calls-IsCoordinator self (call ∷ rest) h =
    run_calls-IsCoordinator (run_call self call) rest (run_call-IsCoordinator self call h)

-- After any calls on a new coordinator its resident ranges are sorted, with offsets in each and a
-- gap between two, no request is newer than the generation, and a request is pending only while
-- another is in flight.
pub run_calls-default : (calls : List Call) → IsCoordinator (run_calls default calls)
run_calls-default calls = run_calls-IsCoordinator default calls (record {
  resident_apart = tt;
  in_flight_known = tt;
  pending_known = tt;
  pending_waits = tt;
  generation_fits = omega arith;
})

-- The calls that are made while a request is in flight and the listing stays.
abbrev pub KeepsListing : List Call → Type 0
KeepsListing [] = Unit
KeepsListing (ask _ ∷ rest) = KeepsListing rest
KeepsListing (installed _ ∷ rest) = KeepsListing rest
KeepsListing (retain _ ∷ rest) = KeepsListing rest
KeepsListing (listing_changed ∷ rest) = ⊥
KeepsListing (landed _ ∷ rest) = ⊥

-- Such calls leave the request and the generation.
request_uncovered-in_flight :
    (self : RangeCoordinator) (range : MediaRange) (r : RangeRequest)
    → self.in_flight ≡ some r
    → ((request_uncovered self range).0.in_flight ≡ some r)
      × ((request_uncovered self range).0.generation ≡ self.generation)
unfolding request_uncovered
request_uncovered-in_flight self range r e = ground arith

request_found-in_flight :
    (self : RangeCoordinator) (found : Option MediaRange) (r : RangeRequest)
    → self.in_flight ≡ some r
    → ((request_found self found).0.in_flight ≡ some r)
      × ((request_found self found).0.generation ≡ self.generation)
unfolding request_found
request_found-in_flight self none r e = (e, refl)
request_found-in_flight self (some uncovered) r e = request_uncovered-in_flight self uncovered r e

run_call-in_flight :
    (self : RangeCoordinator) (call : Call) (rest : List Call) (r : RangeRequest)
    → self.in_flight ≡ some r
    → KeepsListing (call ∷ rest)
    → ((run_call self call).in_flight ≡ some r)
      × ((run_call self call).generation ≡ self.generation)
      × KeepsListing rest
unfolding run_call
run_call-in_flight self (ask range) rest r e k =
    unfold request in
    let (kept, same) =
      request_found-in_flight self (first_uncovered_range self.resident range) r e in
    (kept, same, k)
run_call-in_flight self (installed range) rest r e k = unfold mark_resident in ground arith
run_call-in_flight self (retain keep) rest r e k = unfold retain_resident_within in ground arith
run_call-in_flight self listing_changed rest r e k = absurd k
run_call-in_flight self (landed generation) rest r e k = absurd k

run_calls-in_flight :
    (self : RangeCoordinator) (calls : List Call) (r : RangeRequest)
    → self.in_flight ≡ some r
    → KeepsListing calls
    → ((run_calls self calls).in_flight ≡ some r)
      × ((run_calls self calls).generation ≡ self.generation)
unfolding run_calls
run_calls-in_flight self [] r e k = (e, refl)
run_calls-in_flight self (call ∷ rest) r e k =
    let (kept, same, later) = run_call-in_flight self call rest r e k in
    let (kept', same') = run_calls-in_flight (run_call self call) rest r kept later in
    (kept', same' ∙ same)

request_found-started :
    (self : RangeCoordinator) (found : Option MediaRange) (r : RangeRequest)
    → (request_found self found).1 ≡ started r
    → ((request_found self found).0.in_flight ≡ some r)
      × (r.generation ≡ (request_found self found).0.generation)
unfolding request_found
request_found-started self none r e = cc
request_found-started self (some uncovered) r e = ground arith

request-started :
    (self : RangeCoordinator) (range : MediaRange) (r : RangeRequest)
    → (request self range).1 ≡ started r
    → ((request self range).0.in_flight ≡ some r)
      × (r.generation ≡ (request self range).0.generation)
unfolding request
request-started self range r e =
    request_found-started self (first_uncovered_range self.resident range) r e

finish-applies :
    (self : RangeCoordinator) (r : RangeRequest)
    → self.in_flight ≡ some r
    → (finish self r.generation).1.apply_result ≡ (r.generation == self.generation)
unfolding finish
finish-applies self r e = ground arith

-- The result of a request that was started is applied, whatever is asked for, installed or retained
-- while it is in flight, as long as the listing does not change.
pub finish-started :
    (self : RangeCoordinator) (range : MediaRange) (r : RangeRequest) (calls : List Call)
    → (request self range).1 ≡ started r
    → KeepsListing calls
    → (finish (run_calls (request self range).0 calls) r.generation).1.apply_result ≡ true
finish-started self range r calls e k =
    let (flying, current) = request-started self range r e in
    let (kept, same) = run_calls-in_flight (request self range).0 calls r flying k in
    finish-applies _ r kept ∙ ground arith

-- Below the last generation, the result of a request in flight is dropped once the listing has
-- changed, whatever is asked for, installed or retained between the change and its landing.
pub finish-stale :
    (self : RangeCoordinator) (r : RangeRequest) (calls : List Call)
    → IsCoordinator self
    → self.generation < u64_max
    → self.in_flight ≡ some r
    → KeepsListing calls
    → (finish (run_calls (invalidate self) calls) r.generation).1.apply_result ≡ false
finish-stale self r calls h small e k =
    let flying : (invalidate self).in_flight ≡ some r = unfold invalidate in e in
    let (kept, same) = run_calls-in_flight (invalidate self) calls r flying k in
    let newer : (invalidate self).generation ≡ self.generation + 1 =
      unfold invalidate in omega arith in
    finish-applies _ r kept ∙ ground (arith, h.in_flight_known)
