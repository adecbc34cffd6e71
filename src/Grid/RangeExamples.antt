-- ===== src/Grid/RangeExamples.antt =====
-- Tests of the range coordinator, and its theorems at a coordinator that loaded one range.
use photo_viewer.Base.{ℕ, ◌≡◌, ◌||◌, refl, true, false, none, some, List, [], ◌∷◌, arith}
use photo_viewer.Grid.Range.{
  MediaRange, RangeRequest, RangeCoordinator, started, request, first_uncovered_range,
  mark_resident, invalidate, finish, default, contains,
}
use photo_viewer.Grid.Range.Resident.{Apart, holds, mark_resident_lem}
use photo_viewer.Grid.Range.Requests.{
  Call, ask, installed, retain, landed, run_call, run_calls, IsCoordinator, run_calls-default,
  finish-started, finish-stale,
}

abbrev first : MediaRange
first = record { start = 10; end = 20 }

abbrev wider : MediaRange
wider = record { start = 5; end = 30 }

abbrev history : List Call
history = ask first ∷ installed first ∷ landed 1 ∷ []

abbrev loaded : RangeCoordinator
loaded = record { generation = 1; in_flight = none; pending = none; resident = first ∷ [] }

-- The gap before the resident range is asked for first.
request-wider :
    (request loaded wider).1
    ≡ started (record { generation = 2; range = record { start = 5; end = 10 } })
unfolding request first_uncovered_range
request-wider = refl

run_calls-default_example : IsCoordinator (run_calls default history)
run_calls-default_example = run_calls-default history

mark_resident_lem_example :
    Apart 0 (mark_resident loaded wider).resident
    × ((offset : ℕ)
        → holds (mark_resident loaded wider).resident offset
          ≡ (holds loaded.resident offset || contains wider offset))
mark_resident_lem_example = mark_resident_lem loaded wider (omega arith)

abbrev asked : RangeRequest
asked = record { generation = 1; range = first }

abbrev meanwhile : List Call
meanwhile = ask wider ∷ installed first ∷ retain wider ∷ []

finish-started_example :
    (finish (run_calls (request default first).0 meanwhile) 1).1.apply_result ≡ true
unfolding request first_uncovered_range
finish-started_example = finish-started default first asked meanwhile refl tt

abbrev flying : RangeCoordinator
flying = record { generation = 1; in_flight = some asked; pending = none; resident = [] }

run_calls-flying : run_calls default (ask first ∷ []) ≡ flying
unfolding run_calls run_call request first_uncovered_range
run_calls-flying = refl

flying-IsCoordinator : IsCoordinator flying
flying-IsCoordinator = rw run_calls-flying at (run_calls-default (ask first ∷ []))

finish-stale_example : (finish (run_calls (invalidate flying) meanwhile) 1).1.apply_result ≡ false
finish-stale_example =
    finish-stale flying asked meanwhile flying-IsCoordinator (omega arith) refl tt
