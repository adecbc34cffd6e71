-- ===== src/Grid/IncrementalExamples.antt =====
-- A photo that is edited while its insertion is looked up.
use photo_viewer.Base.{
  ℕ, ◌≡◌, ◌==◌, ◌+◌, if◌then◌else◌, refl, none, some, List, [], ◌∷◌, map, arith,
}
use photo_viewer.Base.BTree.{get, insert}
use photo_viewer.Grid.Incremental.{
  IncrementalItemKind, inserted, updated, upsert, is_new, count_kinds, merge, begin_items,
  readmit_all, admissions_of, resolve_inserted_kinds,
}
use photo_viewer.Grid.Incremental.Events.{begin_all}
use photo_viewer.Grid.Incremental.Captured.{readmit_all-begin_all}
use photo_viewer.Grid.Incremental.Kinds.{resolve_inserted_kinds-total}

abbrev id_of : ℕ × ℕ → ℕ
id_of photo = photo.0

abbrev before : List (IncrementalItemKind × List (ℕ × ℕ))
before = (inserted, (7, 1) ∷ []) ∷ (updated, (8, 1) ∷ []) ∷ []

abbrev during : List (IncrementalItemKind × List (ℕ × ℕ))
during = (updated, (7, 2) ∷ []) ∷ []

edited_insertion :
    get 7 (readmit_all (admissions_of (begin_all id_of before [])) (begin_all id_of during []))
    ≡ some ((7, 2), inserted)
unfolding get insert readmit_all admissions_of begin_all begin_items merge
edited_insertion = refl

readmit_all-begin_all_example :
    get 7 (readmit_all (admissions_of (begin_all id_of before [])) (begin_all id_of during []))
    ≡ get 7 (begin_all id_of during (admissions_of (begin_all id_of before [])))
readmit_all-begin_all_example = readmit_all-begin_all id_of before during 7

abbrev changes : List IncrementalItemKind
changes = inserted ∷ updated ∷ upsert ∷ []

resolve_inserted_kinds-total_example :
    resolve_inserted_kinds 10 12 changes
    ≡ (if 12 == 10 + count_kinds is_new changes then some (map is_new changes) else none)
resolve_inserted_kinds-total_example =
    resolve_inserted_kinds-total 10 12 changes (omega arith) (omega arith)
