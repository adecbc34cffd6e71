-- ===== src/Sync/Dirty/Deleted.antt =====
-- What the confirmation of a deletion makes of an entry that is edited meanwhile.
use photo_viewer.Base.{◌≡◌, refl, ◌≢◌, false, Option, none, some, List, [], ◌∷◌, ◌==◌, arith}
use photo_viewer.Sync.Dirty.{native_new, Entry}
use photo_viewer.Sync.Dirty.Steps.{
  delete_phase, Issued, Fresh, prepare, Answer, confirm_deletion, unless_gone, confirm,
}
use photo_viewer.Sync.Dirty.Owed.{Edit, edited, edited-IsEdited}

-- What becomes of the row when a deletion is confirmed.
pub data Deleted (es : List Edit) (row : Option Entry) : Type 0 where
  gone : es ≡ [] → row ≡ none → Deleted es row
  recreated :
      (later : Entry)
      → es ≢ []
      → row ≡ some later
      → later.dirty ≡ native_new
      → later.photo_id ≡ none
      → later.retired ≡ false
      → Deleted es row

deleted-same :
    (op : Issued) (e : Entry)
    → e.local_version ≡ op.versions.local
    → unless_gone op (confirm_deletion op e) ≡ none
deleted-same op e h = ground arith

edited-deletion :
    (op : Issued) (e : Entry)
    → (e.local_version == op.versions.local) ≡ false
    → unless_gone op (confirm_deletion op e) ≡ some (confirm_deletion op e)
edited-deletion op e h = ground arith

-- A deletion that the cloud confirms takes the row of an entry that is not retired away where nothing
-- was edited since the operation was prepared. Where something was, the row stays as a new one, which
-- is not retired and which the cloud does not know.
pub confirm-deletion :
    (fresh : Fresh) (answer : Answer) (e : Entry) (es : List Edit)
    → e.retired ≡ false
    → Deleted es (confirm (prepare delete_phase fresh e) answer (edited es e))
unfolding confirm prepare edited
confirm-deletion fresh answer e [] kept =
    gone refl (deleted-same (prepare delete_phase fresh e) e refl)
confirm-deletion fresh answer e (edit ∷ es) kept =
    let op = prepare delete_phase fresh e in
    let later = edited (edit ∷ es) e in
    let edits = edited-IsEdited (edit ∷ es) e kept in
    let moved : (later.local_version == e.local_version) ≡ false = ground (arith, edits.local) in
    recreated (confirm_deletion op later) (λ h. absurd (ground arith))
      (edited-deletion op later moved) (ground arith) refl (ground arith)
