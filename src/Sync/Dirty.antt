-- ===== src/Sync/Dirty.antt =====
-- src/core/sync/store/dirty.rs and the confirmations of src/core/sync/store/runtime.rs: the dirty state of
-- a row of `sync_entries`, with the versions of its three categories. SQL's NULL is `none`.
pub mod Steps
pub mod Owed
pub mod Uplink
pub mod Reach
pub mod Deleted
use photo_viewer.Base.{
  ℕ, ◌+◌, ◌≡◌, Bool, true, false, ◌&&◌, ◌||◌, not, Option, none, some, List, [], ◌∷◌, ltb, ◌==◌,
  max, if◌then◌else◌,
}
use photo_viewer.Base.Int.{ℤ}
use photo_viewer.Base.Text.{Text, ascii}
use photo_viewer.Base.Bytes.{is_some}

abbrev pub native_clean : ℕ
native_clean = 0

abbrev pub native_new : ℕ
native_new = 1

abbrev pub native_modified : ℕ
native_modified = 2

abbrev pub native_delete : ℕ
native_delete = 4

unfoldable pub contains : ℕ → ℕ → Bool
contains dirty bit = dirty == bit

unfoldable pub with_bit : ℕ → ℕ → ℕ
with_bit dirty bit =
    if dirty == native_delete || bit == native_delete
    then native_delete
    else if dirty == native_new || bit == native_new
    then native_new
    else bit

unfoldable pub without_bit : ℕ → ℕ → ℕ
without_bit dirty bit = if dirty == bit then native_clean else dirty

unfoldable pub is_clean : ℕ → Bool
is_clean dirty = dirty == native_clean

unfoldable pub names : ℕ → List Text
names dirty =
    if dirty == native_new
    then ascii "new" ∷ []
    else if dirty == native_modified
    then ascii "modified" ∷ []
    else if dirty == native_delete
    then ascii "delete" ∷ []
    else []

pub data ChangeCategory : Type 0 where
  metadata : ChangeCategory
  content : ChangeCategory
  deletion : ChangeCategory

unfoldable pub bit : ChangeCategory → ℕ
bit metadata = native_modified
bit content = native_modified
bit deletion = native_delete

pub record EditEventStamp : Type 0 where
  pub edited_at_ms : ℤ
  pub source : Text
  pub event_id : Text

-- A row of `sync_entries`, without its path and its owners.
pub record Entry : Type 0 where
  pub dirty : ℕ
  pub retired : Bool
  pub local_version : ℕ
  pub metadata_version : ℕ
  pub content_version : ℕ
  pub deletion_version : ℕ
  pub acked_metadata_version : ℕ
  pub acked_content_version : ℕ
  pub acked_deletion_version : ℕ
  pub metadata_event : Option EditEventStamp
  pub content_event : Option EditEventStamp
  pub deletion_event : Option EditEventStamp
  pub digest : Option Text
  pub photo_id : Option Text
  pub master_id : Option Text
  pub asset_revision : Option Text
  pub master_revision : Option Text
  pub content_generation : Option Text
  pub confirmed_generation : Option Text

-- The row that `note` inserts, with the defaults of the schema.
abbrev pub inserted : Entry
inserted = record {
  dirty = native_new;
  retired = false;
  local_version = 0;
  metadata_version = 0;
  content_version = 0;
  deletion_version = 0;
  acked_metadata_version = 0;
  acked_content_version = 0;
  acked_deletion_version = 0;
  metadata_event = none;
  content_event = none;
  deletion_event = none;
  digest = none;
  photo_id = none;
  master_id = none;
  asset_revision = none;
  master_revision = none;
  content_generation = none;
  confirmed_generation = none;
}

unfoldable pub has_metadata_change : Entry → Bool
has_metadata_change e = ltb e.acked_metadata_version e.metadata_version

unfoldable pub has_content_change : Entry → Bool
has_content_change e = ltb e.acked_content_version e.content_version

unfoldable pub version_for : ChangeCategory → Entry → ℕ
version_for metadata e = e.metadata_version
version_for content e = e.content_version
version_for deletion e = e.deletion_version

unfoldable pub event_for : ChangeCategory → Entry → Option EditEventStamp
event_for metadata e = e.metadata_event
event_for content e = e.content_event
event_for deletion e = e.deletion_event

unfoldable pub remote_names : Entry → Option (Text × Text)
remote_names e = elim e.photo_id [
  | none ↦ none
  | some photo ↦ elim e.master_id [ none ↦ none | some master ↦ some (photo, master) ]
]

-- The CASE of `mark`.
abbrev pub marked_dirty : ℕ → Entry → ℕ
marked_dirty category_bit e =
    if category_bit == native_delete
    then native_delete
    else if e.dirty == native_delete
    then native_delete
    else if is_some e.photo_id
    then native_modified
    else native_new

-- `mark`: one more local version and one more of the category, with its event.
unfoldable pub mark : ChangeCategory → EditEventStamp → Entry → Entry
unfolding bit
mark metadata stamp e = record e {
  dirty = marked_dirty (bit metadata) e;
  local_version = e.local_version + 1;
  digest = none;
  metadata_version = e.metadata_version + 1;
  metadata_event = some stamp;
}
mark content stamp e = record e {
  dirty = marked_dirty (bit content) e;
  local_version = e.local_version + 1;
  digest = none;
  content_version = e.content_version + 1;
  content_event = some stamp;
}
mark deletion stamp e = record e {
  dirty = marked_dirty (bit deletion) e;
  local_version = e.local_version + 1;
  digest = none;
  deletion_version = e.deletion_version + 1;
  deletion_event = some stamp;
}

-- What a job does about a change of an entry: a retired one takes only a deletion.
abbrev pub noted : ChangeCategory → EditEventStamp → Entry → Entry
unfolding mark
noted metadata stamp e = if e.retired then e else mark metadata stamp e
noted content stamp e = if e.retired then e else mark content stamp e
noted deletion stamp e = mark deletion stamp e

-- And without an entry: it inserts one, but not for a deletion.
unfoldable pub note_entry : ChangeCategory → EditEventStamp → Option Entry → Option Entry
note_entry deletion stamp none = none
note_entry metadata stamp none = some (mark metadata stamp inserted)
note_entry content stamp none = some (mark content stamp inserted)
note_entry category stamp (some e) = some (noted category stamp e)
