-- ===== src/Sync/Dirty/Steps.antt =====
-- Operations in flight: what `prepare_and_send` of src/core/sync/service/coordinator.rs captures and what
-- its confirmation settles, and how a row meets a photo of the cloud.
use photo_viewer.Base.{
  ℕ, Bool, true, false, ◌&&◌, ◌||◌, not, Option, none, some, ◌==◌, max, if◌then◌else◌,
}
use photo_viewer.Base.Text.{Text}
use photo_viewer.Sync.Dirty.{
  native_clean, native_new, native_modified, native_delete, contains, Entry, has_metadata_change,
  has_content_change,
}

pub data UploadPhase : Type 0 where
  delete_phase : UploadPhase
  modify_phase : UploadPhase
  create_phase : UploadPhase

abbrev pub is_create : UploadPhase → Bool
is_create delete_phase = false
is_create modify_phase = false
is_create create_phase = true

abbrev pub is_modify : UploadPhase → Bool
is_modify delete_phase = false
is_modify modify_phase = true
is_modify create_phase = false

-- The phase that takes an entry.
unfoldable pub matches_phase : Entry → UploadPhase → Bool
unfolding contains
matches_phase e phase =
    if contains e.dirty native_delete
    then not (is_create phase || is_modify phase)
    else if contains e.dirty native_new
    then is_create phase
    else is_modify phase && contains e.dirty native_modified

-- `versions: [i64; 4]`
pub record Versions : Type 0 where
  pub local : ℕ
  pub metadata : ℕ
  pub content : ℕ
  pub deletion : ℕ

-- `Issued`, with the two facts on its preparation that the confirmation reads.
pub record Issued : Type 0 where
  pub phase : UploadPhase
  pub versions : Versions
  pub photo : Text
  pub master : Text
  pub content_generation : Text
  pub send_metadata : Bool
  pub resources : Bool

abbrev or_fresh : Option Text → Text → Text
or_fresh none fresh = fresh
or_fresh (some known) fresh = known

unfoldable pub sends_content : UploadPhase → Entry → Bool
unfolding has_content_change
sends_content phase e = is_create phase || (is_modify phase && has_content_change e)

-- The names that `Uuid::new_v4` gives to what the cloud does not know yet.
pub record Fresh : Type 0 where
  pub photo : Text
  pub master : Text
  pub generation : Text

unfoldable pub prepare : UploadPhase → Fresh → Entry → Issued
unfolding has_metadata_change sends_content
prepare phase fresh e = record {
  phase = phase;
  versions = record {
    local = e.local_version;
    metadata = e.metadata_version;
    content = e.content_version;
    deletion = e.deletion_version;
  };
  photo = or_fresh e.photo_id fresh.photo;
  master = or_fresh e.master_id fresh.master;
  content_generation =
      if sends_content phase e
      then fresh.generation
      else or_fresh e.content_generation fresh.generation;
  send_metadata = is_create phase || has_metadata_change e;
  resources = sends_content phase e;
}

-- The revisions of the answer and the generation of the database.
pub record Answer : Type 0 where
  pub asset_revision : Option Text
  pub master_revision : Option Text
  pub generation : Text

abbrev coalesce : Option Text → Option Text → Option Text
coalesce none old = old
coalesce (some fresh) old = some fresh

-- `Command::Confirm` of an operation that is no deletion: the acknowledged versions, then the state.
abbrev pub acknowledge : Issued → Answer → Entry → Entry
acknowledge op answer e = record e {
  retired = false;
  photo_id = some op.photo;
  master_id = some op.master;
  asset_revision = coalesce answer.asset_revision e.asset_revision;
  master_revision = coalesce answer.master_revision e.master_revision;
  content_generation = some op.content_generation;
  confirmed_generation = some answer.generation;
  acked_metadata_version =
      max e.acked_metadata_version
        (if is_create op.phase || op.send_metadata then op.versions.metadata else 0);
  acked_content_version =
      max e.acked_content_version
        (if is_create op.phase || op.resources then op.versions.content else 0);
}

unfoldable pub settled_dirty : ℕ → Entry → ℕ
unfolding has_metadata_change has_content_change
settled_dirty captured e =
    if e.dirty == native_delete
    then native_delete
    else if not (e.local_version == captured) || has_metadata_change e || has_content_change e
    then native_modified
    else native_clean

unfoldable pub confirm_upload : Issued → Answer → Entry → Entry
unfolding settled_dirty
confirm_upload op answer e =
    let told = acknowledge op answer e in
    record told { dirty = settled_dirty op.versions.local told }

-- `Command::Confirm` of a deletion, and whether the row goes with it.
abbrev pub confirm_deletion : Issued → Entry → Entry
confirm_deletion op e =
    let same = e.local_version == op.versions.local in
    record e {
      retired = same;
      photo_id = none;
      master_id = none;
      asset_revision = none;
      master_revision = none;
      content_generation = none;
      confirmed_generation = none;
      dirty = if same then native_clean else native_new;
      acked_deletion_version = max e.acked_deletion_version op.versions.deletion;
    }

abbrev pub unless_gone : Issued → Entry → Option Entry
unless_gone op e =
    if e.dirty == native_clean && e.retired && e.local_version == op.versions.local
    then none
    else some e

unfoldable pub confirm : Issued → Answer → Entry → Option Entry
unfolding confirm_upload
confirm op answer e =
    if is_create op.phase || is_modify op.phase
    then some (confirm_upload op answer e)
    else unless_gone op (confirm_deletion op e)

-- `adoption` of a photo whose bytes are those of the local file, as far as it binds the entry. The digest that
-- `set_digest` caches besides is not part of the entry here, and none of these operations reads it.
unfoldable pub adopt : Text → Text → Answer → Text → Entry → Entry
unfolding has_metadata_change
adopt photo master answer generation e =
    let keep_metadata = has_metadata_change e in
    record e {
      photo_id = some photo;
      master_id = some master;
      asset_revision = answer.asset_revision;
      master_revision = answer.master_revision;
      content_generation = some generation;
      confirmed_generation = some answer.generation;
      dirty = if keep_metadata then native_modified else native_clean;
      retired = false;
      acked_content_version = max e.acked_content_version e.content_version;
      acked_metadata_version =
          if keep_metadata
          then e.acked_metadata_version
          else max e.acked_metadata_version e.metadata_version;
    }
