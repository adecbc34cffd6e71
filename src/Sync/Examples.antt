-- ===== src/Sync/Examples.antt =====
-- A photo that is edited while its upload and its deletion are in flight.
use photo_viewer.Base.{◌+◌, ◌≡◌, ◌↔◌, refl, true, some, List, [], ◌∷◌, arith}
use photo_viewer.Base.Int.{pos}
use photo_viewer.Base.Text.{ascii}
use photo_viewer.Sync.Dirty.{
  native_clean, metadata, content, EditEventStamp, Entry, mark, inserted, note_entry,
}
use photo_viewer.Sync.Dirty.Steps.{
  delete_phase, create_phase, matches_phase, Fresh, prepare, Answer, confirm_upload, confirm,
}
use photo_viewer.Sync.Dirty.Owed.{Edit, edited, IsSound, confirm_upload-edited}
use photo_viewer.Sync.Dirty.Uplink.{
  Uplink, edit, send, confirmed, Reach, noted_first, then_step, IsOwed,
}
use photo_viewer.Sync.Dirty.Reach.{Reach-IsOwed}
use photo_viewer.Sync.Dirty.Deleted.{Deleted, confirm-deletion}

abbrev stamp : EditEventStamp
stamp = record { edited_at_ms = pos 1000; source = ascii "device"; event_id = ascii "e1" }

abbrev fresh : Fresh
fresh = record { photo = ascii "p1"; master = ascii "m1"; generation = ascii "g1" }

abbrev answer : Answer
answer = record {
  asset_revision = some (ascii "a1");
  master_revision = some (ascii "r1");
  generation = ascii "db";
}

-- A photo that was noted for the first time.
abbrev imported : Entry
unfolding mark
imported = mark content stamp inserted

abbrev starred : List Edit
starred = (metadata, stamp) ∷ []

imported-IsSound : IsSound imported
unfolding imported
imported-IsSound = record { kept = refl; metadata = omega arith; content = omega arith }

imported-matches : matches_phase imported create_phase ≡ true
unfolding imported matches_phase
imported-matches = refl

confirm_upload-edited_example :
    let later =
      confirm_upload (prepare create_phase fresh imported) answer (edited starred imported) in
    ((later.dirty ≡ native_clean) ↔ (starred ≡ []))
    × (later.metadata_version ≡ later.acked_metadata_version + 1)
    × (later.content_version ≡ later.acked_content_version + 0)
confirm_upload-edited_example =
    confirm_upload-edited create_phase fresh answer imported starred imported-IsSound
      imported-matches (λ h. absurd (ground arith))

confirm-deletion_example :
    Deleted starred (confirm (prepare delete_phase fresh imported) answer (edited starred imported))
unfolding imported
confirm-deletion_example = confirm-deletion fresh answer imported starred refl

-- Imported, sent, starred meanwhile, and confirmed.
abbrev uploaded : Uplink
unfolding imported edited prepare confirm_upload
uploaded = record {
  entry = confirm_upload (prepare create_phase fresh imported) answer (edited starred imported);
  issued = [];
}

uploaded-reached : Reach uploaded
unfolding uploaded imported edited prepare confirm_upload confirm matches_phase note_entry
uploaded-reached =
    then_step
      (then_step (then_step (noted_first content stamp refl) (send create_phase fresh refl))
        (edit metadata stamp))
      (confirmed [] (prepare create_phase fresh imported) [] answer refl)

uploaded-native_modified : (uploaded.entry).dirty ≡ 2
unfolding uploaded
uploaded-native_modified = refl

Reach-IsOwed_example : IsOwed uploaded
Reach-IsOwed_example = Reach-IsOwed uploaded-reached
