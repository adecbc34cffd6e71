-- ===== src/Sync/Dirty/Reach.antt =====
-- An entry under edits, uploads, deletions and adoptions, in any order and with any in flight.
use photo_viewer.Base.{
  ℕ, ◌≤◌, ◌≡◌, refl, sym, ◌≢◌, ◌||◌, none, some, List, [], ◌++◌, ◌==◌, arith, subst, Bool-cases,
  inl, inr,
}
use photo_viewer.Base.Text.{Text}
use photo_viewer.Sync.Dirty.{
  native_clean, ChangeCategory, metadata, content, deletion, bit, EditEventStamp, Entry,
  has_metadata_change, has_content_change, mark, noted, note_entry, inserted,
}
use photo_viewer.Sync.Dirty.Steps.{
  UploadPhase, is_create, is_modify, Issued, Fresh, prepare, Answer, acknowledge, settled_dirty,
  confirm_upload, confirm_deletion, unless_gone, confirm, adopt,
}
use photo_viewer.Sync.Dirty.Owed.{noted-marked, IsSound, edited}
use photo_viewer.Sync.Dirty.Uplink.{
  Uplink, Step, edit, send, give_up, confirmed, adopted, Reach, noted_first, then_step, IsCaptured,
  AllCaptured, IsOwed, AllCaptured-split, Grows, AllCaptured-later,
}

mark-Grows :
    (category : ChangeCategory) (stamp : EditEventStamp) (e : Entry)
    → Grows e (mark category stamp e)
unfolding mark
mark-Grows metadata stamp e = record { metadata = omega arith; content = omega arith }
mark-Grows content stamp e = record { metadata = omega arith; content = omega arith }
mark-Grows deletion stamp e = record { metadata = omega arith; content = omega arith }

mark-dirty :
    (category : ChangeCategory) (stamp : EditEventStamp) (e : Entry)
    → (mark category stamp e).dirty ≢ native_clean
unfolding mark bit
mark-dirty metadata stamp e = ground arith
mark-dirty content stamp e = ground arith
mark-dirty deletion stamp e = ground arith

mark-IsSound :
    (category : ChangeCategory) (stamp : EditEventStamp) (e : Entry)
    → IsSound e
    → IsSound (mark category stamp e)
unfolding mark
mark-IsSound metadata stamp e h = record {
  kept = h.kept;
  metadata = omega (arith, h.metadata);
  content = h.content;
}
mark-IsSound content stamp e h = record {
  kept = h.kept;
  metadata = h.metadata;
  content = omega (arith, h.content);
}
mark-IsSound deletion stamp e h = record {
  kept = h.kept;
  metadata = h.metadata;
  content = h.content;
}

mark-IsOwed :
    (category : ChangeCategory) (stamp : EditEventStamp) (e : Entry) (ops : List Issued)
    → IsSound e
    → AllCaptured e ops
    → IsOwed (record { entry = mark category stamp e; issued = ops })
mark-IsOwed category stamp e ops sound captured = record {
  sound = mark-IsSound category stamp e sound;
  settled = λ h. absurd (mark-dirty category stamp e h);
  captured = AllCaptured-later e (mark category stamp e) ops (mark-Grows category stamp e) captured;
}

inserted-IsSound : IsSound inserted
inserted-IsSound = record { kept = refl; metadata = omega arith; content = omega arith }

note-IsOwed :
    (category : ChangeCategory) (stamp : EditEventStamp) (e : Entry)
    → note_entry category stamp none ≡ some e
    → IsOwed (record { entry = e; issued = [] })
unfolding note_entry
note-IsOwed metadata stamp e h =
    subst (λ x. IsOwed (record { entry = x; issued = [] })) (ground arith)
      (mark-IsOwed metadata stamp inserted [] inserted-IsSound tt)
note-IsOwed content stamp e h =
    subst (λ x. IsOwed (record { entry = x; issued = [] })) (ground arith)
      (mark-IsOwed content stamp inserted [] inserted-IsSound tt)
note-IsOwed deletion stamp e h = absurd (ground arith)

edit-IsOwed :
    (category : ChangeCategory) (stamp : EditEventStamp) (e : Entry) (ops : List Issued)
    → IsOwed (record { entry = e; issued = ops })
    → IsOwed (record { entry = noted category stamp e; issued = ops })
edit-IsOwed category stamp e ops h =
    subst (λ x. IsOwed (record { entry = x; issued = ops }))
      (sym (noted-marked category stamp e h.sound.kept))
      (mark-IsOwed category stamp e ops h.sound h.captured)

prepare-IsCaptured :
    (phase : UploadPhase) (fresh : Fresh) (e : Entry) → IsCaptured e (prepare phase fresh e)
unfolding prepare
prepare-IsCaptured phase fresh e = record { metadata = omega arith; content = omega arith }

settled-acknowledged :
    (captured : ℕ) (e : Entry)
    → settled_dirty captured e ≡ native_clean
    → (e.metadata_version ≤ e.acked_metadata_version)
      × (e.content_version ≤ e.acked_content_version)
unfolding settled_dirty has_metadata_change has_content_change
settled-acknowledged captured e h = (ground arith, ground arith)

acknowledge-IsSound :
    (op : Issued) (answer : Answer) (e : Entry)
    → IsCaptured e op
    → IsSound e
    → IsSound (acknowledge op answer e)
acknowledge-IsSound op answer e c h = record {
  kept = refl;
  metadata = ground (arith, c.metadata, h.metadata);
  content = ground (arith, c.content, h.content);
}

confirm_upload-IsOwed :
    (op : Issued) (answer : Answer) (e : Entry) (ops : List Issued)
    → IsCaptured e op
    → IsSound e
    → AllCaptured e ops
    → IsOwed (record { entry = confirm_upload op answer e; issued = ops })
unfolding confirm_upload
confirm_upload-IsOwed op answer e ops c h rest =
    let told = acknowledge op answer e in
    let sound = acknowledge-IsSound op answer e c h in
    record {
      sound = record { kept = refl; metadata = sound.metadata; content = sound.content };
      settled = λ k.
          let (m, n) = settled-acknowledged op.versions.local told k in
          (omega (arith, m, sound.metadata), omega (arith, n, sound.content));
      captured =
          AllCaptured-later e (record told { dirty = settled_dirty op.versions.local told }) ops
            (record { metadata = omega arith; content = omega arith }) rest;
    }

confirm_deletion-IsOwed :
    (op : Issued) (e later : Entry) (ops : List Issued)
    → IsSound e
    → AllCaptured e ops
    → unless_gone op (confirm_deletion op e) ≡ some later
    → IsOwed (record { entry = later; issued = ops })
confirm_deletion-IsOwed op e later ops h rest k =
    elim (Bool-cases (e.local_version == op.versions.local)) [
      | inl same ↦ absurd (ground arith)
      | inr edited ↦ record {
        sound = record {
          kept = ground arith;
          metadata = ground (arith, h.metadata);
          content = ground (arith, h.content);
        };
        settled = λ d. absurd (ground arith);
        captured =
            AllCaptured-later e later ops
              (record { metadata = ground arith; content = ground arith }) rest;
      }
    ]

confirm-IsOwed :
    (op : Issued) (answer : Answer) (e later : Entry) (ops : List Issued)
    → IsCaptured e op
    → IsSound e
    → AllCaptured e ops
    → confirm op answer e ≡ some later
    → IsOwed (record { entry = later; issued = ops })
unfolding confirm
confirm-IsOwed op answer e later ops c h rest k =
    elim (Bool-cases (is_create op.phase || is_modify op.phase)) [
      | inl upload ↦
          subst (λ x. IsOwed (record { entry = x; issued = ops })) (ground arith)
            (confirm_upload-IsOwed op answer e ops c h rest)
      | inr deleted ↦ confirm_deletion-IsOwed op e later ops h rest (ground arith)
    ]

adopt-IsOwed :
    (photo master : Text) (answer : Answer) (generation : Text) (e : Entry)
    → IsSound e
    → IsOwed (record { entry = adopt photo master answer generation e; issued = [] })
unfolding adopt has_metadata_change
adopt-IsOwed photo master answer generation e h = record {
  sound = record {
    kept = refl;
    metadata = ground (arith, h.metadata);
    content = ground (arith, h.content);
  };
  settled = λ k. (ground (arith, h.metadata), ground (arith, h.content));
  captured = tt;
}

Step-IsOwed : {a b : Uplink} → Step a b → IsOwed a → IsOwed b
Step-IsOwed (edit {e} {ops} category stamp) h = edit-IsOwed category stamp e ops h
Step-IsOwed (send {e} {ops} phase fresh fits) h = record {
  sound = h.sound;
  settled = h.settled;
  captured = (prepare-IsCaptured phase fresh e, h.captured);
}
Step-IsOwed (give_up {e} before op after) h = record {
  sound = h.sound;
  settled = h.settled;
  captured = (AllCaptured-split e before op after h.captured).1;
}
Step-IsOwed (confirmed {e} {later} before op after answer k) h =
    let (c, rest) = AllCaptured-split e before op after h.captured in
    confirm-IsOwed op answer e later (before ++ after) c h.sound rest k
Step-IsOwed (adopted {e} photo master answer generation live) h =
    adopt-IsOwed photo master answer generation e h.sound

-- Whatever the order of local edits, prepared operations, answers, operations that are given up and
-- adoptions, an entry that a job noted never has more acknowledged than was edited, no operation in
-- flight has captured a version to come, and where the entry is clean every edit of its metadata and
-- of its content is acknowledged.
pub Reach-IsOwed : {u : Uplink} → Reach u → IsOwed u
Reach-IsOwed (noted_first {e} category stamp h) = note-IsOwed category stamp e h
Reach-IsOwed (then_step r s) = Step-IsOwed s (Reach-IsOwed r)
