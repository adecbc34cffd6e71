-- ===== src/Sync/Dirty/Owed.antt =====
-- What an entry owes after a confirmation: the edits since the operation was prepared.
use photo_viewer.Base.{
  ℕ, suc, ◌+◌, ◌≤◌, ◌≡◌, refl, sym, ap, ◌∙◌, ◌≢◌, ◌↔◌, true, false, List, [], ◌∷◌, ◌==◌, arith,
  subst,
}
use photo_viewer.Sync.Dirty.{
  native_clean, native_delete, contains, ChangeCategory, metadata, content, deletion,
  EditEventStamp, Entry, has_metadata_change, has_content_change, mark, noted,
}
use photo_viewer.Sync.Dirty.Steps.{
  UploadPhase, delete_phase, modify_phase, create_phase, matches_phase, Fresh, prepare, Answer,
  acknowledge, settled_dirty, confirm_upload, sends_content,
}

abbrev pub Edit : Type 0
Edit = ChangeCategory × EditEventStamp

-- Edits in their order.
unfoldable pub edited : List Edit → Entry → Entry
unfolding mark
edited [] e = e
edited ((category, stamp) ∷ es) e = edited es (noted category stamp e)

abbrev pub metadata_edits : List Edit → ℕ
metadata_edits [] = 0
metadata_edits ((metadata, _) ∷ es) = suc (metadata_edits es)
metadata_edits ((content, _) ∷ es) = metadata_edits es
metadata_edits ((deletion, _) ∷ es) = metadata_edits es

abbrev pub content_edits : List Edit → ℕ
content_edits [] = 0
content_edits ((metadata, _) ∷ es) = content_edits es
content_edits ((content, _) ∷ es) = suc (content_edits es)
content_edits ((deletion, _) ∷ es) = content_edits es

abbrev pub edit_count : List Edit → ℕ
edit_count [] = 0
edit_count (_ ∷ es) = suc (edit_count es)

-- What edits change of the versions of an entry that is not retired.
pub record IsEdited (es : List Edit) (e later : Entry) : Type 0 where
  pub local : later.local_version ≡ e.local_version + edit_count es
  pub metadata : later.metadata_version ≡ e.metadata_version + metadata_edits es
  pub content : later.content_version ≡ e.content_version + content_edits es
  pub acked_metadata : later.acked_metadata_version ≡ e.acked_metadata_version
  pub acked_content : later.acked_content_version ≡ e.acked_content_version

pub noted-marked :
    (category : ChangeCategory) (stamp : EditEventStamp) (e : Entry)
    → e.retired ≡ false
    → noted category stamp e ≡ mark category stamp e
unfolding mark
noted-marked metadata stamp e kept = rw kept refl
noted-marked content stamp e kept = rw kept refl
noted-marked deletion stamp e kept = refl

mark-IsEdited :
    (category : ChangeCategory) (stamp : EditEventStamp) (e : Entry)
    → IsEdited ((category, stamp) ∷ []) e (mark category stamp e)
unfolding mark
mark-IsEdited metadata stamp e = record {
  local = omega arith;
  metadata = omega arith;
  content = omega arith;
  acked_metadata = refl;
  acked_content = refl;
}
mark-IsEdited content stamp e = record {
  local = omega arith;
  metadata = omega arith;
  content = omega arith;
  acked_metadata = refl;
  acked_content = refl;
}
mark-IsEdited deletion stamp e = record {
  local = omega arith;
  metadata = omega arith;
  content = omega arith;
  acked_metadata = refl;
  acked_content = refl;
}

pub mark-kept :
    (category : ChangeCategory) (stamp : EditEventStamp) (e : Entry)
    → (mark category stamp e).retired ≡ e.retired
unfolding mark
mark-kept metadata stamp e = refl
mark-kept content stamp e = refl
mark-kept deletion stamp e = refl

metadata_edits_cons :
    (edit : Edit) (es : List Edit)
    → metadata_edits (edit ∷ es) ≡ metadata_edits (edit ∷ []) + metadata_edits es
metadata_edits_cons (metadata, _) es = omega arith
metadata_edits_cons (content, _) es = omega arith
metadata_edits_cons (deletion, _) es = omega arith

content_edits_cons :
    (edit : Edit) (es : List Edit)
    → content_edits (edit ∷ es) ≡ content_edits (edit ∷ []) + content_edits es
content_edits_cons (metadata, _) es = omega arith
content_edits_cons (content, _) es = omega arith
content_edits_cons (deletion, _) es = omega arith

IsEdited-trans :
    (edit : Edit) (es : List Edit) (a b c : Entry)
    → IsEdited (edit ∷ []) a b
    → IsEdited es b c
    → IsEdited (edit ∷ es) a c
IsEdited-trans edit es a b c first rest = record {
  local = omega (arith, first.local, rest.local);
  metadata = omega (arith, first.metadata, rest.metadata, metadata_edits_cons edit es);
  content = omega (arith, first.content, rest.content, content_edits_cons edit es);
  acked_metadata = rest.acked_metadata ∙ first.acked_metadata;
  acked_content = rest.acked_content ∙ first.acked_content;
}

pub edited-IsEdited : (es : List Edit) (e : Entry) → e.retired ≡ false → IsEdited es e (edited es e)
unfolding mark edited
edited-IsEdited [] e kept = record {
  local = omega arith;
  metadata = omega arith;
  content = omega arith;
  acked_metadata = refl;
  acked_content = refl;
}
edited-IsEdited ((category, stamp) ∷ es) e kept =
    let same = noted-marked category stamp e kept in
    let here : IsEdited ((category, stamp) ∷ []) e (noted category stamp e) =
      subst (IsEdited ((category, stamp) ∷ []) e) (sym same) (mark-IsEdited category stamp e) in
    IsEdited-trans (category, stamp) es e (noted category stamp e)
      (edited es (noted category stamp e)) here
      (edited-IsEdited es (noted category stamp e)
        (ap (λ entry. entry.retired) same ∙ mark-kept category stamp e ∙ kept))

-- Nothing of an entry is acknowledged that it does not have.
pub record IsSound (e : Entry) : Type 0 where
  pub kept : e.retired ≡ false
  pub metadata : e.acked_metadata_version ≤ e.metadata_version
  pub content : e.acked_content_version ≤ e.content_version

pub none_edited : (es : List Edit) → edit_count es ≡ 0 → es ≡ []
none_edited [] h = refl
none_edited (edit ∷ es) h = absurd (omega arith)

settled_dirty-local :
    (captured : ℕ) (e : Entry)
    → settled_dirty captured e ≡ native_clean
    → e.local_version ≡ captured
unfolding settled_dirty
settled_dirty-local captured e h = ground arith

settled_dirty-native_clean :
    (captured : ℕ) (e : Entry)
    → (e.dirty == native_delete) ≡ false
    → e.local_version ≡ captured
    → e.metadata_version ≤ e.acked_metadata_version
    → e.content_version ≤ e.acked_content_version
    → settled_dirty captured e ≡ native_clean
unfolding settled_dirty has_metadata_change has_content_change
settled_dirty-native_clean captured e h same m c = ground arith

-- What the acknowledged versions are after the answer to a sent upload.
acknowledge-versions :
    (phase : UploadPhase) (fresh : Fresh) (answer : Answer) (e later : Entry) (es : List Edit)
    → IsSound e
    → (phase ≢ delete_phase)
    → IsEdited es e later
    → let told = acknowledge (prepare phase fresh e) answer later in
      (told.acked_metadata_version ≡ e.metadata_version)
      × (told.acked_content_version ≡ e.content_version)
unfolding prepare has_metadata_change sends_content has_content_change
acknowledge-versions delete_phase fresh answer e later es sound sent edits = absurd (sent refl)
acknowledge-versions create_phase fresh answer e later es sound sent edits = (
  omega (arith, sound.metadata, edits.acked_metadata),
  omega (arith, sound.content, edits.acked_content),
)
acknowledge-versions modify_phase fresh answer e later es sound sent edits = (
  ground (arith, sound.metadata, edits.acked_metadata),
  ground (arith, sound.content, edits.acked_content),
)

matches_phase-deletion :
    (phase : UploadPhase) (e : Entry)
    → matches_phase e phase ≡ true
    → (phase ≢ delete_phase)
    → (e.dirty == native_delete) ≡ false
unfolding matches_phase contains
matches_phase-deletion delete_phase e h sent = absurd (sent refl)
matches_phase-deletion create_phase e h sent = ground arith
matches_phase-deletion modify_phase e h sent = ground arith

native_clean-none :
    (phase : UploadPhase) (fresh : Fresh) (answer : Answer) (e : Entry) (es : List Edit)
    → IsSound e
    → matches_phase e phase ≡ true
    → (phase ≢ delete_phase)
    → es ≡ []
    → settled_dirty e.local_version (acknowledge (prepare phase fresh e) answer (edited es e))
      ≡ native_clean
unfolding edited
native_clean-none phase fresh answer e [] sound fits sent h =
    let (m, c) =
      acknowledge-versions phase fresh answer e e [] sound sent (edited-IsEdited [] e sound.kept) in
    settled_dirty-native_clean e.local_version (acknowledge (prepare phase fresh e) answer e)
      (matches_phase-deletion phase e fits sent) refl (omega (arith, m)) (omega (arith, c))
native_clean-none phase fresh answer e (edit ∷ es) sound fits sent h = absurd (ground arith)

-- An upload that is confirmed after edits leaves these edits owed and no others, for an entry that is
-- not retired and has no more acknowledged than it has: the entry is clean exactly where nothing was
-- edited since the operation was prepared, and of metadata and content what is not acknowledged is
-- the edits of that category since then.
pub confirm_upload-edited :
    (phase : UploadPhase) (fresh : Fresh) (answer : Answer) (e : Entry) (es : List Edit)
    → IsSound e
    → matches_phase e phase ≡ true
    → (phase ≢ delete_phase)
    → let later = confirm_upload (prepare phase fresh e) answer (edited es e) in
      ((later.dirty ≡ native_clean) ↔ (es ≡ []))
      × (later.metadata_version ≡ later.acked_metadata_version + metadata_edits es)
      × (later.content_version ≡ later.acked_content_version + content_edits es)
unfolding confirm_upload prepare
confirm_upload-edited phase fresh answer e es sound fits sent =
    let edits = edited-IsEdited es e sound.kept in
    let (m, c) = acknowledge-versions phase fresh answer e (edited es e) es sound sent edits in
    (
      (
        λ h. none_edited es (
            omega (
              arith,
              edits.local,
              settled_dirty-local e.local_version
                  (acknowledge (prepare phase fresh e) answer (edited es e)) h,
            )),
        native_clean-none phase fresh answer e es sound fits sent,
      ),
      omega (arith, m, edits.metadata),
      omega (arith, c, edits.content),
    )
