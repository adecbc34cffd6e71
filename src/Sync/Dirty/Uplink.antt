-- ===== src/Sync/Dirty/Uplink.antt =====
-- An entry with its operations in flight, and the steps that edits, answers and adoptions are.
use photo_viewer.Base.{◌≤◌, ◌≡◌, true, false, none, some, List, [], ◌∷◌, ◌++◌, arith}
use photo_viewer.Base.Text.{Text}
use photo_viewer.Sync.Dirty.{
  native_clean, native_delete, contains, ChangeCategory, EditEventStamp, Entry, noted, note_entry,
}
use photo_viewer.Sync.Dirty.Steps.{
  UploadPhase, matches_phase, Issued, Fresh, prepare, Answer, confirm, adopt,
}
use photo_viewer.Sync.Dirty.Owed.{IsSound}

-- The row of an entry, and its operations that wait for an answer.
pub record Uplink : Type 0 where
  pub entry : Entry
  pub issued : List Issued

pub data Step : Uplink → Uplink → Type 0 where
  edit :
      {e : Entry} {ops : List Issued} (category : ChangeCategory) (stamp : EditEventStamp)
      → Step
          (record { entry = e; issued = ops })
          (record { entry = noted category stamp e; issued = ops })
  send :
      {e : Entry} {ops : List Issued} (phase : UploadPhase) (fresh : Fresh)
      → matches_phase e phase ≡ true
      → Step
          (record { entry = e; issued = ops })
          (record { entry = e; issued = prepare phase fresh e ∷ ops })
  give_up :
      {e : Entry} (before : List Issued) (op : Issued) (after : List Issued)
      → Step
          (record { entry = e; issued = before ++ op ∷ after })
          (record { entry = e; issued = before ++ after })
  confirmed :
      {e later : Entry} (before : List Issued) (op : Issued) (after : List Issued) (answer : Answer)
      → confirm op answer e ≡ some later
      → Step
          (record { entry = e; issued = before ++ op ∷ after })
          (record { entry = later; issued = before ++ after })
  adopted :
      {e : Entry} (photo master : Text) (answer : Answer) (generation : Text)
      → (contains e.dirty native_delete ≡ false)
      → Step
          (record { entry = e; issued = [] })
          (record { entry = adopt photo master answer generation e; issued = [] })

-- From the first change that a job notes.
pub data Reach : Uplink → Type 0 where
  noted_first :
      {e : Entry} (category : ChangeCategory) (stamp : EditEventStamp)
      → note_entry category stamp none ≡ some e
      → Reach (record { entry = e; issued = [] })
  then_step : {a b : Uplink} → Reach a → Step a b → Reach b

-- An operation that waits has captured no version that the entry does not have.
pub record IsCaptured (e : Entry) (op : Issued) : Type 0 where
  pub metadata : op.versions.metadata ≤ e.metadata_version
  pub content : op.versions.content ≤ e.content_version

abbrev pub AllCaptured : Entry → List Issued → Type 0
AllCaptured e [] = Unit
AllCaptured e (op ∷ ops) = IsCaptured e op × AllCaptured e ops

-- A clean entry has everything acknowledged.
pub record IsOwed (u : Uplink) : Type 0 where
  pub sound : IsSound u.entry
  pub settled :
      u.entry.dirty ≡ native_clean
      → (u.entry.metadata_version ≡ u.entry.acked_metadata_version)
        × (u.entry.content_version ≡ u.entry.acked_content_version)
  pub captured : AllCaptured u.entry u.issued

AllCaptured-append :
    (e : Entry) (before after : List Issued)
    → AllCaptured e before
    → AllCaptured e after
    → AllCaptured e (before ++ after)
AllCaptured-append e [] after h k = k
AllCaptured-append e (op ∷ before) after (c, h) k = (c, AllCaptured-append e before after h k)

pub AllCaptured-split :
    (e : Entry) (before : List Issued) (op : Issued) (after : List Issued)
    → AllCaptured e (before ++ op ∷ after)
    → IsCaptured e op × AllCaptured e (before ++ after)
AllCaptured-split e [] op after (c, h) = (c, h)
AllCaptured-split e (first ∷ before) op after (c, h) =
    let (d, k) = AllCaptured-split e before op after h in (d, (c, k))

-- Versions only grow.
pub record Grows (e later : Entry) : Type 0 where
  pub metadata : e.metadata_version ≤ later.metadata_version
  pub content : e.content_version ≤ later.content_version

pub AllCaptured-later :
    (e later : Entry) (ops : List Issued)
    → Grows e later
    → AllCaptured e ops
    → AllCaptured later ops
AllCaptured-later e later [] g h = tt
AllCaptured-later e later (op ∷ ops) g (c, h) = (
  record {
    metadata = omega (arith, c.metadata, g.metadata);
    content = omega (arith, c.content, g.content);
  },
  AllCaptured-later e later ops g h,
)
