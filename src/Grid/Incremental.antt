-- ===== src/Grid/Incremental.antt =====
-- src/ui/virtual_media_grid/incremental_updates.rs: the events that wait for a query, and what the query
-- tells of them. The `HashMap` of the waiting items is a map with number keys.
pub mod Events
pub mod Captured
pub mod Kinds
use photo_viewer.Base.{
  ℕ, ◌+◌, ◌-◌, ◌%◌, ◌^◌, suc, Bool, true, false, ◌||◌, not, Option, none, some, List, [], ◌∷◌, map,
  ltb, ◌==◌, if◌then◌else◌,
}
use photo_viewer.Base.BTree.{BTreeMap, get, insert}
use photo_viewer.Base.U32.{saturating_add}

pub data IncrementalItemKind : Type 0 where
  inserted : IncrementalItemKind
  updated : IncrementalItemKind
  upsert : IncrementalItemKind

abbrev pub rank : IncrementalItemKind → ℕ
rank updated = 0
rank upsert = 1
rank inserted = 2

unfoldable pub merge : IncrementalItemKind → IncrementalItemKind → IncrementalItemKind
merge self newer = if ltb (rank self) (rank newer) then newer else self

abbrev pub is_inserted : IncrementalItemKind → Bool
is_inserted inserted = true
is_inserted updated = false
is_inserted upsert = false

abbrev pub is_upsert : IncrementalItemKind → Bool
is_upsert inserted = false
is_upsert updated = false
is_upsert upsert = true

abbrev pub is_updated : IncrementalItemKind → Bool
is_updated inserted = false
is_updated updated = true
is_updated upsert = false

-- `*kind != IncrementalItemKind::Updated`
abbrev pub is_new : IncrementalItemKind → Bool
is_new kind = not (is_updated kind)

abbrev pub count_kinds : (IncrementalItemKind → Bool) → List IncrementalItemKind → ℕ
count_kinds is_kind [] = 0
count_kinds is_kind (kind ∷ kinds) =
    if is_kind kind then suc (count_kinds is_kind kinds) else count_kinds is_kind kinds

unfoldable pub resolve_inserted_kinds : ℕ → ℕ → List IncrementalItemKind → Option (List Bool)
resolve_inserted_kinds old_total total kinds =
    let delta = total - old_total in
    let insertions = count_kinds is_inserted kinds % 2 ^ 32 in
    let unknown = count_kinds is_upsert kinds % 2 ^ 32 in
    if ltb total old_total
    then none
    else if ltb delta insertions || ltb (saturating_add insertions unknown) delta
    then none
    else if not (delta - insertions == unknown)
    then none
    else some (map is_new kinds)

module _ {ℓ} {Item : Type ℓ} where
  -- `and_modify` and `or_insert` of an event.
  abbrev pub pend :
      Item → IncrementalItemKind → Option (Item × IncrementalItemKind) → Item × IncrementalItemKind
  pend item kind none = (item, kind)
  pend item kind (some (_, pending_kind)) = (item, merge pending_kind kind)

  -- The loop of `begin_incremental_item_update`, of one event for each identity.
  unfoldable pub begin_items :
      (Item → ℕ)
      → IncrementalItemKind
      → List Item
      → BTreeMap (Item × IncrementalItemKind)
      → BTreeMap (Item × IncrementalItemKind)
  begin_items id_of kind [] pending = pending
  begin_items id_of kind (item ∷ items) pending =
      begin_items id_of kind items
        (insert (id_of item) (pend item kind (get (id_of item) pending)) pending)

  -- The same for a captured item, whose kind is known and whose snapshot is older.
  abbrev pub readmit :
      Item → IncrementalItemKind → Option (Item × IncrementalItemKind) → Item × IncrementalItemKind
  readmit item kind none = (item, kind)
  readmit item kind (some (newer, value)) = (newer, merge value kind)

  unfoldable pub readmit_all :
      BTreeMap (Item × IncrementalItemKind)
      → BTreeMap (Item × IncrementalItemKind)
      → BTreeMap (Item × IncrementalItemKind)
  readmit_all [] pending = pending
  readmit_all ((id, (item, kind)) ∷ captured) pending =
      readmit_all captured (insert id (readmit item kind (get id pending)) pending)

  -- What is sent to the query; the updates are applied at once.
  unfoldable pub admissions_of :
      BTreeMap (Item × IncrementalItemKind) → BTreeMap (Item × IncrementalItemKind)
  admissions_of [] = []
  admissions_of ((id, (item, kind)) ∷ pending) =
      let later = admissions_of pending in
      if is_updated kind then later else (id, (item, kind)) ∷ later
