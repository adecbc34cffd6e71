-- ===== src/Grid/Incremental/Events.antt =====
-- What the events of one identity come to, in whatever calls they arrive.
use photo_viewer.Base.{
  ℕ, ◌≡◌, refl, sym, ap, ◌∙◌, Option, none, some, List, [], ◌∷◌, ◌==◌, if◌then◌else◌, arith,
  Bool-cases, inl, inr,
}
use photo_viewer.Base.BTree.{BTreeMap, get, insert, get-insert}
use photo_viewer.Grid.Incremental.{IncrementalItemKind, merge, pend, begin_items, readmit}

merge_assoc : (a b c : IncrementalItemKind) → merge (merge a b) c ≡ merge a (merge b c)
unfolding merge
merge_assoc a b c = ground arith

merge_comm : (a b : IncrementalItemKind) → merge a b ≡ merge b a
unfolding merge
merge_comm a b = ground arith

module _ {ℓ} {Item : Type ℓ} where
  -- What two events of one identity come to, the older one first.
  abbrev pub both :
      Option (Item × IncrementalItemKind)
      → Option (Item × IncrementalItemKind)
      → Option (Item × IncrementalItemKind)
  both none later = later
  both (some earlier) none = some earlier
  both (some (_, kind)) (some (newer, newer_kind)) = some (newer, merge kind newer_kind)

  both_assoc : (a b c : Option (Item × IncrementalItemKind)) → both (both a b) c ≡ both a (both b c)
  both_assoc none b c = refl
  both_assoc (some a) none c = refl
  both_assoc (some (i, k)) (some (j, l)) none = refl
  both_assoc (some (i, k)) (some (j, l)) (some (n, m)) =
      ap (λ kind. some (n, kind)) (merge_assoc k l m)

  both-none : (a : Option (Item × IncrementalItemKind)) → both a none ≡ a
  both-none none = refl
  both-none (some a) = refl

  pend-both :
      (item : Item) (kind : IncrementalItemKind) (o : Option (Item × IncrementalItemKind))
      → some (pend item kind o) ≡ both o (some (item, kind))
  pend-both item kind none = refl
  pend-both item kind (some (_, k)) = refl

  readmit-both :
      (item : Item) (kind : IncrementalItemKind) (o : Option (Item × IncrementalItemKind))
      → some (readmit item kind o) ≡ both (some (item, kind)) o
  readmit-both item kind none = refl
  readmit-both item kind (some (newer, k)) = ap (λ m. some (newer, m)) (merge_comm k kind)

  -- What an event tells of an identity.
  abbrev pub told : ℕ → ℕ → Item → IncrementalItemKind → Option (Item × IncrementalItemKind)
  told id j item kind = if id == j then some (item, kind) else none

  get-pend :
      (id j : ℕ) (item : Item) (kind : IncrementalItemKind)
      (pending : BTreeMap (Item × IncrementalItemKind))
      → get j (insert id (pend item kind (get id pending)) pending)
        ≡ both (get j pending) (told id j item kind)
  get-pend id j item kind pending = elim (Bool-cases (id == j)) [
    | inl e ↦
        let same : id ≡ j = ground arith in
        get-insert j id (pend item kind (get id pending)) pending
        ∙ rw (e, same) (pend-both item kind (get j pending))
    | inr e ↦
        get-insert j id (pend item kind (get id pending)) pending
        ∙ rw e (sym (both-none (get j pending)))
  ]

  pub get-readmit :
      (id j : ℕ) (item : Item) (kind : IncrementalItemKind)
      (pending : BTreeMap (Item × IncrementalItemKind))
      → get j (insert id (readmit item kind (get id pending)) pending)
        ≡ both (told id j item kind) (get j pending)
  get-readmit id j item kind pending = elim (Bool-cases (id == j)) [
    | inl e ↦
        let same : id ≡ j = ground arith in
        get-insert j id (readmit item kind (get id pending)) pending
        ∙ rw (e, same) (readmit-both item kind (get j pending))
    | inr e ↦ get-insert j id (readmit item kind (get id pending)) pending ∙ rw e refl
  ]

  module _ (id_of : Item → ℕ) where
    -- The calls of `begin_incremental_item_update`, each with its kind and its items.
    unfoldable pub begin_all :
        List (IncrementalItemKind × List Item)
        → BTreeMap (Item × IncrementalItemKind)
        → BTreeMap (Item × IncrementalItemKind)
    begin_all [] pending = pending
    begin_all ((kind, items) ∷ calls) pending =
        begin_all calls (begin_items id_of kind items pending)

    get-begin_items :
        (kind : IncrementalItemKind) (items : List Item) (j : ℕ)
        (pending : BTreeMap (Item × IncrementalItemKind))
        → get j (begin_items id_of kind items pending)
          ≡ both (get j pending) (get j (begin_items id_of kind items []))
    unfolding begin_items get
    get-begin_items kind [] j pending = sym (both-none (get j pending))
    get-begin_items kind (item ∷ items) j pending =
        let id = id_of item in
        let later = get j (begin_items id_of kind items []) in
        let one = insert id (pend item kind (get id pending)) pending in
        let alone : BTreeMap (Item × IncrementalItemKind) =
          insert id (pend item kind (get id [])) [] in
        get-begin_items kind items j one
        ∙ ap (λ o. both o later) (get-pend id j item kind pending)
        ∙ both_assoc (get j pending) (told id j item kind) later
        ∙ ap (both (get j pending)) (
            sym (
              get-begin_items kind items j alone
              ∙ ap (λ o. both o later) (get-pend id j item kind [])))

    pub get-begin_all :
        (calls : List (IncrementalItemKind × List Item)) (j : ℕ)
        (pending : BTreeMap (Item × IncrementalItemKind))
        → get j (begin_all calls pending) ≡ both (get j pending) (get j (begin_all calls []))
    unfolding begin_all get
    get-begin_all [] j pending = sym (both-none (get j pending))
    get-begin_all ((kind, items) ∷ calls) j pending =
        let later = get j (begin_all calls []) in
        get-begin_all calls j (begin_items id_of kind items pending)
        ∙ ap (λ o. both o later) (get-begin_items kind items j pending)
        ∙ both_assoc (get j pending) (get j (begin_items id_of kind items [])) later
        ∙ ap (both (get j pending)) (sym (get-begin_all calls j (begin_items id_of kind items [])))
