-- ===== src/Grid/Incremental/Captured.antt =====
-- No event is lost while a query runs.
use photo_viewer.Base.{
  ℕ, ◌<◌, ◌≡◌, refl, sym, ap, ◌∙◌, none, List, [], ◌∷◌, ltb, ◌==◌, arith, Bool-cases, inl, inr,
}
use photo_viewer.Base.BTree.{BTreeMap, get, insert}
use photo_viewer.Grid.Incremental.{
  IncrementalItemKind, is_updated, pend, begin_items, readmit, readmit_all, admissions_of,
}
use photo_viewer.Grid.Incremental.Events.{both, get-readmit, begin_all, get-begin_all}

module _ {ℓ} {Item : Type ℓ} where
  abbrev Above : ℕ → BTreeMap (Item × IncrementalItemKind) → Type 0
  Above id [] = Unit
  Above id ((k, _) ∷ rest) = (id < k) × Above id rest

  abbrev Sorted : BTreeMap (Item × IncrementalItemKind) → Type 0
  Sorted [] = Unit
  Sorted ((k, _) ∷ rest) = Above k rest × Sorted rest

  Above-trans :
      (a b : ℕ) (m : BTreeMap (Item × IncrementalItemKind)) → a < b → Above b m → Above a m
  Above-trans a b [] h above = tt
  Above-trans a b ((k, _) ∷ rest) h (first, later) = (omega arith, Above-trans a b rest h later)

  get-Above : (id : ℕ) (m : BTreeMap (Item × IncrementalItemKind)) → Above id m → get id m ≡ none
  unfolding get
  get-Above id [] above = refl
  get-Above id ((k, v) ∷ rest) (first, later) = ground (arith, get-Above id rest later)

  insert-Above :
      (a id : ℕ) (v : Item × IncrementalItemKind) (m : BTreeMap (Item × IncrementalItemKind))
      → a < id
      → Above a m
      → Above a (insert id v m)
  unfolding insert
  insert-Above a id v [] h above = (h, tt)
  insert-Above a id v ((k, w) ∷ rest) h (first, later) = elim (Bool-cases (ltb id k)) [
    | inl e ↦ rw e (h, (first, later))
    | inr e ↦ elim (Bool-cases (id == k)) [
      | inl s ↦ rw (e, s) (h, later)
      | inr s ↦ rw (e, s) (first, insert-Above a id v rest h later)
    ]
  ]

  insert-Sorted :
      (id : ℕ) (v : Item × IncrementalItemKind) (m : BTreeMap (Item × IncrementalItemKind))
      → Sorted m
      → Sorted (insert id v m)
  unfolding insert
  insert-Sorted id v [] sorted = (tt, tt)
  insert-Sorted id v ((k, w) ∷ rest) (first, later) = elim (Bool-cases (ltb id k)) [
    | inl e ↦
        let low : id < k = ground arith in
        rw e ((low, Above-trans id k rest low first), (first, later))
    | inr e ↦ elim (Bool-cases (id == k)) [
      | inl s ↦ let same : id ≡ k = ground arith in rw (e, s) (rw same first, later)
      | inr s ↦
          rw (e, s) (insert-Above k id v rest (ground arith) first, insert-Sorted id v rest later)
    ]
  ]

  admissions-Above :
      (id : ℕ) (m : BTreeMap (Item × IncrementalItemKind)) → Above id m → Above id (admissions_of m)
  unfolding admissions_of
  admissions-Above id [] above = tt
  admissions-Above id ((k, (item, kind)) ∷ rest) (first, later) =
      elim (Bool-cases (is_updated kind)) [
        | inl e ↦ rw e (admissions-Above id rest later)
        | inr e ↦ rw e (first, admissions-Above id rest later)
      ]

  admissions-Sorted :
      (m : BTreeMap (Item × IncrementalItemKind)) → Sorted m → Sorted (admissions_of m)
  unfolding admissions_of
  admissions-Sorted [] sorted = tt
  admissions-Sorted ((k, (item, kind)) ∷ rest) (first, later) =
      elim (Bool-cases (is_updated kind)) [
        | inl e ↦ rw e (admissions-Sorted rest later)
        | inr e ↦ rw e (admissions-Above k rest first, admissions-Sorted rest later)
      ]

  get-readmit_all :
      (captured : BTreeMap (Item × IncrementalItemKind)) (j : ℕ)
      (pending : BTreeMap (Item × IncrementalItemKind))
      → Sorted captured
      → get j (readmit_all captured pending) ≡ both (get j captured) (get j pending)
  unfolding readmit_all get
  get-readmit_all [] j pending sorted = refl
  get-readmit_all ((id, (item, kind)) ∷ rest) j pending (first, later) =
      get-readmit_all rest j (insert id (readmit item kind (get id pending)) pending) later
      ∙ ap (both (get j rest)) (get-readmit id j item kind pending)
      ∙ elim (Bool-cases (id == j)) [
        | inl e ↦ let same : id ≡ j = ground arith in rw (e, sym same, get-Above id rest first) refl
        | inr e ↦ rw e refl
      ]

  module _ (id_of : Item → ℕ) where
    begin_items-Sorted :
        (kind : IncrementalItemKind) (items : List Item)
        (pending : BTreeMap (Item × IncrementalItemKind))
        → Sorted pending
        → Sorted (begin_items id_of kind items pending)
    unfolding begin_items
    begin_items-Sorted kind [] pending sorted = sorted
    begin_items-Sorted kind (item ∷ items) pending sorted =
        begin_items-Sorted kind items _
          (insert-Sorted (id_of item) (pend item kind (get (id_of item) pending)) pending sorted)

    begin_all-Sorted :
        (calls : List (IncrementalItemKind × List Item))
        (pending : BTreeMap (Item × IncrementalItemKind))
        → Sorted pending
        → Sorted (begin_all id_of calls pending)
    unfolding begin_all
    begin_all-Sorted [] pending sorted = sorted
    begin_all-Sorted ((kind, items) ∷ calls) pending sorted =
        begin_all-Sorted calls _ (begin_items-Sorted kind items pending sorted)

    -- The events that arrive while a query runs, and the captured admissions that are put back behind them,
    -- leave for each identity what the admissions and then these events come to without a query between
    -- them.
    pub readmit_all-begin_all :
        (before during : List (IncrementalItemKind × List Item)) (j : ℕ)
        → get j
            (readmit_all (admissions_of (begin_all id_of before [])) (begin_all id_of during []))
          ≡ get j (begin_all id_of during (admissions_of (begin_all id_of before [])))
    readmit_all-begin_all before during j =
        let captured = admissions_of (begin_all id_of before []) in
        get-readmit_all captured j (begin_all id_of during [])
          (admissions-Sorted _ (begin_all-Sorted before [] tt))
        ∙ sym (get-begin_all id_of during j captured)
