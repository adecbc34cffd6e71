-- ===== src/Base/Sort.antt =====
-- `sort_unstable_by_key(|x| Reverse(key x))`: the items with the greatest keys first. The library's
-- sort is stood for by insertion; on distinct keys every sort gives this list.
use mathlib.Core.Logic.{∥∥₁_elim}
use mathlib.Core.HLevel.{¬_prop}
use mathlib.Core.List.{Pairwise, Pairwise-cons, mem-cons_self, Perm}
use mathlib.Core.List.Permᴰ
use mathlib.Core.List.{Permᴰ}
use photo_viewer.Base.{◌≡◌, refl, sym, ◌∙◌, ◌≢◌, inl, inr, true, false, List, [], ◌∷◌, arith}
use photo_viewer.Base.Order.{StrictOrder}

module _ {ℓ κ} {A : Type ℓ} {K : Type κ} (order : StrictOrder K) (key : A → K) where
  unfoldable pub insert_desc : A → List A → List A
  insert_desc x [] = x ∷ []
  insert_desc x (y ∷ ys) =
      let rest = insert_desc x ys in
      elim (order.lt (key y) (key x)) [ true ↦ x ∷ y ∷ ys | false ↦ y ∷ rest ]

  unfoldable pub sort_desc : List A → List A
  unfolding insert_desc
  sort_desc [] = []
  sort_desc (x ∷ xs) = insert_desc x (sort_desc xs)

  -- Where `x` comes before `y`, the two insertions may be swapped.
  insert_desc_swap :
      (x y : A) (zs : List A)
      → order.lt (key y) (key x) ≡ true
      → insert_desc x (insert_desc y zs) ≡ insert_desc y (insert_desc x zs)
  unfolding insert_desc
  insert_desc_swap x y [] h = ground (arith, order.asymm (key y) (key x))
  insert_desc_swap x y (z ∷ zs) h = ground (
    arith,
    order.asymm (key y) (key x),
    order.trans (key z) (key y) (key x),
    insert_desc_swap x y zs h,
  )

  insert_desc_comm :
      (x y : A) (zs : List A)
      → key x ≢ key y
      → insert_desc x (insert_desc y zs) ≡ insert_desc y (insert_desc x zs)
  insert_desc_comm x y zs h = elim (order.total (key x) (key y)) [
    | inl lower ↦ sym (insert_desc_swap y x zs lower)
    | inr (inl above) ↦ insert_desc_swap x y zs above
    | inr (inr same) ↦ absurd (h same)
  ]

  abbrev pub DistinctKeys : List A → Type (ℓ ⊔ κ)
  DistinctKeys = Pairwise (λ x y. key x ≢ key y)

  DistinctKeys-head : {x y : A} {zs : List A} → DistinctKeys (x ∷ y ∷ zs) → key x ≢ key y
  DistinctKeys-head {x} {y} {zs} d = (Pairwise-cons.0 d).0 y mem-cons_self

  sort_desc-Permᴰ : {xs ys : List A} → Permᴰ xs ys → DistinctKeys xs → sort_desc xs ≡ sort_desc ys
  unfolding sort_desc
  sort_desc-Permᴰ Permᴰ.nil d = refl
  sort_desc-Permᴰ (Permᴰ.cons {a = a} {b = b} e p) d =
      cc (e, sort_desc-Permᴰ p (Pairwise-cons.0 d).1)
  sort_desc-Permᴰ (Permᴰ.swap {a = a} {b = b} {l = l} e f) d =
      cc (e, f, insert_desc_comm a b (sort_desc l) (DistinctKeys-head d))
  sort_desc-Permᴰ (Permᴰ.trans p q) d =
      sort_desc-Permᴰ p d
      ∙ sort_desc-Permᴰ q (Permᴰ.pairwise (λ a b. ¬_prop) (λ a b n e. n (sym e)) p d)

  -- The sorted list does not depend on the order in which the items come.
  pub sort_desc-perm :
      IsSet A → {xs ys : List A} → Perm xs ys → DistinctKeys xs → sort_desc xs ≡ sort_desc ys
  sort_desc-perm set {xs} {ys} p d =
      let lists_set : IsSet (List A) = hlevel set in
      ∥∥₁_elim p (lists_set (sort_desc xs) (sort_desc ys)) (λ q. sort_desc-Permᴰ q d)

  insert_desc-permᴰ : (x : A) (ys : List A) → Permᴰ (insert_desc x ys) (x ∷ ys)
  unfolding insert_desc
  insert_desc-permᴰ x [] = Permᴰ.refl (x ∷ [])
  insert_desc-permᴰ x (y ∷ ys) =
      elim (order.lt (key y) (key x))
        as (λ b. Permᴰ (elim b [ true ↦ x ∷ y ∷ ys | false ↦ y ∷ insert_desc x ys ]) (x ∷ y ∷ ys)) [
          | true ↦ Permᴰ.refl (x ∷ y ∷ ys)
          | false ↦ Permᴰ.trans (Permᴰ.cons refl (insert_desc-permᴰ x ys)) (Permᴰ.swap refl refl)
        ]

  -- The sort keeps the items.
  pub sort_desc-permᴰ : (xs : List A) → Permᴰ (sort_desc xs) xs
  unfolding sort_desc
  sort_desc-permᴰ [] = Permᴰ.nil
  sort_desc-permᴰ (x ∷ xs) =
      Permᴰ.trans (insert_desc-permᴰ x (sort_desc xs)) (Permᴰ.cons refl (sort_desc-permᴰ xs))

  -- No item is before one with a greater key.
  abbrev pub IsDescending : List A → Type 0
  IsDescending [] = Unit
  IsDescending (x ∷ []) = Unit
  IsDescending (x ∷ y ∷ zs) = (order.lt (key x) (key y) ≡ false) × IsDescending (y ∷ zs)

  insert_desc-IsDescending :
      (x : A) (ys : List A) → IsDescending ys → IsDescending (insert_desc x ys)
  unfolding insert_desc
  insert_desc-IsDescending x [] h = tt
  insert_desc-IsDescending x (y ∷ []) h = ground (arith, order.asymm (key y) (key x))
  insert_desc-IsDescending x (y ∷ z ∷ zs) h =
      ground (arith, order.asymm (key y) (key x), insert_desc-IsDescending x (z ∷ zs) h.1)

  pub sort_desc-IsDescending : (xs : List A) → IsDescending (sort_desc xs)
  unfolding sort_desc
  sort_desc-IsDescending [] = tt
  sort_desc-IsDescending (x ∷ xs) =
      insert_desc-IsDescending x (sort_desc xs) (sort_desc-IsDescending xs)
