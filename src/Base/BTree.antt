-- ===== src/Base/BTree.antt =====
-- Rust's `BTreeMap<u32, V>`: its entries in the order of their keys.
use photo_viewer.Base.{ℕ, ◌≡◌, Option, none, some, List, [], ◌∷◌, arith, if◌then◌else◌, ltb, ◌==◌}

abbrev pub BTreeMap {ℓ} : Type ℓ → Type ℓ
BTreeMap V = List (ℕ × V)

module _ {ℓ} {V : Type ℓ} where
  unfoldable pub get : ℕ → BTreeMap V → Option V
  get key [] = none
  get key ((k, v) ∷ rest) = if k == key then some v else get key rest

  unfoldable pub insert : ℕ → V → BTreeMap V → BTreeMap V
  insert key v [] = (key, v) ∷ []
  insert key v ((k, w) ∷ rest) =
      let later = insert key v rest in
      if ltb key k
      then (key, v) ∷ (k, w) ∷ rest
      else if key == k
      then (key, v) ∷ rest
      else (k, w) ∷ later

  unfoldable pub remove : ℕ → BTreeMap V → BTreeMap V
  remove key [] = []
  remove key ((k, v) ∷ rest) =
      let later = remove key rest in if k == key then later else (k, v) ∷ later

  unfoldable pub keys : BTreeMap V → List ℕ
  keys [] = []
  keys ((k, _) ∷ rest) = k ∷ keys rest

module _ {ℓ} {V : Type ℓ} where
  pub get-insert :
      (j k : ℕ) (v : V) (m : BTreeMap V)
      → get j (insert k v m) ≡ (if k == j then some v else get j m)
  unfolding get insert
  get-insert j k v [] = ground arith
  get-insert j k v ((i, w) ∷ rest) = ground (arith, get-insert j k v rest)

  pub get-remove :
      (j k : ℕ) (m : BTreeMap V) → get j (remove k m) ≡ (if k == j then none else get j m)
  unfolding get remove
  get-remove j k [] = ground arith
  get-remove j k ((i, w) ∷ rest) = ground (arith, get-remove j k rest)
