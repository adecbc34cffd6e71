-- ===== src/Base/Map.antt =====
-- Rust's `HashMap<String, V>` as an association list. A removal and an insertion take out all
-- entries of the key, so each key has one entry at most.
use photo_viewer.Base.{
  not, ◌&&◌, ◌||◌, ℕ, suc, ◌+◌, ◌≤◌, ◌≡◌, Bool, true, false, Option, none, some, List, [], ◌∷◌,
  arith, if◌then◌else◌,
}
use photo_viewer.Base.Text.{Text, text_eq, text_eq_iff}

abbrev pub HashMap {ℓ} : Type ℓ → Type ℓ
HashMap V = List (Text × V)

module _ {ℓ} {V : Type ℓ} where
  unfoldable pub get : Text → HashMap V → Option V
  get key [] = none
  get key ((k, v) ∷ rest) = if text_eq k key then some v else get key rest

  unfoldable pub remove : Text → HashMap V → HashMap V
  remove key [] = []
  remove key ((k, v) ∷ rest) =
      let later = remove key rest in if text_eq k key then later else (k, v) ∷ later

  unfoldable pub insert : Text → V → HashMap V → HashMap V
  unfolding remove
  insert key v entries = (key, v) ∷ remove key entries

  unfoldable pub size : HashMap V → ℕ
  size [] = 0
  size (_ ∷ rest) = suc (size rest)

module _ {ℓ} {V : Type ℓ} where
  abbrev pub contains_key : Text → HashMap V → Bool
  contains_key key entries = elim (get key entries) [ none ↦ false | some _ ↦ true ]

  pub get-remove :
      (j k : Text) (entries : HashMap V)
      → get j (remove k entries) ≡ (if text_eq k j then none else get j entries)
  unfolding get remove
  get-remove j k [] = ground arith
  get-remove j k ((i, v) ∷ rest) =
      ground (arith, get-remove j k rest, text_eq_iff i k, text_eq_iff i j, text_eq_iff k j)

  pub get-insert :
      (j k : Text) (v : V) (entries : HashMap V)
      → get j (insert k v entries) ≡ (if text_eq k j then some v else get j entries)
  unfolding insert get
  get-insert j k v entries = ground (arith, get-remove j k entries)

  pub size-remove : (k : Text) (entries : HashMap V) → size (remove k entries) ≤ size entries
  unfolding remove size
  size-remove k [] = omega arith
  size-remove k ((i, v) ∷ rest) = ground (arith, size-remove k rest)

  pub size-insert :
      (k : Text) (v : V) (entries : HashMap V) → size (insert k v entries) ≤ size entries + 1
  unfolding insert size
  size-insert k v entries = omega (arith, size-remove k entries)

  pub contains-insert :
      (j k : Text) (v : V) (entries : HashMap V)
      → contains_key j (insert k v entries) ≡ (text_eq k j || contains_key j entries)
  contains-insert j k v entries = ground (arith, get-insert j k v entries)

  pub contains-remove :
      (j k : Text) (entries : HashMap V)
      → contains_key j (remove k entries) ≡ (not (text_eq k j) && contains_key j entries)
  contains-remove j k entries = ground (arith, get-remove j k entries)

  pub size-remove_present :
      (k : Text) (entries : HashMap V)
      → contains_key k entries ≡ true
      → size (remove k entries) + 1 ≤ size entries
  unfolding get remove size
  size-remove_present k [] h = absurd (ground arith)
  size-remove_present k ((i, v) ∷ rest) h =
      ground (arith, size-remove_present k rest, size-remove k rest)

  pub size-insert_present :
      (k : Text) (v : V) (entries : HashMap V)
      → contains_key k entries ≡ true
      → size (insert k v entries) ≤ size entries
  unfolding insert size
  size-insert_present k v entries h = omega (arith, size-remove_present k entries h)

pub ruleset map_laws = (get-insert, get-remove, contains-insert, contains-remove)
