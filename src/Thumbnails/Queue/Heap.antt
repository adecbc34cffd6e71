-- ===== src/Thumbnails/Queue/Heap.antt =====
-- The heap: what an extraction of the least item keeps.
use photo_viewer.Base.{
  ℕ, ◌≤◌, ◌≡◌, refl, ◌⊎◌, inl, inr, Bool, true, false, ◌&&◌, ◌||◌, none, some, List, [], ◌∷◌, ◌==◌,
  arith, Bool-cases, length, suc,
}
use photo_viewer.Base.Order.{lex_lt}
use photo_viewer.Base.Text.{Text, text_eq}
use photo_viewer.Thumbnails.Queue.{PriItem, priority, priority_lt, pop_least, pop_min}

-- Whether an item is one of a request at a tier.
abbrev pub is_item : Text → ℕ → PriItem → Bool
is_item key tier item = text_eq item.cache_key key && item.tier == tier

abbrev pub heap_has : Text → ℕ → List PriItem → Bool
heap_has key tier [] = false
heap_has key tier (item ∷ rest) = is_item key tier item || heap_has key tier rest

priority_lt-tier : (a b : PriItem) → priority_lt a b ≡ false → b.tier ≤ a.tier
unfolding priority_lt priority lex_lt
priority_lt-tier a b h = ground arith

priority_lt-tier_le : (a b : PriItem) → priority_lt a b ≡ true → a.tier ≤ b.tier
unfolding priority_lt priority lex_lt
priority_lt-tier_le a b h = ground arith

pub pop_min-nil : pop_min [] ≡ none
unfolding pop_min
pop_min-nil = refl

-- What an extraction gives: the least item by tier, and the others, one fewer.
pub record IsLeast (items : List PriItem) (least : PriItem) (others : List PriItem) : Type 0 where
  pub split :
      (key : Text) (tier : ℕ)
      → heap_has key tier items ≡ (is_item key tier least || heap_has key tier others)
  pub below : (key : Text) (tier : ℕ) → heap_has key tier items ≡ true → least.tier ≤ tier
  pub fewer : length items ≡ suc (length others)

pop_min-one : (item : PriItem) → pop_min (item ∷ []) ≡ some (item, [])
unfolding pop_min pop_least
pop_min-one item = refl

pop_min-cons :
    (item : PriItem) (rest : List PriItem)
    → pop_min (item ∷ rest) ≡ pop_least item rest (pop_min rest)
unfolding pop_min
pop_min-cons item rest = refl

pop_min-lower :
    (item next : PriItem) (rest : List PriItem) (least : PriItem) (others : List PriItem)
    → pop_min (next ∷ rest) ≡ some (least, others)
    → priority_lt least item ≡ true
    → pop_min (item ∷ next ∷ rest) ≡ some (least, item ∷ others)
unfolding pop_least
pop_min-lower item next rest least others e h = rw (pop_min-cons item (next ∷ rest), e, h)

pop_min-higher :
    (item next : PriItem) (rest : List PriItem) (least : PriItem) (others : List PriItem)
    → pop_min (next ∷ rest) ≡ some (least, others)
    → priority_lt least item ≡ false
    → pop_min (item ∷ next ∷ rest) ≡ some (item, next ∷ rest)
unfolding pop_least
pop_min-higher item next rest least others e h = rw (pop_min-cons item (next ∷ rest), e, h)

pub pop_min-some :
    (item : PriItem) (rest : List PriItem)
    → (least : PriItem) × (others : List PriItem) × (pop_min (item ∷ rest) ≡ some (least, others))
      × IsLeast (item ∷ rest) least others
pop_min-some item [] = (
  item,
  [],
  pop_min-one item,
  record { split = λ key tier. refl; below = λ key tier h. ground arith; fewer = refl },
)
pop_min-some item (next ∷ rest) =
    let (least, others, e, p) = pop_min-some next rest in
    elim (Bool-cases (priority_lt least item)) [
      | inl lower ↦ (
        least,
        item ∷ others,
        pop_min-lower item next rest least others e lower,
        record {
          split = λ key tier. ground (arith, p.split key tier);
          below =
              λ key tier h. ground (arith, p.below key tier, priority_lt-tier_le least item lower);
          fewer = omega (arith, p.fewer);
        },
      )
      | inr higher ↦ (
        item,
        next ∷ rest,
        pop_min-higher item next rest least others e higher,
        record {
          split = λ key tier. refl;
          below =
              λ key tier h. ground (arith, p.below key tier, priority_lt-tier least item higher);
          fewer = refl;
        },
      )
    ]

pub pop_min-cases :
    (items : List PriItem)
    → (items ≡ [])
      ⊎ ((least : PriItem) × (others : List PriItem) × (pop_min items ≡ some (least, others))
          × IsLeast items least others)
pop_min-cases [] = inl refl
pop_min-cases (item ∷ rest) = inr (pop_min-some item rest)
