-- ===== src/Grid/Model/Signals.antt =====
-- The signals of `emit_replacements`: they announce the positions given, and no others.
use photo_viewer.Base.{
  ℕ, ◌+◌, ◌≤◌, ◌<◌, ◌≡◌, refl, Bool, true, false, ◌&&◌, ◌||◌, List, [], ◌∷◌, ltb, leb, ◌==◌, arith,
  Bool-cases, inl, inr, ◌∙◌,
}
use photo_viewer.Base.U32.{u32_max, saturating_add}
use photo_viewer.Grid.Model.{
  ItemsChanged, insert_position, sort_dedup, run_signal, runs_from, position_runs,
  emit_replacements,
}

abbrev pub member : ℕ → List ℕ → Bool
member q [] = false
member q (p ∷ rest) = p == q || member q rest

-- The positions that a signal replaces.
abbrev pub in_signal : ℕ → ItemsChanged → Bool
in_signal q signal = leb signal.position q && ltb q (signal.position + signal.removed)

abbrev pub announced : ℕ → List ItemsChanged → Bool
announced q [] = false
announced q (signal ∷ rest) = in_signal q signal || announced q rest

abbrev pub AllBelow : ℕ → List ℕ → Type 0
AllBelow bound [] = Unit
AllBelow bound (p ∷ rest) = (p < bound) × AllBelow bound rest

abbrev Above : ℕ → List ℕ → Type 0
Above p [] = Unit
Above p (q ∷ rest) = (p < q) × Above q rest

abbrev Ascending : List ℕ → Type 0
Ascending [] = Unit
Ascending (p ∷ rest) = Above p rest

-- Each signal replaces slots by as many.
abbrev pub AllBalanced : List ItemsChanged → Type 0
AllBalanced [] = Unit
AllBalanced (signal ∷ rest) = (signal.removed ≡ signal.added) × AllBalanced rest

Above-insert_position :
    (lo p : ℕ) (l : List ℕ) → lo < p → Above lo l → Above lo (insert_position p l)
Above-insert_position lo p [] h a = ground arith
Above-insert_position lo p (q ∷ rest) h a = ground (arith, Above-insert_position q p rest)

Ascending-insert_position : (p : ℕ) (l : List ℕ) → Ascending l → Ascending (insert_position p l)
Ascending-insert_position p [] a = ground arith
Ascending-insert_position p (q ∷ rest) a = ground (arith, Above-insert_position q p rest)

AllBelow-insert_position :
    (bound p : ℕ) (l : List ℕ) → p < bound → AllBelow bound l → AllBelow bound (insert_position p l)
AllBelow-insert_position bound p [] h a = ground arith
AllBelow-insert_position bound p (q ∷ rest) h a =
    ground (arith, AllBelow-insert_position bound p rest)

member-insert_position :
    (q p : ℕ) (l : List ℕ) → member q (insert_position p l) ≡ (p == q || member q l)
member-insert_position q p [] = ground arith
member-insert_position q p (r ∷ rest) = ground (arith, member-insert_position q p rest)

sort_dedup-Ascending : (l : List ℕ) → Ascending (sort_dedup l)
unfolding sort_dedup
sort_dedup-Ascending [] = tt
sort_dedup-Ascending (p ∷ rest) =
    Ascending-insert_position p (sort_dedup rest) (sort_dedup-Ascending rest)

sort_dedup-AllBelow : (bound : ℕ) (l : List ℕ) → AllBelow bound l → AllBelow bound (sort_dedup l)
unfolding sort_dedup
sort_dedup-AllBelow bound [] a = tt
sort_dedup-AllBelow bound (p ∷ rest) (h, a) =
    AllBelow-insert_position bound p (sort_dedup rest) h (sort_dedup-AllBelow bound rest a)

member-sort_dedup : (q : ℕ) (l : List ℕ) → member q (sort_dedup l) ≡ member q l
unfolding sort_dedup
member-sort_dedup q [] = refl
member-sort_dedup q (p ∷ rest) =
    ground (arith, member-insert_position q p (sort_dedup rest), member-sort_dedup q rest)

runs_from-joined :
    (start previous position : ℕ) (rest : List ℕ)
    → (position == saturating_add previous 1) ≡ true
    → runs_from start previous (position ∷ rest) ≡ runs_from start position rest
unfolding runs_from
runs_from-joined start previous position rest h = ground arith

runs_from-split :
    (start previous position : ℕ) (rest : List ℕ)
    → (position == saturating_add previous 1) ≡ false
    → runs_from start previous (position ∷ rest)
      ≡ run_signal start previous ∷ runs_from position position rest
unfolding runs_from
runs_from-split start previous position rest h = ground arith

runs_from_lem :
    (q start previous : ℕ) (rest : List ℕ)
    → start ≤ previous
    → previous < u32_max
    → Above previous rest
    → AllBelow u32_max rest
    → announced q (runs_from start previous rest)
      ≡ ((leb start q && leb q previous) || member q rest)
unfolding saturating_add
runs_from_lem q start previous [] h k a b = unfold runs_from in ground arith
runs_from_lem q start previous (position ∷ rest) h k (gt, a) (lt, b) =
    elim (Bool-cases (position == saturating_add previous 1)) [
      | inl next ↦
          rw (runs_from-joined start previous position rest next)
            (ground (arith, runs_from_lem q start position rest (omega arith) lt a b))
      | inr apart ↦
          rw (runs_from-split start previous position rest apart)
            (ground (arith, runs_from_lem q position position rest (omega arith) lt a b))
    ]

position_runs_lem :
    (q : ℕ) (l : List ℕ)
    → Ascending l
    → AllBelow u32_max l
    → announced q (position_runs l) ≡ member q l
position_runs_lem q [] a b = refl
position_runs_lem q (p ∷ rest) a (lt, b) =
    ground (arith, runs_from_lem q p p rest (omega arith) lt a b)

-- For positions below the limit of u32, in any order and with repetitions, the signals announce
-- these positions and no others.
pub emit_replacements_lem :
    (q : ℕ) (positions : List ℕ)
    → AllBelow u32_max positions
    → announced q (emit_replacements positions) ≡ member q positions
unfolding emit_replacements
emit_replacements_lem q positions b =
    position_runs_lem q (sort_dedup positions) (sort_dedup-Ascending positions)
      (sort_dedup-AllBelow u32_max positions b)
    ∙ member-sort_dedup q positions

runs_from-AllBalanced : (start previous : ℕ) (l : List ℕ) → AllBalanced (runs_from start previous l)
runs_from-AllBalanced start previous [] = unfold runs_from in (refl, tt)
runs_from-AllBalanced start previous (position ∷ rest) =
    elim (Bool-cases (position == saturating_add previous 1)) [
      | inl next ↦
          rw (runs_from-joined start previous position rest next)
            (runs_from-AllBalanced start position rest)
      | inr apart ↦
          rw (runs_from-split start previous position rest apart)
            (refl, runs_from-AllBalanced position position rest)
    ]

position_runs-AllBalanced : (l : List ℕ) → AllBalanced (position_runs l)
position_runs-AllBalanced [] = tt
position_runs-AllBalanced (p ∷ rest) = runs_from-AllBalanced p p rest

pub emit_replacements-AllBalanced : (positions : List ℕ) → AllBalanced (emit_replacements positions)
unfolding emit_replacements
emit_replacements-AllBalanced positions = position_runs-AllBalanced (sort_dedup positions)
