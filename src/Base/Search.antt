-- ===== src/Base/Search.antt =====
-- Searching a text of which a part is known.
use photo_viewer.Base.{
  ℕ, ◌+◌, ◌≡◌, refl, ap, ◌∙◌, Bool, true, false, not, ◌&&◌, ◌||◌, Option, none, some, [], ◌∷◌, ◌++◌,
  ◌==◌, if◌then◌else◌, arith, length,
}
use photo_viewer.Base.Text.{Text}
use photo_viewer.Base.Bytes.{starts_with, find, later_by, starts_with-append}

-- The text has no such character.
abbrev pub Lacks : ℕ → Text → Type 0
Lacks c [] = Unit
Lacks c (a ∷ s) = ((a == c) ≡ false) × Lacks c s

-- The pattern differs from the text within both.
abbrev pub differs : Text → Text → Bool
differs [] pattern = false
differs (a ∷ s) [] = false
differs (a ∷ s) (b ∷ t) = not (a == b) || differs s t

-- The pattern starts nowhere in the text, whatever follows it.
abbrev pub is_clear : Text → Text → Bool
is_clear [] pattern = true
is_clear (a ∷ s) pattern = differs (a ∷ s) pattern && is_clear s pattern

differs-append : (s r t : Text) → differs s t ≡ true → differs (s ++ r) t ≡ true
differs-append [] r t h = absurd (ground arith)
differs-append (a ∷ s) r [] h = absurd (ground arith)
differs-append (a ∷ s) r (b ∷ t) h = ground (arith, differs-append s r t)

pub is_clear-append :
    (s r t : Text) → is_clear s t ≡ true → is_clear r t ≡ true → is_clear (s ++ r) t ≡ true
is_clear-append [] r t h k = k
is_clear-append (a ∷ s) r t h k = ground (arith, differs-append (a ∷ s) r t, is_clear-append s r t)

differs-starts_with : (s r t : Text) → differs s t ≡ true → starts_with (s ++ r) t ≡ false
unfolding starts_with
differs-starts_with [] r t h = absurd (ground arith)
differs-starts_with (a ∷ s) r [] h = absurd (ground arith)
differs-starts_with (a ∷ s) r (b ∷ t) h = ground (arith, differs-starts_with s r t)

find-next :
    (a : ℕ) (s t : Text) → starts_with (a ∷ s) t ≡ false → find (a ∷ s) t ≡ later_by 1 (find s t)
unfolding find
find-next a s t h = rw h refl

later_by-twice : (m n : ℕ) (o : Option ℕ) → later_by m (later_by n o) ≡ later_by (m + n) o
later_by-twice m n none = refl
later_by-twice m n (some i) = ap some (omega arith)

later_by-zero : (o : Option ℕ) → o ≡ later_by 0 o
later_by-zero none = refl
later_by-zero (some i) = ap some (omega arith)

pub find-is_clear :
    (s r t : Text) → is_clear s t ≡ true → find (s ++ r) t ≡ later_by (length s) (find r t)
find-is_clear [] r t h = later_by-zero (find r t)
find-is_clear (a ∷ s) r t h =
    find-next a (s ++ r) t (differs-starts_with (a ∷ s) r t (ground arith))
    ∙ ap (later_by 1) (find-is_clear s r t (ground arith))
    ∙ later_by-twice 1 (length s) (find r t)
    ∙ ap (λ n. later_by n (find r t)) (omega arith)

pub find-start : (s t : Text) → starts_with s t ≡ true → find s t ≡ some 0
unfolding find
find-start [] t h = rw h refl
find-start (a ∷ s) t h = rw h refl

pub find-behind :
    (pre t rest : Text)
    → is_clear pre t ≡ true
    → find (pre ++ (t ++ rest)) t ≡ some (length pre + 0)
find-behind pre t rest clear =
    find-is_clear pre (t ++ rest) t clear
    ∙ ap (later_by (length pre)) (find-start (t ++ rest) t (starts_with-append t rest))

-- A character that a text lacks.
pub is_clear-Lacks : (c : ℕ) (s : Text) → Lacks c s → is_clear s (c ∷ []) ≡ true
is_clear-Lacks c [] h = refl
is_clear-Lacks c (a ∷ s) (h, k) = ground (arith, is_clear-Lacks c s k)

differs-empty : (s : Text) → differs s [] ≡ false
differs-empty [] = refl
differs-empty (a ∷ s) = refl

pub Lacks-is_clear : (c : ℕ) (s : Text) → is_clear s (c ∷ []) ≡ true → Lacks c s
Lacks-is_clear c [] h = tt
Lacks-is_clear c (a ∷ s) h =
    (ground (arith, differs-empty s), Lacks-is_clear c s (ground (arith, differs-empty s)))

none-found :
    (b : Bool) (o : Option ℕ)
    → (if b then some 0 else later_by 1 o) ≡ none
    → (b ≡ false) × (o ≡ none)
none-found true o h = absurd (ground arith)
none-found false none h = (refl, refl)
none-found false (some i) h = absurd (ground arith)

find-none :
    (a : ℕ) (s t : Text)
    → find (a ∷ s) t ≡ none
    → (starts_with (a ∷ s) t ≡ false) × (find s t ≡ none)
unfolding find
find-none a s t h = none-found (starts_with (a ∷ s) t) (find s t) h

starts_with-before :
    (c : ℕ) (s r t : Text) → Lacks c t → starts_with (s ++ (c ∷ r)) t ≡ starts_with s t
unfolding starts_with
starts_with-before c s r [] lacks = refl
starts_with-before c [] r (b ∷ t) (other, lacks) = ground arith
starts_with-before c (a ∷ s) r (b ∷ t) (other, lacks) =
    ap (λ x. a == b && x) (starts_with-before c s r t lacks)

starts_with-first :
    (c a : ℕ) (s r t : Text)
    → Lacks c t
    → starts_with (a ∷ (s ++ (c ∷ r))) (c ∷ t) ≡ starts_with (a ∷ s) (c ∷ t)
unfolding starts_with
starts_with-first c a s r t lacks = ap (λ x. a == c && x) (starts_with-before c s r t lacks)

-- A pattern that starts with a character it has once, behind a text without the pattern.
pub find-without :
    (c : ℕ) (s r t : Text)
    → Lacks c t
    → find s (c ∷ t) ≡ none
    → find (s ++ (c ∷ (t ++ r))) (c ∷ t) ≡ some (length s + 0)
find-without c [] r t lacks h = find-start (c ∷ (t ++ r)) (c ∷ t) (starts_with-append (c ∷ t) r)
find-without c (a ∷ s) r t lacks h =
    let (here, later) = find-none a s (c ∷ t) h in
    find-next a (s ++ (c ∷ (t ++ r))) (c ∷ t) (starts_with-first c a s (t ++ r) t lacks ∙ here)
    ∙ ap (later_by 1) (find-without c s r t lacks later)
    ∙ ap some (omega arith)
