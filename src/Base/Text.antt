-- ===== src/Base/Text.antt =====
-- Rust's `String`: its bytes, compared byte by byte.
use Prim.Native.Char.{code}
use Prim.Native.String.{String}
use photo_viewer.Base.{
  ℕ, ◌≡◌, refl, ◌⊎◌, ◌↔◌, Bool, true, false, ◌&&◌, ◌||◌, List, [], ◌∷◌, ◌==◌, ltb, arith,
}
use photo_viewer.Base.Order.{StrictOrder}

abbrev pub Text : Type 0
Text = List ℕ

-- The bytes of an ASCII literal.
abbrev pub ascii : String → Text
ascii String.[] = []
ascii (String.◌∷◌ c rest) = code c ∷ ascii rest

unfoldable pub text_eq : Text → Text → Bool
text_eq [] [] = true
text_eq [] (_ ∷ _) = false
text_eq (_ ∷ _) [] = false
text_eq (a ∷ s) (b ∷ t) = a == b && text_eq s t

pub text_eq_refl : (s : Text) → text_eq s s ≡ true
unfolding text_eq
text_eq_refl [] = refl
text_eq_refl (a ∷ s) = ground (arith, text_eq_refl s)

pub eq_of_text_eq : (s t : Text) → text_eq s t ≡ true → s ≡ t
unfolding text_eq
eq_of_text_eq [] [] h = refl
eq_of_text_eq [] (b ∷ t) h = cc
eq_of_text_eq (a ∷ s) [] h = cc
eq_of_text_eq (a ∷ s) (b ∷ t) h = ground (arith, eq_of_text_eq s t)

pub text_eq_iff : (s t : Text) → (text_eq s t ≡ true) ↔ (s ≡ t)
text_eq_iff s t = (eq_of_text_eq s t, λ e. rw e (text_eq_refl t))

unfoldable pub text_lt : Text → Text → Bool
text_lt [] [] = false
text_lt [] (_ ∷ _) = true
text_lt (_ ∷ _) [] = false
text_lt (a ∷ s) (b ∷ t) = ltb a b || (a == b && text_lt s t)

pub text_asymm : (s t : Text) → text_lt s t ≡ true → text_lt t s ≡ false
unfolding text_lt
text_asymm [] [] h = cc
text_asymm [] (b ∷ t) h = refl
text_asymm (a ∷ s) [] h = cc
text_asymm (a ∷ s) (b ∷ t) h = ground (arith, text_asymm s t)

pub text_trans : (s t u : Text) → text_lt s t ≡ true → text_lt t u ≡ true → text_lt s u ≡ true
unfolding text_lt
text_trans [] [] u h k = cc
text_trans [] (b ∷ t) [] h k = cc
text_trans [] (b ∷ t) (c ∷ u) h k = refl
text_trans (a ∷ s) [] u h k = cc
text_trans (a ∷ s) (b ∷ t) [] h k = cc
text_trans (a ∷ s) (b ∷ t) (c ∷ u) h k = ground (arith, text_trans s t u)

pub text_total : (s t : Text) → (text_lt s t ≡ true) ⊎ (text_lt t s ≡ true) ⊎ (s ≡ t)
unfolding text_lt
text_total [] [] = ground arith
text_total [] (b ∷ t) = ground arith
text_total (a ∷ s) [] = ground arith
text_total (a ∷ s) (b ∷ t) = ground (arith, text_total s t)

abbrev pub text_order : StrictOrder Text
text_order = record { lt = text_lt; asymm = text_asymm; trans = text_trans; total = text_total }
