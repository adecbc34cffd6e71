-- ===== src/Exif/Bytes.antt =====
-- Slices of bytes, and numbers in four bytes.
use photo_viewer.Base.{
  ℕ, zero, suc, ◌^◌, ◌≤◌, ◌<◌, ◌≡◌, refl, List, [], ◌∷◌, ◌++◌, arith, length, take, drop, ap,
}
use photo_viewer.Exif.{from_be_bytes, to_be_bytes}

module _ {ℓ} {A : Type ℓ} where
  pub take-append : (k : ℕ) (l r : List A) → k ≤ length l → take k (l ++ r) ≡ take k l
  take-append zero l r h = refl
  take-append (suc k) [] r h = absurd (omega arith)
  take-append (suc k) (a ∷ l) r h = ap (λ t. a ∷ t) (take-append k l r (omega arith))

  pub take-take : (k n : ℕ) (l : List A) → k ≤ n → take k (take n l) ≡ take k l
  take-take zero n l h = refl
  take-take (suc k) zero l h = absurd (omega arith)
  take-take (suc k) (suc n) [] h = refl
  take-take (suc k) (suc n) (a ∷ l) h = ap (λ t. a ∷ t) (take-take k n l (omega arith))

  pub length-take : (n : ℕ) (l : List A) → n ≤ length l → length (take n l) ≡ n
  length-take zero l h = refl
  length-take (suc n) [] h = absurd (omega arith)
  length-take (suc n) (a ∷ l) h = omega (arith, length-take n l (omega arith))

  pub drop-append : (n : ℕ) (l r : List A) → length l ≡ n → drop n (l ++ r) ≡ r
  drop-append zero [] r e = refl
  drop-append (suc n) [] r e = absurd (omega arith)
  drop-append zero (a ∷ l) r e = absurd (omega arith)
  drop-append (suc n) (a ∷ l) r e = drop-append n l r (omega arith)

  pub take-append_all : (n : ℕ) (l r : List A) → length l ≡ n → take n (l ++ r) ≡ l
  take-append_all zero [] r e = refl
  take-append_all (suc n) [] r e = absurd (omega arith)
  take-append_all zero (a ∷ l) r e = absurd (omega arith)
  take-append_all (suc n) (a ∷ l) r e = ap (λ t. a ∷ t) (take-append_all n l r (omega arith))

pub from_be_bytes-to_be_bytes : (n : ℕ) → n < 2 ^ 32 → from_be_bytes (to_be_bytes n) ≡ n
from_be_bytes-to_be_bytes n h = omega arith
