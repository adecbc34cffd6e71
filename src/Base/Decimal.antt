-- ===== src/Base/Decimal.antt =====
-- A decimal number, printed and read back.
use photo_viewer.Base.{
  ℕ, zero, suc, ◌+◌, ◌*◌, ◌-◌, ◌/◌, ◌%◌, ◌^◌, ◌<◌, ◌≡◌, ap, ◌∙◌, false, some, [], ◌∷◌, ◌++◌, ltb,
  if◌then◌else◌, arith, length, length-append, Bool-cases, inl, inr,
}
use photo_viewer.Base.Text.{Text}
use photo_viewer.Base.Bytes.{parse_digits, is_ascii_digit, parse_u64}
use photo_viewer.Base.Search.{Lacks}

-- The digits of a number without leading zeros, on fuel for the number.
abbrev digits_of : ℕ → ℕ → Text
digits_of zero n = []
digits_of (suc fuel) n =
    let front = digits_of fuel (n / 10) in
    if ltb n 10 then (48 + n) ∷ [] else front ++ ((48 + n % 10) ∷ [])

abbrev pub to_decimal : ℕ → Text
to_decimal n = digits_of (suc n) n

parse_digits-snoc :
    (s : Text) (m k d : ℕ)
    → d < 10
    → parse_digits m s ≡ some k
    → parse_digits m (s ++ ((48 + d) ∷ [])) ≡ some (k * 10 + d)
parse_digits-snoc [] m k d small h = ground arith
parse_digits-snoc (c ∷ s) m k d small h =
    ground (arith, parse_digits-snoc s (m * 10 + (c - 48)) k d small)

parse_digits-digits_of : (fuel n : ℕ) → n < fuel → parse_digits 0 (digits_of fuel n) ≡ some n
parse_digits-digits_of zero n h = absurd (omega arith)
parse_digits-digits_of (suc fuel) n h = elim (Bool-cases (ltb n 10)) [
  | inl small ↦ rw small (ground arith)
  | inr large ↦ rw large (
      parse_digits-snoc (digits_of fuel (n / 10)) 0 (n / 10) (n % 10) (omega arith)
        (parse_digits-digits_of fuel (n / 10) (ground arith))
      ∙ ap some (omega arith))
]

digits_of-some : (fuel n : ℕ) → 0 < length (digits_of (suc fuel) n)
digits_of-some fuel n = elim (Bool-cases (ltb n 10)) [
  | inl small ↦ rw small (omega arith)
  | inr large ↦
      rw large (omega (arith, length-append (digits_of fuel (n / 10)) ((48 + n % 10) ∷ [])))
]

parse_u64-digits :
    (s : Text) (n : ℕ)
    → 0 < length s
    → parse_digits 0 s ≡ some n
    → n < 2 ^ 64
    → parse_u64 s ≡ some n
unfolding parse_u64
parse_u64-digits [] n long h small = absurd (omega arith)
parse_u64-digits (c ∷ s) n long h small = ground arith

-- A number that is a u64 is read back from its digits.
pub parse_u64-to_decimal : (n : ℕ) → n < 2 ^ 64 → parse_u64 (to_decimal n) ≡ some n
parse_u64-to_decimal n small =
    parse_u64-digits (to_decimal n) n (digits_of-some n n)
      (parse_digits-digits_of (suc n) n (omega arith)) small

digits-Lacks :
    (c : ℕ) (s : Text) (m n : ℕ) → is_ascii_digit c ≡ false → parse_digits m s ≡ some n → Lacks c s
digits-Lacks c [] m n other h = tt
digits-Lacks c (a ∷ s) m n other h =
    (ground arith, digits-Lacks c s (m * 10 + (a - 48)) n other (ground arith))

-- Digits are nothing else.
pub to_decimal-Lacks : (c n : ℕ) → is_ascii_digit c ≡ false → Lacks c (to_decimal n)
to_decimal-Lacks c n other =
    digits-Lacks c (to_decimal n) 0 n other (parse_digits-digits_of (suc n) n (omega arith))
