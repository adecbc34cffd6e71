-- ===== src/Base/Bytes.antt =====
-- Searching in Rust's byte slices and strings, and the ASCII operations on them.
use photo_viewer.Base.{
  ℕ, suc, ◌+◌, ◌*◌, ◌-◌, ◌≤◌, ◌≡◌, refl, Bool, true, false, ◌&&◌, Option, none, some, [], ◌∷◌, ◌++◌,
  ◌==◌, leb, if◌then◌else◌, arith, length,
}
use photo_viewer.Base.Text.{Text, text_eq}

-- `starts_with`
unfoldable pub starts_with : Text → Text → Bool
starts_with s [] = true
starts_with [] (_ ∷ _) = false
starts_with (a ∷ s) (b ∷ t) = a == b && starts_with s t

abbrev pub later_by : ℕ → Option ℕ → Option ℕ
later_by n none = none
later_by n (some i) = some (n + i)

-- `str::find`: where the pattern occurs first.
unfoldable pub find : Text → Text → Option ℕ
unfolding starts_with
find [] pattern = if starts_with [] pattern then some 0 else none
find (a ∷ s) pattern =
    let later = find s pattern in if starts_with (a ∷ s) pattern then some 0 else later_by 1 later

abbrev pub is_some {ℓ} : {A : Type ℓ} → Option A → Bool
is_some none = false
is_some (some _) = true

-- `str::contains`, and the test for a window equal to the needle.
unfoldable pub contains_text : Text → Text → Bool
unfolding find
contains_text s pattern = is_some (find s pattern)

abbrev pub to_ascii_lowercase : Text → Text
to_ascii_lowercase [] = []
to_ascii_lowercase (c ∷ s) = (if leb 65 c && leb c 90 then c + 32 else c) ∷ to_ascii_lowercase s

abbrev pub eq_ignore_ascii_case : Text → Text → Bool
eq_ignore_ascii_case s t = text_eq (to_ascii_lowercase s) (to_ascii_lowercase t)

abbrev pub is_ascii_digit : ℕ → Bool
is_ascii_digit c = leb 48 c && leb c 57

-- The digits of a number after those read.
abbrev pub parse_digits : ℕ → Text → Option ℕ
parse_digits n [] = some n
parse_digits n (c ∷ s) =
    let later = parse_digits (n * 10 + (c - 48)) s in if is_ascii_digit c then later else none

abbrev within : ℕ → Option ℕ → Option ℕ
within most none = none
within most (some n) = if leb n most then some n else none

abbrev unsigned_digits : Text → Option ℕ
unsigned_digits [] = none
unsigned_digits (c ∷ s) = parse_digits 0 (c ∷ s)

-- `parse::<u64>`: digits, a plus sign before them or none, and no overflow.
unfoldable pub parse_u64 : Text → Option ℕ
parse_u64 [] = none
parse_u64 (c ∷ s) =
    within 18446744073709551615 (if c == 43 then unsigned_digits s else unsigned_digits (c ∷ s))

pub starts_with-append : (t s : Text) → starts_with (t ++ s) t ≡ true
unfolding starts_with
starts_with-append [] s = refl
starts_with-append (a ∷ t) s = ground (arith, starts_with-append t s)

pub starts_with-length : (s t : Text) → starts_with s t ≡ true → length t ≤ length s
unfolding starts_with
starts_with-length s [] h = omega arith
starts_with-length [] (b ∷ t) h = cc
starts_with-length (a ∷ s) (b ∷ t) h = ground (arith, starts_with-length s t)

found-length :
    (b : Bool) (o : Option ℕ) (m n : ℕ)
    → (b ≡ true → m ≤ suc n)
    → ((j : ℕ) → o ≡ some j → j + m ≤ n)
    → (i : ℕ) → (if b then some 0 else later_by 1 o) ≡ some i
    → i + m ≤ suc n
found-length true o m n here later i h = ground (arith, here refl)
found-length false none m n here later i h = cc
found-length false (some j) m n here later i h = ground (arith, later j refl)

-- What is found lies in the text.
pub find-length : (s t : Text) (i : ℕ) → find s t ≡ some i → i + length t ≤ length s
unfolding find
find-length [] t i h = ground (arith, starts_with-length [] t)
find-length (a ∷ s) t i h =
    found-length (starts_with (a ∷ s) t) (find s t) (length t) (length s)
      (starts_with-length (a ∷ s) t) (find-length s t) i h
