-- ===== src/Base/Order.antt =====
-- Strict orders by a Boolean test, the order of tuples, and a sort that does not depend on the
-- order of its input.
use photo_viewer.Base.{ℕ, ◌≡◌, ◌⊎◌, Bool, true, false, not, ◌&&◌, ◌||◌, ltb, arith}
use photo_viewer.Base.Int.{ℤ, ltb_ℤ, eq_of_parts}

pub record StrictOrder {ℓ} (A : Type ℓ) : Type ℓ where
  pub lt : A → A → Bool
  pub asymm : (a b : A) → lt a b ≡ true → lt b a ≡ false
  pub trans : (a b c : A) → lt a b ≡ true → lt b c ≡ true → lt a c ≡ true
  pub total : (a b : A) → (lt a b ≡ true) ⊎ (lt b a ≡ true) ⊎ (a ≡ b)

pub nat_asymm : (a b : ℕ) → ltb a b ≡ true → ltb b a ≡ false
nat_asymm a b h = ground arith

pub nat_trans : (a b c : ℕ) → ltb a b ≡ true → ltb b c ≡ true → ltb a c ≡ true
nat_trans a b c h k = ground arith

pub nat_total : (a b : ℕ) → (ltb a b ≡ true) ⊎ (ltb b a ≡ true) ⊎ (a ≡ b)
nat_total a b = ground arith

abbrev pub nat_order : StrictOrder ℕ
nat_order = record { lt = ltb; asymm = nat_asymm; trans = nat_trans; total = nat_total }

pub int_asymm : (a b : ℤ) → ltb_ℤ a b ≡ true → ltb_ℤ b a ≡ false
int_asymm a b h = ground arith

pub int_trans : (a b c : ℤ) → ltb_ℤ a b ≡ true → ltb_ℤ b c ≡ true → ltb_ℤ a c ≡ true
int_trans a b c h k = ground arith

pub int_total : (a b : ℤ) → (ltb_ℤ a b ≡ true) ⊎ (ltb_ℤ b a ≡ true) ⊎ (a ≡ b)
int_total a b = ground (arith, eq_of_parts a b)

abbrev pub int_order : StrictOrder ℤ
int_order = record { lt = ltb_ℤ; asymm = int_asymm; trans = int_trans; total = int_total }

-- `false < true`
abbrev pub bool_lt : Bool → Bool → Bool
bool_lt false true = true
bool_lt _ _ = false

pub bool_asymm : (a b : Bool) → bool_lt a b ≡ true → bool_lt b a ≡ false
bool_asymm a b h = ground arith

pub bool_trans : (a b c : Bool) → bool_lt a b ≡ true → bool_lt b c ≡ true → bool_lt a c ≡ true
bool_trans a b c h k = ground arith

pub bool_total : (a b : Bool) → (bool_lt a b ≡ true) ⊎ (bool_lt b a ≡ true) ⊎ (a ≡ b)
bool_total a b = ground arith

abbrev pub bool_order : StrictOrder Bool
bool_order = record { lt = bool_lt; asymm = bool_asymm; trans = bool_trans; total = bool_total }

-- Rust's order of tuples: by the first component, then by the second.
module _ {ℓ κ} {A : Type ℓ} {B : Type κ} (r : StrictOrder A) (s : StrictOrder B) where
  unfoldable pub lex_lt : A × B → A × B → Bool
  lex_lt (a, b) (c, d) = r.lt a c || (not (r.lt c a) && s.lt b d)

  pub lex_asymm : (p q : A × B) → lex_lt p q ≡ true → lex_lt q p ≡ false
  unfolding lex_lt
  lex_asymm (a, b) (c, d) h = ground (arith, r.asymm a c, s.asymm b d)

  pub lex_trans : (p q t : A × B) → lex_lt p q ≡ true → lex_lt q t ≡ true → lex_lt p t ≡ true
  unfolding lex_lt
  lex_trans (a, b) (c, d) (e, f) h k = ground (
    arith,
    r.trans a c e,
    r.trans c e a,
    r.trans e a c,
    r.asymm a c,
    r.asymm c e,
    r.asymm a e,
    r.total a c,
    r.total c e,
    r.total a e,
    s.trans b d f,
  )

  pub lex_total : (p q : A × B) → (lex_lt p q ≡ true) ⊎ (lex_lt q p ≡ true) ⊎ (p ≡ q)
  unfolding lex_lt
  lex_total (a, b) (c, d) = ground (arith, r.total a c, s.total b d, r.asymm a c, r.asymm c a)

  abbrev pub lex_order : StrictOrder (A × B)
  lex_order = record { lt = lex_lt; asymm = lex_asymm; trans = lex_trans; total = lex_total }

-- The other way round, as by `Reverse`.
module _ {ℓ} {A : Type ℓ} (r : StrictOrder A) where
  abbrev pub reverse_lt : A → A → Bool
  reverse_lt a b = r.lt b a

  pub reverse_asymm : (a b : A) → reverse_lt a b ≡ true → reverse_lt b a ≡ false
  reverse_asymm a b h = r.asymm b a h

  pub reverse_trans :
      (a b c : A) → reverse_lt a b ≡ true → reverse_lt b c ≡ true → reverse_lt a c ≡ true
  reverse_trans a b c h k = r.trans c b a k h

  pub reverse_total : (a b : A) → (reverse_lt a b ≡ true) ⊎ (reverse_lt b a ≡ true) ⊎ (a ≡ b)
  reverse_total a b = ground (arith, r.total a b)

  abbrev pub reverse_order : StrictOrder A
  reverse_order = record {
    lt = reverse_lt;
    asymm = reverse_asymm;
    trans = reverse_trans;
    total = reverse_total;
  }
