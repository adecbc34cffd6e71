-- ===== src/Keyboard.antt =====
-- src/ui/keyboard: the actions, the scopes and the combinations of keys. Bindings has the tables of
-- binding.rs, and Router the latch of router.rs.
pub mod Bindings
pub mod Router
pub mod Fallback
pub mod Presses
mod Examples
use photo_viewer.Base.{
  ℕ, ◌≡◌, ◌↔◌, refl, sym, ap, ◌∙◌, Bool, true, false, Option, some, List, [], ◌∷◌, ◌==◌, ==_iff,
  arith, get_elem?,
}

pub data KeyboardAction : Type 0 where
  cancel_or_close : KeyboardAction
  navigate_back : KeyboardAction
  browse_up : KeyboardAction
  browse_down : KeyboardAction
  browse_left : KeyboardAction
  browse_right : KeyboardAction
  activate_focused : KeyboardAction
  toggle_selection : KeyboardAction
  select_all : KeyboardAction
  search_photos : KeyboardAction
  open_settings : KeyboardAction
  show_shortcuts : KeyboardAction
  delete_photos : KeyboardAction
  restore : KeyboardAction
  viewer_previous : KeyboardAction
  viewer_next : KeyboardAction
  viewer_zoom_in : KeyboardAction
  viewer_zoom_out : KeyboardAction
  viewer_zoom_reset : KeyboardAction
  viewer_rotate_left : KeyboardAction
  viewer_rotate_right : KeyboardAction
  viewer_immersive : KeyboardAction
  viewer_fullscreen_preview : KeyboardAction
  viewer_toggle_details : KeyboardAction
  viewer_toggle_edit : KeyboardAction
  viewer_toggle_favorite : KeyboardAction
  viewer_toggle_playback : KeyboardAction

pub data KeyboardScope : Type 0 where
  text_input : KeyboardScope
  modal : KeyboardScope
  editor : KeyboardScope
  viewer : KeyboardScope
  browsing : KeyboardScope
  global : KeyboardScope

-- The constants of `gdk::Key` that are bound.
pub data NamedKey : Type 0 where
  escape : NamedKey
  key_left : NamedKey
  kp_left : NamedKey
  key_right : NamedKey
  kp_right : NamedKey
  key_up : NamedKey
  kp_up : NamedKey
  key_down : NamedKey
  kp_down : NamedKey
  return_key : NamedKey
  kp_enter : NamedKey
  space : NamedKey
  kp_space : NamedKey
  delete_key : NamedKey
  comma : NamedKey
  f1 : NamedKey
  slash : NamedKey
  question : NamedKey
  lower_a : NamedKey
  upper_a : NamedKey
  lower_f : NamedKey
  upper_f : NamedKey
  lower_r : NamedKey
  upper_r : NamedKey
  lower_i : NamedKey
  lower_e : NamedKey
  lower_h : NamedKey
  plus : NamedKey
  kp_add : NamedKey
  equal : NamedKey
  minus : NamedKey
  kp_subtract : NamedKey
  digit_0 : NamedKey
  kp_0 : NamedKey

-- `gdk::Key`: one of them, or any other value.
pub data Key : Type 0 where
  named : NamedKey → Key
  other_key : ℕ → Key

-- To tell the constants apart.
unfoldable pub number_of : NamedKey → ℕ
number_of escape = 0
number_of key_left = 1
number_of kp_left = 2
number_of key_right = 3
number_of kp_right = 4
number_of key_up = 5
number_of kp_up = 6
number_of key_down = 7
number_of kp_down = 8
number_of return_key = 9
number_of kp_enter = 10
number_of space = 11
number_of kp_space = 12
number_of delete_key = 13
number_of comma = 14
number_of f1 = 15
number_of slash = 16
number_of question = 17
number_of lower_a = 18
number_of upper_a = 19
number_of lower_f = 20
number_of upper_f = 21
number_of lower_r = 22
number_of upper_r = 23
number_of lower_i = 24
number_of lower_e = 25
number_of lower_h = 26
number_of plus = 27
number_of kp_add = 28
number_of equal = 29
number_of minus = 30
number_of kp_subtract = 31
number_of digit_0 = 32
number_of kp_0 = 33

abbrev named_keys : List NamedKey
named_keys =
    escape ∷ key_left ∷ kp_left ∷ key_right ∷ kp_right ∷ key_up ∷ kp_up ∷ key_down ∷ kp_down
    ∷ return_key ∷ kp_enter ∷ space ∷ kp_space ∷ delete_key ∷ comma ∷ f1 ∷ slash ∷ question
    ∷ lower_a ∷ upper_a ∷ lower_f ∷ upper_f ∷ lower_r ∷ upper_r ∷ lower_i ∷ lower_e ∷ lower_h ∷ plus
    ∷ kp_add ∷ equal ∷ minus ∷ kp_subtract ∷ digit_0 ∷ kp_0 ∷ []

named_keys-number_of : (k : NamedKey) → get_elem? named_keys (number_of k) ≡ some k
unfolding number_of
named_keys-number_of escape = refl
named_keys-number_of key_left = refl
named_keys-number_of kp_left = refl
named_keys-number_of key_right = refl
named_keys-number_of kp_right = refl
named_keys-number_of key_up = refl
named_keys-number_of kp_up = refl
named_keys-number_of key_down = refl
named_keys-number_of kp_down = refl
named_keys-number_of return_key = refl
named_keys-number_of kp_enter = refl
named_keys-number_of space = refl
named_keys-number_of kp_space = refl
named_keys-number_of delete_key = refl
named_keys-number_of comma = refl
named_keys-number_of f1 = refl
named_keys-number_of slash = refl
named_keys-number_of question = refl
named_keys-number_of lower_a = refl
named_keys-number_of upper_a = refl
named_keys-number_of lower_f = refl
named_keys-number_of upper_f = refl
named_keys-number_of lower_r = refl
named_keys-number_of upper_r = refl
named_keys-number_of lower_i = refl
named_keys-number_of lower_e = refl
named_keys-number_of lower_h = refl
named_keys-number_of plus = refl
named_keys-number_of kp_add = refl
named_keys-number_of equal = refl
named_keys-number_of minus = refl
named_keys-number_of kp_subtract = refl
named_keys-number_of digit_0 = refl
named_keys-number_of kp_0 = refl

number_of-inj : (a b : NamedKey) → number_of a ≡ number_of b → a ≡ b
number_of-inj a b h =
    let same : some a ≡ some b =
      sym (named_keys-number_of a) ∙ ap (λ n. get_elem? named_keys n) h ∙ named_keys-number_of b in
    cc

unfoldable pub key_eq : Key → Key → Bool
key_eq (named a) (named b) = number_of a == number_of b
key_eq (named a) (other_key b) = false
key_eq (other_key a) (named b) = false
key_eq (other_key a) (other_key b) = a == b

pub key_eq_iff : (a b : Key) → (key_eq a b ≡ true) ↔ (a ≡ b)
unfolding key_eq
key_eq_iff (named a) (named b) = (
  (λ h. ap named (number_of-inj a b (ground arith))),
  (λ h. let same : a ≡ b = cc in (==_iff (number_of a) (number_of b)).1 (ap number_of same)),
)
key_eq_iff (named a) (other_key b) = ((λ h. absurd cc), (λ h. absurd cc))
key_eq_iff (other_key a) (named b) = ((λ h. absurd cc), (λ h. absurd cc))
key_eq_iff (other_key a) (other_key b) =
    ((λ h. ap other_key (ground arith)), (λ h. let same : a ≡ b = cc in (==_iff a b).1 same))
