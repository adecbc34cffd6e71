-- ===== src/Strip/Extend.antt =====
-- Extensions of the filmstrip: the strip shows the new window, and the current photo stays in it.
use photo_viewer.Base.{
  ℕ, ◌-◌, ◌≤◌, ◌<◌, ◌≡◌, refl, sym, ap, true, false, Option, none, some, arith, Bool-cases, inl,
  inr, subst,
}
use photo_viewer.Base.U32.{u32_max}
use photo_viewer.Strip.{
  Direction, same_direction, compute_extended_thumb_window, classify_thumb_window_update,
  compute_current_thumb_extend_direction, ThumbStrip, extend_to, try_extend_thumb_window,
}
use photo_viewer.Strip.Window.{extended_window, extended_window-current}
use photo_viewer.Strip.Buttons.{IsStrip, items_len, Shows, Shows-IsStrip, update_as-Shows}

module _ {ℓ} {B : Type ℓ} (make : ℕ → B) where
  pub extend_to-Shows :
      (n_items : ℕ) (direction : Direction) (s : ThumbStrip B) (a b : ℕ)
      → IsStrip make n_items s
      → Shows make a b (extend_to make direction (some (a, b)) s)
  unfolding extend_to
  extend_to-Shows n_items direction s a b h =
      update_as-Shows make
        (classify_thumb_window_update s.thumb_window_start s.thumb_window_end a b) a b
        (record s { thumb_pending_extend = some direction }) refl
        (record { at_start = refl; at_end = refl; items = h.shown }) h.window.ordered

  -- What the extension of a strip by its own length asks for.
  pub extension : Direction → ℕ → ThumbStrip B → Option (ℕ × ℕ)
  extension direction n_items s =
      compute_extended_thumb_window direction s.thumb_window_start s.thumb_window_end n_items
        (s.thumb_window_end - s.thumb_window_start)

  extend_to-IsStrip :
      (n_items : ℕ) (direction : Direction) (s : ThumbStrip B) (w : Option (ℕ × ℕ))
      → n_items ≤ u32_max
      → IsStrip make n_items s
      → extension direction n_items s ≡ w
      → IsStrip make n_items (extend_to make direction w s)
  unfolding extend_to extension
  extend_to-IsStrip n_items direction s none small h e = h
  extend_to-IsStrip n_items direction s (some (a, b)) small h e =
      Shows-IsStrip make n_items a b (extend_to make direction (some (a, b)) s)
        (extend_to-Shows n_items direction s a b h)
        (extended_window direction s.thumb_window_start s.thumb_window_end n_items a b small
          h.window e)

  -- An extension, where none in this direction is waiting, and what it does then.
  try_extend-open :
      (n_items : ℕ) (direction : Direction) (s : ThumbStrip B)
      → IsStrip make n_items s
      → same_direction s.thumb_pending_extend direction ≡ false
      → try_extend_thumb_window make n_items direction s
        ≡ extend_to make direction (extension direction n_items s) s
  unfolding try_extend_thumb_window extension
  try_extend-open n_items direction s h k = rw k (
      ap
        (λ n.
          extend_to make direction
            (compute_extended_thumb_window direction s.thumb_window_start s.thumb_window_end n_items
              n)
            s)
        (items_len make n_items s h))

  try_extend-waiting :
      (n_items : ℕ) (direction : Direction) (s : ThumbStrip B)
      → same_direction s.thumb_pending_extend direction ≡ true
      → try_extend_thumb_window make n_items direction s ≡ s
  unfolding try_extend_thumb_window
  try_extend-waiting n_items direction s k = rw k refl

  pub try_extend-IsStrip :
      (n_items : ℕ) (direction : Direction) (s : ThumbStrip B)
      → n_items ≤ u32_max
      → IsStrip make n_items s
      → IsStrip make n_items (try_extend_thumb_window make n_items direction s)
  try_extend-IsStrip n_items direction s small h =
      elim (Bool-cases (same_direction s.thumb_pending_extend direction)) [
        | inl k ↦ subst (IsStrip make n_items) (sym (try_extend-waiting n_items direction s k)) h
        | inr k ↦
            subst (IsStrip make n_items) (sym (try_extend-open n_items direction s h k))
              (extend_to-IsStrip n_items direction s (extension direction n_items s) small h refl)
      ]

  -- A strip with the current photo in its window.
  pub record HasCurrent (n_items current : ℕ) (s : ThumbStrip B) : Type ℓ where
    pub strip : IsStrip make n_items s
    pub from : s.thumb_window_start ≤ current
    pub to : current < s.thumb_window_end

  extend_to-HasCurrent :
      (n_items current : ℕ) (direction : Direction) (s : ThumbStrip B) (w : Option (ℕ × ℕ))
      → n_items ≤ u32_max
      → HasCurrent n_items current s
      → compute_current_thumb_extend_direction current s.thumb_window_start s.thumb_window_end
          n_items
        ≡ some direction
      → extension direction n_items s ≡ w
      → HasCurrent n_items current (extend_to make direction w s)
  unfolding extend_to extension
  extend_to-HasCurrent n_items current direction s none small h d e = h
  extend_to-HasCurrent n_items current direction s (some (a, b)) small h d e =
      let later = extend_to make direction (some (a, b)) s in
      let shows = extend_to-Shows n_items direction s a b h.strip in
      let (from, to) =
        extended_window-current direction current s.thumb_window_start s.thumb_window_end n_items a
          b small h.strip.window h.from h.to d e in
      record {
        strip = extend_to-IsStrip n_items direction s (some (a, b)) small h.strip e;
        from = omega (arith, shows.at_start, from);
        to = omega (arith, shows.at_end, to);
      }

  pub try_extend-HasCurrent :
      (n_items current : ℕ) (direction : Direction) (s : ThumbStrip B)
      → n_items ≤ u32_max
      → HasCurrent n_items current s
      → compute_current_thumb_extend_direction current s.thumb_window_start s.thumb_window_end
          n_items
        ≡ some direction
      → HasCurrent n_items current (try_extend_thumb_window make n_items direction s)
  try_extend-HasCurrent n_items current direction s small h d =
      elim (Bool-cases (same_direction s.thumb_pending_extend direction)) [
        | inl k ↦
            subst (HasCurrent n_items current) (sym (try_extend-waiting n_items direction s k)) h
        | inr k ↦
            subst (HasCurrent n_items current) (sym (try_extend-open n_items direction s h.strip k))
              (extend_to-HasCurrent n_items current direction s (extension direction n_items s)
                small h d refl)
      ]
