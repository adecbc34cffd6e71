-- ===== src/Strip/Window.antt =====
-- The buttons of the filmstrip are those of its window.
use photo_viewer.Base.{ℕ, ◌+◌, ◌-◌, ◌≤◌, ◌<◌, ◌≡◌, some, arith}
use photo_viewer.Base.U32.{u32_max}
use photo_viewer.Strip.{
  thumb_default_window_len, compute_initial_thumb_window_for_len, Direction, left, right,
  compute_extended_thumb_window, compute_current_thumb_extend_direction,
}

-- A window in a list of `n_items`. Growing by four, it passes the limit of 40 by three at most.
pub record IsWindow (n_items start end : ℕ) : Type 0 where
  pub ordered : start ≤ end
  pub within : end ≤ n_items
  pub bounded : end ≤ start + 43

pub extended_window :
    (direction : Direction) (start end n_items a b : ℕ)
    → n_items ≤ u32_max
    → IsWindow n_items start end
    → compute_extended_thumb_window direction start end n_items (end - start) ≡ some (a, b)
    → IsWindow n_items a b
unfolding compute_extended_thumb_window
extended_window left start end n_items a b small h e = record {
  ordered = ground (arith, h.ordered, h.within, h.bounded);
  within = ground (arith, h.ordered, h.within, h.bounded);
  bounded = ground (arith, h.ordered, h.within, h.bounded);
}
extended_window right start end n_items a b small h e = record {
  ordered = ground (arith, h.ordered, h.within, h.bounded);
  within = ground (arith, h.ordered, h.within, h.bounded);
  bounded = ground (arith, h.ordered, h.within, h.bounded);
}

pub initial_window :
    (current n_items : ℕ)
    → n_items ≤ u32_max
    → let w = compute_initial_thumb_window_for_len current n_items thumb_default_window_len in
      IsWindow n_items (w.0) (w.1)
unfolding compute_initial_thumb_window_for_len
initial_window current n_items small = record {
  ordered = ground arith;
  within = ground arith;
  bounded = ground arith;
}

pub initial_window-current :
    (current n_items : ℕ)
    → n_items ≤ u32_max
    → current < n_items
    → let w = compute_initial_thumb_window_for_len current n_items thumb_default_window_len in
      (w.0 ≤ current) × (current < w.1)
unfolding compute_initial_thumb_window_for_len
initial_window-current current n_items small h = (ground arith, ground arith)

-- An extension for the current photo keeps it in the window.
pub extended_window-current :
    (direction : Direction) (current start end n_items a b : ℕ)
    → n_items ≤ u32_max
    → IsWindow n_items start end
    → start ≤ current
    → current < end
    → compute_current_thumb_extend_direction current start end n_items ≡ some direction
    → compute_extended_thumb_window direction start end n_items (end - start) ≡ some (a, b)
    → (a ≤ current) × (current < b)
unfolding compute_extended_thumb_window compute_current_thumb_extend_direction
extended_window-current left current start end n_items a b small h k l d e =
    (ground (arith, h.ordered, h.within, h.bounded), ground (arith, h.ordered, h.within, h.bounded))
extended_window-current right current start end n_items a b small h k l d e =
    (ground (arith, h.ordered, h.within, h.bounded), ground (arith, h.ordered, h.within, h.bounded))
