-- ===== src/Strip.antt =====
-- src/ui/viewer/filmstrip.rs: the window of photos that the filmstrip of the viewer holds. A button is what
-- `make_thumb_button` gives for an index of the list, with the list and the loader in place; where the
-- strip stands on the screen is not modelled.
pub mod Window
pub mod Buttons
pub mod Extend
pub mod Refresh
mod Examples
use photo_viewer.Base.{
  ℕ, zero, suc, ◌+◌, ◌-◌, ◌*◌, ◌/◌, Bool, true, false, ◌&&◌, ◌||◌, not, Option, none, some, List,
  [], ◌∷◌, ◌++◌, ltb, leb, ◌==◌, if◌then◌else◌, min, max, length,
}
use photo_viewer.Base.U32.{saturating_add}

abbrev pub thumb_initial_half : ℕ
thumb_initial_half = 5

abbrev pub thumb_default_window_len : ℕ
thumb_default_window_len = 2 * thumb_initial_half + 1

abbrev pub thumb_lazy_half : ℕ
thumb_lazy_half = 4

abbrev pub thumb_window_max : ℕ
thumb_window_max = 40

unfoldable pub should_retry_thumb_centering : Bool → Bool → Bool → ℕ → Bool
should_retry_thumb_centering applied transform_moved request_pending attempts_remaining =
    ltb 0 attempts_remaining && (not applied || transform_moved || request_pending)

abbrev pub clamp : ℕ → ℕ → ℕ → ℕ
clamp low high n = min high (max low n)

unfoldable pub compute_initial_thumb_window_for_len : ℕ → ℕ → ℕ → ℕ × ℕ
compute_initial_thumb_window_for_len current n_items target_len =
    let len = min (clamp 1 thumb_window_max target_len) n_items in
    let end = min (saturating_add (current - len / 2) len) n_items in
    let start = end - len in
    if n_items == 0 then (0, 0) else (start, min (saturating_add start len) n_items)

unfoldable pub compute_initial_thumb_window : ℕ → ℕ → ℕ × ℕ
compute_initial_thumb_window current n_items =
    compute_initial_thumb_window_for_len current n_items thumb_default_window_len

-- `-1` and `1`
pub data Direction : Type 0 where
  left : Direction
  right : Direction

abbrev pub same_direction : Option Direction → Direction → Bool
same_direction none direction = false
same_direction (some left) left = true
same_direction (some left) right = false
same_direction (some right) left = false
same_direction (some right) right = true

unfoldable pub compute_extended_thumb_window : Direction → ℕ → ℕ → ℕ → ℕ → Option (ℕ × ℕ)
compute_extended_thumb_window left start end n_items items_len =
    let new_start = start - thumb_lazy_half in
    if new_start == start
    then none
    else some (new_start, if leb thumb_window_max items_len then end - (start - new_start) else end)
compute_extended_thumb_window right start end n_items items_len =
    let new_end = min (saturating_add end thumb_lazy_half) n_items in
    if new_end == end
    then none
    else some (
      if leb thumb_window_max items_len then saturating_add start (new_end - end) else start,
      new_end,
    )

pub data ThumbWindowUpdateKind : Type 0 where
  append_right : ThumbWindowUpdateKind
  prepend_left : ThumbWindowUpdateKind
  rebuild_all : ThumbWindowUpdateKind

unfoldable pub classify_thumb_window_update : ℕ → ℕ → ℕ → ℕ → ThumbWindowUpdateKind
classify_thumb_window_update old_start old_end new_start new_end =
    if old_start == new_start && ltb old_end new_end
    then append_right
    else if old_end == new_end && ltb new_start old_start
    then prepend_left
    else rebuild_all

abbrev pub direction_of : Bool → Bool → ℕ → ℕ → Option Direction
direction_of true true left_remaining right_remaining =
    if leb left_remaining right_remaining then some left else some right
direction_of true false left_remaining right_remaining = some left
direction_of false true left_remaining right_remaining = some right
direction_of false false left_remaining right_remaining = none

unfoldable pub compute_current_thumb_extend_direction : ℕ → ℕ → ℕ → ℕ → Option Direction
compute_current_thumb_extend_direction current start end n_items =
    let left_remaining = current - start in
    let right_remaining = end - current - 1 in
    if ltb current start || leb end current || leb end start
    then none
    else direction_of (leb left_remaining thumb_lazy_half && ltb 0 start)
        (leb right_remaining thumb_lazy_half && ltb end n_items) left_remaining right_remaining

pub record ThumbStrip {ℓ} (B : Type ℓ) : Type ℓ where
  thumb_window_start : ℕ
  thumb_window_end : ℕ
  thumb_items : List B
  thumb_pending_extend : Option Direction

abbrev pub in_window {ℓ} : {B : Type ℓ} → ℕ → ThumbStrip B → Bool
in_window current s =
    ltb s.thumb_window_start s.thumb_window_end
    && leb s.thumb_window_start current
    && ltb current s.thumb_window_end

module _ {ℓ} {B : Type ℓ} (make_thumb_button : ℕ → B) where
  -- The buttons of so many indices.
  abbrev pub buttons : ℕ → ℕ → List B
  buttons start zero = []
  buttons start (suc n) = make_thumb_button start ∷ buttons (start + 1) n

  unfoldable pub rebuild_thumb_strip : ℕ → ℕ → ThumbStrip B → ThumbStrip B
  rebuild_thumb_strip start end s = record s {
    thumb_window_start = start;
    thumb_window_end = end;
    thumb_items = buttons start (end - start);
  }

  unfoldable pub append_thumb_strip_items : ℕ → ℕ → ThumbStrip B → ThumbStrip B
  append_thumb_strip_items append_start append_end s =
      if not (append_start == s.thumb_window_end) || leb append_end append_start
      then rebuild_thumb_strip s.thumb_window_start (max append_end s.thumb_window_end) s
      else record s {
        thumb_window_end = append_end;
        thumb_items = s.thumb_items ++ buttons append_start (append_end - append_start);
      }

  unfoldable pub prepend_thumb_strip_items : ℕ → ℕ → ThumbStrip B → ThumbStrip B
  prepend_thumb_strip_items prepend_start prepend_end s =
      if not (prepend_end == s.thumb_window_start) || leb prepend_end prepend_start
      then rebuild_thumb_strip (min prepend_start s.thumb_window_start) s.thumb_window_end s
      else record s {
        thumb_window_start = prepend_start;
        thumb_items = buttons prepend_start (prepend_end - prepend_start) ++ s.thumb_items;
      }

  abbrev pub update_as : ThumbWindowUpdateKind → ℕ → ℕ → ThumbStrip B → ThumbStrip B
  update_as append_right new_start new_end s = append_thumb_strip_items s.thumb_window_end new_end s
  update_as prepend_left new_start new_end s =
      prepend_thumb_strip_items new_start s.thumb_window_start s
  update_as rebuild_all new_start new_end s = rebuild_thumb_strip new_start new_end s

  abbrev pub extend_to : Direction → Option (ℕ × ℕ) → ThumbStrip B → ThumbStrip B
  unfolding classify_thumb_window_update
  extend_to direction none s = s
  extend_to direction (some (new_start, new_end)) s =
      update_as
        (classify_thumb_window_update s.thumb_window_start s.thumb_window_end new_start new_end)
        new_start new_end (record s { thumb_pending_extend = some direction })

  -- With the length of the list.
  unfoldable pub try_extend_thumb_window : ℕ → Direction → ThumbStrip B → ThumbStrip B
  unfolding extend_to
  try_extend_thumb_window n_items direction s =
      if same_direction s.thumb_pending_extend direction
      then s
      else extend_to direction
          (compute_extended_thumb_window direction s.thumb_window_start s.thumb_window_end n_items
            (length s.thumb_items))
          s

  abbrev pub extend_for : ℕ → Option Direction → ThumbStrip B → ThumbStrip B
  extend_for n_items none s = s
  extend_for n_items (some direction) s = try_extend_thumb_window n_items direction s

  unfoldable pub try_extend_thumb_window_for_current : ℕ → ℕ → ThumbStrip B → ThumbStrip B
  try_extend_thumb_window_for_current n_items current s =
      extend_for n_items
        (compute_current_thumb_extend_direction current s.thumb_window_start s.thumb_window_end
          n_items)
        s

  unfoldable pub load_initial_thumb_window : ℕ → ℕ → ThumbStrip B → ThumbStrip B
  load_initial_thumb_window n_items current s =
      let (start, end) =
        compute_initial_thumb_window_for_len current n_items thumb_default_window_len in
      if n_items == 0 then s else rebuild_thumb_strip start end s

  unfoldable pub refresh_thumb_strip : ℕ → ℕ → ThumbStrip B → ThumbStrip B
  refresh_thumb_strip n_items current s =
      try_extend_thumb_window_for_current n_items current
        (if in_window current s then s else load_initial_thumb_window n_items current s)
