-- ===== src/Strip/Refresh.antt =====
-- The filmstrip after any events, and after it was refreshed for a photo.
use photo_viewer.Base.{
  ℕ, ◌≤◌, ◌<◌, ◌≡◌, refl, Bool, true, false, Option, none, some, List, [], ◌∷◌, ◌==◌, if◌then◌else◌,
  arith,
}
use photo_viewer.Base.U32.{u32_max}
use photo_viewer.Strip.{
  thumb_default_window_len, compute_initial_thumb_window_for_len, Direction,
  compute_current_thumb_extend_direction, ThumbStrip, rebuild_thumb_strip, try_extend_thumb_window,
  extend_for, try_extend_thumb_window_for_current, load_initial_thumb_window, in_window,
  refresh_thumb_strip,
}
use photo_viewer.Strip.Window.{initial_window, initial_window-current}
use photo_viewer.Strip.Buttons.{IsStrip, Shows-IsStrip, rebuild-Shows}
use photo_viewer.Strip.Extend.{HasCurrent, try_extend-IsStrip, try_extend-HasCurrent}

-- What happens to the strip: a photo is shown, the user scrolls to an end, or the main loop is idle.
pub data StripEvent : Type 0 where
  refreshed : ℕ → StripEvent
  scrolled : Direction → StripEvent
  idle : StripEvent

eq_far : (a b : ℕ) → b < a → (a == b) ≡ false
eq_far a b h = ground arith

module _ {ℓ} {B : Type ℓ} (make : ℕ → B) where
  abbrev pub empty_strip : ThumbStrip B
  empty_strip = record {
    thumb_window_start = 0;
    thumb_window_end = 0;
    thumb_items = [];
    thumb_pending_extend = none;
  }

  abbrev pub strip_event : ℕ → StripEvent → ThumbStrip B → ThumbStrip B
  strip_event n_items (refreshed current) s = refresh_thumb_strip make n_items current s
  strip_event n_items (scrolled direction) s = try_extend_thumb_window make n_items direction s
  strip_event n_items idle s = record s { thumb_pending_extend = none }

  abbrev pub strip_events : ℕ → List StripEvent → ThumbStrip B → ThumbStrip B
  strip_events n_items [] s = s
  strip_events n_items (e ∷ es) s = strip_events n_items es (strip_event n_items e s)

  extend_for-IsStrip :
      (n_items : ℕ) (d : Option Direction) (s : ThumbStrip B)
      → n_items ≤ u32_max
      → IsStrip make n_items s
      → IsStrip make n_items (extend_for make n_items d s)
  extend_for-IsStrip n_items none s small h = h
  extend_for-IsStrip n_items (some direction) s small h =
      try_extend-IsStrip make n_items direction s small h

  extend_for-HasCurrent :
      (n_items current : ℕ) (d : Option Direction) (s : ThumbStrip B)
      → n_items ≤ u32_max
      → HasCurrent make n_items current s
      → compute_current_thumb_extend_direction current s.thumb_window_start s.thumb_window_end
          n_items
        ≡ d
      → HasCurrent make n_items current (extend_for make n_items d s)
  extend_for-HasCurrent n_items current none s small h e = h
  extend_for-HasCurrent n_items current (some direction) s small h e =
      try_extend-HasCurrent make n_items current direction s small h e

  load_initial-IsStrip :
      (n_items current : ℕ) (s : ThumbStrip B)
      → n_items ≤ u32_max
      → IsStrip make n_items s
      → IsStrip make n_items (load_initial_thumb_window make n_items current s)
  unfolding load_initial_thumb_window
  load_initial-IsStrip n_items current s small h =
      let (start, end) =
        compute_initial_thumb_window_for_len current n_items thumb_default_window_len in
      loaded (n_items == 0)
    where
      loaded :
          (b : Bool)
          → IsStrip make n_items (
              if b
              then s
              else rebuild_thumb_strip make
                  ((compute_initial_thumb_window_for_len current n_items
                    thumb_default_window_len).0)
                  ((compute_initial_thumb_window_for_len current n_items
                    thumb_default_window_len).1)
                  s)
      loaded true = h
      loaded false =
          Shows-IsStrip make n_items _ _ _ (rebuild-Shows make _ _ s)
            (initial_window current n_items small)

  load_initial-HasCurrent :
      (n_items current : ℕ) (s : ThumbStrip B)
      → n_items ≤ u32_max
      → current < n_items
      → IsStrip make n_items s
      → HasCurrent make n_items current (load_initial_thumb_window make n_items current s)
  unfolding load_initial_thumb_window rebuild_thumb_strip
  load_initial-HasCurrent n_items current s small lt h =
      let (from, to) = initial_window-current current n_items small lt in
      record {
        strip = load_initial-IsStrip n_items current s small h;
        from = rw (eq_far n_items 0 (omega arith)) from;
        to = rw (eq_far n_items 0 (omega arith)) to;
      }

  refresh_thumb_strip-IsStrip :
      (n_items current : ℕ) (s : ThumbStrip B)
      → n_items ≤ u32_max
      → IsStrip make n_items s
      → IsStrip make n_items (refresh_thumb_strip make n_items current s)
  unfolding refresh_thumb_strip try_extend_thumb_window_for_current
  refresh_thumb_strip-IsStrip n_items current s small h =
      extend_for-IsStrip n_items _ _ small (kept (in_window current s))
    where
      kept :
          (b : Bool)
          → IsStrip make n_items (if b then s else load_initial_thumb_window make n_items current s)
      kept true = h
      kept false = load_initial-IsStrip n_items current s small h

  -- After a refresh for a photo of the list, on a strip whose buttons are those of a window of the list,
  -- this photo is in the window, and the buttons are those of the window.
  pub refresh_thumb_strip-HasCurrent :
      (n_items current : ℕ) (s : ThumbStrip B)
      → n_items ≤ u32_max
      → current < n_items
      → IsStrip make n_items s
      → HasCurrent make n_items current (refresh_thumb_strip make n_items current s)
  unfolding refresh_thumb_strip try_extend_thumb_window_for_current
  refresh_thumb_strip-HasCurrent n_items current s small lt h =
      extend_for-HasCurrent n_items current _ _ small (kept (in_window current s) refl) refl
    where
      kept :
          (b : Bool)
          → in_window current s ≡ b
          → HasCurrent make n_items current
              (if b then s else load_initial_thumb_window make n_items current s)
      kept true e = record { strip = h; from = ground arith; to = ground arith }
      kept false e = load_initial-HasCurrent n_items current s small lt h

  event-IsStrip :
      (n_items : ℕ) (e : StripEvent) (s : ThumbStrip B)
      → n_items ≤ u32_max
      → IsStrip make n_items s
      → IsStrip make n_items (strip_event n_items e s)
  event-IsStrip n_items (refreshed current) s small h =
      refresh_thumb_strip-IsStrip n_items current s small h
  event-IsStrip n_items (scrolled direction) s small h =
      try_extend-IsStrip make n_items direction s small h
  event-IsStrip n_items idle s small h = record { window = h.window; shown = h.shown }

  events-IsStrip :
      (n_items : ℕ) (es : List StripEvent) (s : ThumbStrip B)
      → n_items ≤ u32_max
      → IsStrip make n_items s
      → IsStrip make n_items (strip_events n_items es s)
  events-IsStrip n_items [] s small h = h
  events-IsStrip n_items (e ∷ es) s small h =
      events-IsStrip n_items es (strip_event n_items e s) small (event-IsStrip n_items e s small h)

  -- The filmstrip of a list of photos whose number fits in u32, whatever is shown and scrolled: its
  -- buttons are those of the indices of its window and no others, in order, the window lies in the list,
  -- and it has at most 43 photos.
  pub strip_events-IsStrip :
      (n_items : ℕ) (es : List StripEvent)
      → n_items ≤ u32_max
      → IsStrip make n_items (strip_events n_items es empty_strip)
  strip_events-IsStrip n_items es small = events-IsStrip n_items es empty_strip small (record {
    window = record { ordered = omega arith; within = omega arith; bounded = omega arith };
    shown = refl;
  })
