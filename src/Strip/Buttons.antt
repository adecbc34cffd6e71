-- ===== src/Strip/Buttons.antt =====
-- The buttons of the filmstrip are those of its window, whatever is scrolled or shown.
use photo_viewer.Base.{
  ℕ, zero, suc, ◌+◌, ◌-◌, ◌≤◌, ◌<◌, ◌≡◌, refl, sym, ap, ◌∙◌, true, ◌∷◌, ◌++◌, ◌==◌, arith, length,
  subst, lt→not-leb,
}
use photo_viewer.Strip.{
  classify_thumb_window_update, ThumbWindowUpdateKind, append_right, prepend_left, rebuild_all,
  ThumbStrip, buttons, rebuild_thumb_strip, append_thumb_strip_items, prepend_thumb_strip_items,
  update_as,
}
use photo_viewer.Strip.Window.{IsWindow}

suc_sum : (m k : ℕ) → suc m + k ≡ suc (m + k)
suc_sum m k = omega arith

eq_same : (a : ℕ) → (a == a) ≡ true
eq_same a = ground arith

module _ {ℓ} {B : Type ℓ} (make : ℕ → B) where
  length-buttons : (start n : ℕ) → length (buttons make start n) ≡ n
  length-buttons start zero = refl
  length-buttons start (suc n) = omega (arith, length-buttons (start + 1) n)

  buttons-append :
      (start m k next : ℕ)
      → next ≡ start + m
      → buttons make start m ++ buttons make next k ≡ buttons make start (m + k)
  buttons-append start zero k next e =
      let here : next ≡ start = omega arith in
      let same : k ≡ 0 + k = omega arith in
      ap (λ i. buttons make i k) here ∙ ap (buttons make start) same
  buttons-append start (suc m) k next e =
      ap (λ bs. make start ∷ bs) (buttons-append (start + 1) m k next (omega arith))
      ∙ ap (buttons make start) (sym (suc_sum m k))

  -- The buttons are those of the window, in order.
  pub record IsStrip (n_items : ℕ) (s : ThumbStrip B) : Type ℓ where
    pub window : IsWindow n_items s.thumb_window_start s.thumb_window_end
    pub shown :
        s.thumb_items
        ≡ buttons make s.thumb_window_start (s.thumb_window_end - s.thumb_window_start)

  pub items_len :
      (n_items : ℕ) (s : ThumbStrip B)
      → IsStrip n_items s
      → length s.thumb_items ≡ s.thumb_window_end - s.thumb_window_start
  items_len n_items s h =
      ap length h.shown
      ∙ length-buttons s.thumb_window_start (s.thumb_window_end - s.thumb_window_start)

  -- A strip that shows a window, in the state it has otherwise.
  pub record Shows (start end : ℕ) (s : ThumbStrip B) : Type ℓ where
    pub at_start : s.thumb_window_start ≡ start
    pub at_end : s.thumb_window_end ≡ end
    pub items : s.thumb_items ≡ buttons make start (end - start)

  pub Shows-IsStrip :
      (n_items start end : ℕ) (s : ThumbStrip B)
      → Shows start end s
      → IsWindow n_items start end
      → IsStrip n_items s
  Shows-IsStrip n_items start end s h w = record {
    window = record {
      ordered = omega (arith, h.at_start, h.at_end, w.ordered);
      within = omega (arith, h.at_end, w.within);
      bounded = omega (arith, h.at_start, h.at_end, w.bounded);
    };
    shown =
        h.items
        ∙ ap (λ i. buttons make i (end - start)) (sym h.at_start)
        ∙ ap (buttons make s.thumb_window_start) (omega (arith, h.at_start, h.at_end));
  }

  pub rebuild-Shows :
      (start end : ℕ) (s : ThumbStrip B) → Shows start end (rebuild_thumb_strip make start end s)
  unfolding rebuild_thumb_strip
  rebuild-Shows start end s = record { at_start = refl; at_end = refl; items = refl }

  append-Shows :
      (a b : ℕ) (s : ThumbStrip B)
      → Shows a s.thumb_window_end s
      → a ≤ s.thumb_window_end
      → s.thumb_window_end < b
      → Shows a b (append_thumb_strip_items make s.thumb_window_end b s)
  unfolding append_thumb_strip_items
  append-Shows a b s h le lt =
      let end = s.thumb_window_end in
      rw (eq_same end, lt→not-leb b end lt)
        (record {
          at_start = h.at_start;
          at_end = refl;
          items =
              ap (λ bs. bs ++ buttons make end (b - end)) h.items
              ∙ buttons-append a (end - a) (b - end) end (omega arith)
              ∙ ap (buttons make a) (omega (arith, le, lt));
        })

  prepend-Shows :
      (a b : ℕ) (s : ThumbStrip B)
      → Shows s.thumb_window_start b s
      → s.thumb_window_start ≤ b
      → a < s.thumb_window_start
      → Shows a b (prepend_thumb_strip_items make a s.thumb_window_start s)
  unfolding prepend_thumb_strip_items
  prepend-Shows a b s h le lt =
      let start = s.thumb_window_start in
      rw (eq_same start, lt→not-leb start a lt)
        (record {
          at_start = refl;
          at_end = h.at_end;
          items =
              ap (λ bs. buttons make a (start - a) ++ bs) h.items
              ∙ buttons-append a (start - a) (b - start) start (omega arith)
              ∙ ap (buttons make a) (omega (arith, le, lt));
        })

  -- Whatever way the update is made, the strip then shows the new window.
  pub update_as-Shows :
      (kind : ThumbWindowUpdateKind) (a b : ℕ) (s : ThumbStrip B)
      → classify_thumb_window_update s.thumb_window_start s.thumb_window_end a b ≡ kind
      → Shows s.thumb_window_start s.thumb_window_end s
      → s.thumb_window_start ≤ s.thumb_window_end
      → Shows a b (update_as make kind a b s)
  unfolding classify_thumb_window_update
  update_as-Shows append_right a b s e h le =
      subst (λ x. Shows x b (append_thumb_strip_items make s.thumb_window_end b s)) (ground arith)
        (append-Shows s.thumb_window_start b s h le (ground arith))
  update_as-Shows prepend_left a b s e h le =
      subst (λ x. Shows a x (prepend_thumb_strip_items make a s.thumb_window_start s))
        (ground arith) (prepend-Shows a s.thumb_window_end s h le (ground arith))
  update_as-Shows rebuild_all a b s e h le = rebuild-Shows a b s
