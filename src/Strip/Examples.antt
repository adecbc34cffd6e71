-- ===== src/Strip/Examples.antt =====
-- A filmstrip that grows to its limit and slides on.
use photo_viewer.Base.{List, [], ◌∷◌, arith}
use photo_viewer.Strip.{right, left, refresh_thumb_strip}
use photo_viewer.Strip.Buttons.{IsStrip}
use photo_viewer.Strip.Extend.{HasCurrent}
use photo_viewer.Strip.Refresh.{
  StripEvent, refreshed, scrolled, idle, empty_strip, strip_events, strip_events-IsStrip,
  refresh_thumb_strip-HasCurrent,
}

abbrev browsed : List StripEvent
browsed = refreshed 50 ∷ idle ∷ scrolled right ∷ idle ∷ refreshed 60 ∷ scrolled left ∷ []

strip_events-IsStrip_example :
    IsStrip (λ i. i) 100 (strip_events (λ i. i) 100 browsed (empty_strip (λ i. i)))
strip_events-IsStrip_example = strip_events-IsStrip (λ i. i) 100 browsed (omega arith)

refresh_thumb_strip-HasCurrent_example :
    HasCurrent
      (λ i. i)
      100
      7
      (refresh_thumb_strip
        (λ i. i)
        100
        7
        (strip_events (λ i. i) 100 browsed (empty_strip (λ i. i))))
refresh_thumb_strip-HasCurrent_example =
    refresh_thumb_strip-HasCurrent (λ i. i) 100 7
      (strip_events (λ i. i) 100 browsed (empty_strip (λ i. i))) (omega arith) (omega arith)
      (strip_events-IsStrip (λ i. i) 100 browsed (omega arith))
