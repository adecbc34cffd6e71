-- ===== src/Thumbnails/Queue/Capacity.antt =====
-- How many requests are queued, after each operation of the queue.
use photo_viewer.Base.{
  ℕ, zero, suc, ◌≤◌, List, [], ◌∷◌, leb, ◌==◌, arith, Bool-cases, Option-cases, inl, inr,
}
use photo_viewer.Base.Text.{Text}
use photo_viewer.Base.Map.{get, size, size-insert, size-remove, size-insert_present}
use photo_viewer.Thumbnails.Queue.{
  QueuedEntry, QueueState, push_entry, enqueue, pop_min, pop_current, tier_boost, prioritize_key,
  prioritize_keys,
}
use photo_viewer.Thumbnails.Queue.Live.{enqueue-full, enqueue-room}
use photo_viewer.Thumbnails.Queue.Boost.{
  boosted, prioritize_key-absent, prioritize_key-boost, prioritize_key-raised,
}

abbrev pub Fits : ℕ → QueueState → Type 0
Fits capacity q = size q.queued ≤ capacity

pub enqueue-Fits :
    (capacity ceiling : ℕ) (key : Text) (entry : QueuedEntry) (q : QueueState)
    → capacity ≤ ceiling
    → Fits ceiling q
    → Fits ceiling ((enqueue capacity key entry q).1)
unfolding push_entry
enqueue-Fits capacity ceiling key entry q within fits =
    elim (Bool-cases (leb capacity (size q.queued))) [
      | inl full ↦ rw (enqueue-full capacity key entry q full) fits
      | inr room ↦
          rw (enqueue-room capacity key entry q room)
            (ground (arith, size-insert key entry q.queued))
    ]

pub pop_current-Fits :
    (capacity fuel : ℕ) (q : QueueState) → Fits capacity q → Fits capacity ((pop_current fuel q).1)
unfolding pop_current
pop_current-Fits capacity zero q fits = fits
pop_current-Fits capacity (suc fuel) q fits = elim (Bool-cases q.closed) [
  | inl shut ↦ rw shut fits
  | inr open_ ↦ elim (Option-cases (pop_min q.heap)) [
    | inl e ↦ rw (open_, e) fits
    | inr ((item, others), e) ↦ ground (
      arith,
      open_,
      e,
      pop_current-Fits capacity fuel (record q { heap = others }),
      size-remove item.cache_key q.queued,
    )
  ]
]

prioritize_key-Fits :
    (capacity : ℕ) (key : Text) (q : QueueState)
    → Fits capacity q
    → Fits capacity (prioritize_key key q)
unfolding push_entry
prioritize_key-Fits capacity key q fits = elim (Option-cases (get key q.queued)) [
  | inl e ↦ rw (prioritize_key-absent key q e) fits
  | inr (entry, e) ↦ elim (Bool-cases (entry.tier == tier_boost)) [
    | inl h ↦ rw (prioritize_key-boost key q entry e h) fits
    | inr h ↦
        rw (prioritize_key-raised key q entry e h)
          (omega (arith, size-insert_present key (boosted entry) q.queued (ground (arith, e))))
  ]
]

pub prioritize_keys-Fits :
    (capacity : ℕ) (keys : List Text) (q : QueueState)
    → Fits capacity q
    → Fits capacity (prioritize_keys keys q)
unfolding prioritize_keys
prioritize_keys-Fits capacity [] q fits = fits
prioritize_keys-Fits capacity (key ∷ rest) q fits =
    prioritize_keys-Fits capacity rest (prioritize_key key q)
      (prioritize_key-Fits capacity key q fits)
