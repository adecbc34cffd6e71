-- ===== src/Thumbnails/Queue/Live.antt =====
-- The queue: every queued request has its item in the heap, and the items are taken by tier.
use photo_viewer.Base.{
  ℕ, zero, suc, ◌≤◌, ◌≡◌, refl, inl, inr, Bool, true, false, Option, none, some, List, [], leb,
  arith, if◌then◌else◌, Bool-cases, length, subst, sym,
}
use photo_viewer.Base.Text.{Text, text_eq_iff}
use photo_viewer.Base.Map.{get, remove, size, get-insert, get-remove}
use photo_viewer.Thumbnails.Queue.{
  PriItem, QueuedEntry, QueueState, pop_min, pop_current, is_current, tier_is, push_entry, next_seq,
  enqueue,
}
use photo_viewer.Thumbnails.Queue.Heap.{heap_has, IsLeast, pop_min-nil, pop_min-cases}

-- Whether a request is queued at a tier.
abbrev pub queued_at : Text → ℕ → QueueState → Bool
queued_at key tier q = tier_is tier (get key q.queued)

pub record IsLive (q : QueueState) : Type 0 where
  pub covered :
      (key : Text) (tier : ℕ) → queued_at key tier q ≡ true → heap_has key tier q.heap ≡ true

pop_current-empty :
    (fuel : ℕ) (q : QueueState)
    → q.closed ≡ false
    → q.heap ≡ []
    → pop_current (suc fuel) q ≡ (none, q)
unfolding pop_current
pop_current-empty fuel q open_ e = ground (arith, open_, e, pop_min-nil)

pub pop_current-closed :
    (fuel : ℕ) (q : QueueState) → q.closed ≡ true → pop_current fuel q ≡ (none, q)
unfolding pop_current
pop_current-closed zero q h = refl
pop_current-closed (suc fuel) q h = rw h

pop_current-step :
    (fuel : ℕ) (q : QueueState) (item : PriItem) (others : List PriItem)
    → q.closed ≡ false
    → pop_min q.heap ≡ some (item, others)
    → pop_current (suc fuel) q ≡ (
        if is_current q item
        then (some item, record q { heap = others; queued = remove item.cache_key q.queued })
        else pop_current fuel (record q { heap = others }))
unfolding pop_current
pop_current-step fuel q item others open_ e = ground (arith, open_, e)

pop_current-current :
    (fuel : ℕ) (q : QueueState) (item : PriItem) (others : List PriItem)
    → q.closed ≡ false
    → pop_min q.heap ≡ some (item, others)
    → is_current q item ≡ true
    → pop_current (suc fuel) q
      ≡ (some item, record q { heap = others; queued = remove item.cache_key q.queued })
pop_current-current fuel q item others open_ e h =
    ground (arith, pop_current-step fuel q item others open_ e)

pop_current-stale :
    (fuel : ℕ) (q : QueueState) (item : PriItem) (others : List PriItem)
    → q.closed ≡ false
    → pop_min q.heap ≡ some (item, others)
    → is_current q item ≡ false
    → pop_current (suc fuel) q ≡ pop_current fuel (record q { heap = others })
pop_current-stale fuel q item others open_ e h =
    ground (arith, pop_current-step fuel q item others open_ e)

-- What is taken from a queue.
pub record IsTaken (q : QueueState) (item : PriItem) (after : QueueState) : Type 0 where
  pub current : queued_at item.cache_key item.tier q ≡ true
  pub first : (key : Text) (tier : ℕ) → queued_at key tier q ≡ true → item.tier ≤ tier
  pub dequeued : after.queued ≡ remove item.cache_key q.queued
  pub live : IsLive after
  pub same_seq : after.seq ≡ q.seq

pub record IsDrained (q after : QueueState) : Type 0 where
  pub no_more : (key : Text) (tier : ℕ) → queued_at key tier q ≡ false
  pub no_items : after.heap ≡ []
  pub same_queued : after.queued ≡ q.queued

abbrev pub Popped : QueueState → Option PriItem × QueueState → Type 0
Popped q (none, after) = IsDrained q after
Popped q (some item, after) = IsTaken q item after

current-IsTaken :
    (q : QueueState) (item : PriItem) (others : List PriItem)
    → IsLive q
    → IsLeast q.heap item others
    → is_current q item ≡ true
    → IsTaken q item (record q { heap = others; queued = remove item.cache_key q.queued })
current-IsTaken q item others live least h = record {
  current = h;
  first = λ key tier at. least.below key tier (live.covered key tier at);
  dequeued = refl;
  live = record {
    covered = λ key tier at. ground (
      arith,
      least.split key tier,
      live.covered key tier,
      get-remove key item.cache_key q.queued,
    );
  };
  same_seq = refl;
}

stale-IsLive :
    (q : QueueState) (item : PriItem) (others : List PriItem)
    → IsLive q
    → IsLeast q.heap item others
    → is_current q item ≡ false
    → IsLive (record q { heap = others })
stale-IsLive q item others live least h = record {
  covered = λ key tier at.
      ground
        (arith, least.split key tier, live.covered key tier at, text_eq_iff item.cache_key key);
}

drained : (q : QueueState) → IsLive q → q.heap ≡ [] → IsDrained q q
drained q live e = record {
  no_more = λ key tier. ground (arith, live.covered key tier);
  no_items = e;
  same_queued = refl;
}

from_stale :
    (q : QueueState) (others : List PriItem) (result : Option PriItem × QueueState)
    → Popped (record q { heap = others }) result
    → Popped q result
from_stale q others (none, after) p = record {
  no_more = p.no_more;
  no_items = p.no_items;
  same_queued = p.same_queued;
}
from_stale q others (some item, after) p = record {
  current = p.current;
  first = p.first;
  dequeued = p.dequeued;
  live = p.live;
  same_seq = p.same_seq;
}

-- With fuel for every item of the heap, an open queue whose queued requests have their items gives
-- one of them: no queued request has a smaller tier than the one taken, its key leaves the map and
-- no other does, and the rest can still be taken. It gives none only when nothing is queued.
pub pop_current_lem :
    (fuel : ℕ) (q : QueueState)
    → length q.heap ≤ fuel
    → q.closed ≡ false
    → IsLive q
    → Popped q (pop_current (suc fuel) q)
pop_current_lem zero q enough open_ live = elim (pop_min-cases q.heap) [
  | inl e ↦ subst (Popped q) (sym (pop_current-empty 0 q open_ e)) (drained q live e)
  | inr (item, others, e, least) ↦ absurd (omega (arith, least.fewer))
]
pop_current_lem (suc fuel) q enough open_ live = elim (pop_min-cases q.heap) [
  | inl e ↦ subst (Popped q) (sym (pop_current-empty (suc fuel) q open_ e)) (drained q live e)
  | inr (item, others, e, least) ↦ elim (Bool-cases (is_current q item)) [
    | inl current ↦
        subst (Popped q) (sym (pop_current-current (suc fuel) q item others open_ e current))
          (current-IsTaken q item others live least current)
    | inr stale ↦
        subst (Popped q) (sym (pop_current-stale (suc fuel) q item others open_ e stale)) (
          from_stale q others (pop_current (suc fuel) (record q { heap = others })) (
            pop_current_lem fuel (record q { heap = others }) (omega (arith, least.fewer)) open_
              (stale-IsLive q item others live least stale)))
  ]
]

-- What is kept by the ways in.
pub push_entry-IsLive :
    (key : Text) (seq : ℕ) (entry : QueuedEntry) (q : QueueState)
    → IsLive q
    → IsLive (push_entry key seq entry q)
unfolding push_entry
push_entry-IsLive key seq entry q live = record {
  covered = λ k tier at.
      ground (arith, live.covered k tier, get-insert k key entry q.queued, text_eq_iff key k);
}

pub enqueue-full :
    (capacity : ℕ) (key : Text) (entry : QueuedEntry) (q : QueueState)
    → leb capacity (size q.queued) ≡ true
    → enqueue capacity key entry q ≡ (false, q)
unfolding enqueue
enqueue-full capacity key entry q h = rw h

pub enqueue-room :
    (capacity : ℕ) (key : Text) (entry : QueuedEntry) (q : QueueState)
    → leb capacity (size q.queued) ≡ false
    → enqueue capacity key entry q
      ≡ (true, push_entry key (next_seq q.seq) entry (record q { seq = next_seq q.seq }))
unfolding enqueue
enqueue-room capacity key entry q h = rw h

pub enqueue-IsLive :
    (capacity : ℕ) (key : Text) (entry : QueuedEntry) (q : QueueState)
    → IsLive q
    → IsLive ((enqueue capacity key entry q).1)
enqueue-IsLive capacity key entry q live = elim (Bool-cases (leb capacity (size q.queued))) [
  | inl full ↦ subst (λ r. IsLive (r.1)) (sym (enqueue-full capacity key entry q full)) live
  | inr room ↦
      subst (λ r. IsLive (r.1)) (sym (enqueue-room capacity key entry q room))
        (push_entry-IsLive key (next_seq q.seq) entry (record q { seq = next_seq q.seq })
          (record { covered = live.covered }))
]
