-- ===== src/Thumbnails/Loader/Workers.antt =====
-- The loader: what the queue's and the workers' critical sections keep.
use photo_viewer.Base.{
  ℕ, suc, ◌≡◌, refl, Bool, true, false, Option, none, some, List, [], ◌∷◌, leb, arith, Bool-cases,
  inl, inr, subst, sym, length,
}
use photo_viewer.Base.Text.{Text, text_eq_iff}
use photo_viewer.Base.Map.{get, size, contains_key, contains-insert, contains-remove, get-remove}
use photo_viewer.Thumbnails.Queue.{
  PriItem, QueuedEntry, QueueState, push_entry, next_seq, pop_current,
}
use photo_viewer.Thumbnails.Queue.Live.{
  Popped, pop_current_lem, pop_current-closed, push_entry-IsLive, enqueue-full, enqueue-room,
}
use photo_viewer.Thumbnails.Queue.Boost.{prioritize_keys_lem}
use photo_viewer.Thumbnails.Loader.{
  LruCache, Loader, ThumbnailWaiter, find_by, entering_key, own_key, working_key, retain_active,
}
use photo_viewer.Thumbnails.Loader.Steps.{
  entered, rolled_back, finished, retained, entered_with, request_enter, request_rollback, took,
  worker_take, worker_finish, drop_orphan, cancel_waiters, cancel_cancellable_request,
  loader_prioritize,
}
use photo_viewer.Thumbnails.Loader.Threads.{count-cons, count-without}
use photo_viewer.Thumbnails.Loader.Generation.{
  IsSound, refused_enter-IsSound, admitted_enter-IsSound,
}

module _ {Cache Thumb : Type 0} (lru : LruCache Cache Thumb) where
  entered-IsSound :
      (capacity : ℕ) (key : Text) (s : Loader Cache Thumb) (found : Option (Text × QueuedEntry))
      → IsSound Cache Thumb s
      → find_by entering_key key s.entering ≡ found
      → IsSound Cache Thumb (entered lru capacity key s found)
  unfolding entered push_entry
  entered-IsSound capacity key s none sound e = sound
  entered-IsSound capacity key s (some (k, entry)) sound e =
      elim (Bool-cases (leb capacity (size s.queue.queued))) [
        | inl full ↦
            subst (λ r. IsSound Cache Thumb (entered_with lru key entry s r))
              (sym (enqueue-full capacity key entry s.queue full))
              (refused_enter-IsSound lru key k entry s sound e)
        | inr room ↦
            subst (λ r. IsSound Cache Thumb (entered_with lru key entry s r))
              (sym (enqueue-room capacity key entry s.queue room))
              (admitted_enter-IsSound lru key k entry
                (push_entry key (next_seq s.queue.seq) entry
                  (record s.queue { seq = next_seq s.queue.seq }))
                s sound e (λ j. contains-insert j key entry s.queue.queued)
                (push_entry-IsLive key (next_seq s.queue.seq) entry
                  (record s.queue { seq = next_seq s.queue.seq })
                  (record { covered = sound.live.covered })))
      ]

  pub request_enter-IsSound :
      (capacity : ℕ) (key : Text) (s : Loader Cache Thumb)
      → IsSound Cache Thumb s
      → IsSound Cache Thumb (request_enter lru capacity key s)
  unfolding request_enter
  request_enter-IsSound capacity key s sound =
      entered-IsSound capacity key s (find_by entering_key key s.entering) sound refl

  rolled_back-IsSound :
      (key : Text) (s : Loader Cache Thumb) (found : Option Text)
      → IsSound Cache Thumb s
      → find_by own_key key s.refused ≡ found
      → IsSound Cache Thumb (rolled_back lru key s found)
  unfolding rolled_back
  rolled_back-IsSound key s none sound e = sound
  rolled_back-IsSound key s (some k) sound e = record {
    single = λ j. ground (
      arith,
      sound.single j,
      count-without own_key key j s.refused k e,
      contains-remove j key s.state.in_flight,
    );
    live = sound.live;
  }

  pub request_rollback-IsSound :
      (key : Text) (s : Loader Cache Thumb)
      → IsSound Cache Thumb s
      → IsSound Cache Thumb (request_rollback lru key s)
  unfolding request_rollback
  request_rollback-IsSound key s sound =
      rolled_back-IsSound key s (find_by own_key key s.refused) sound refl

  finished-IsSound :
      (key : Text) (result : Option Thumb) (s : Loader Cache Thumb) (found : Option PriItem)
      → IsSound Cache Thumb s
      → find_by working_key key s.working ≡ found
      → IsSound Cache Thumb (finished lru key result s found)
  unfolding finished
  finished-IsSound key result s none sound e = sound
  finished-IsSound key none s (some item) sound e = record {
    single = λ j. ground (
      arith,
      sound.single j,
      count-without working_key key j s.working item e,
      contains-remove j key s.state.in_flight,
    );
    live = sound.live;
  }
  finished-IsSound key (some loaded) s (some item) sound e = record {
    single = λ j. ground (
      arith,
      sound.single j,
      count-without working_key key j s.working item e,
      contains-remove j key s.state.in_flight,
    );
    live = sound.live;
  }

  pub worker_finish-IsSound :
      (key : Text) (result : Option Thumb) (s : Loader Cache Thumb)
      → IsSound Cache Thumb s
      → IsSound Cache Thumb (worker_finish lru key result s)
  unfolding worker_finish
  worker_finish-IsSound key result s sound =
      finished-IsSound key result s (find_by working_key key s.working) sound refl

  took-IsSound :
      (s : Loader Cache Thumb) (r : Option PriItem × QueueState)
      → IsSound Cache Thumb s
      → Popped s.queue r
      → IsSound Cache Thumb (took lru s r)
  unfolding took
  took-IsSound s (none, q) sound p = record {
    single = λ j. rw p.same_queued (sound.single j);
    live = record { covered = λ j tier at. ground (arith, p.no_more j tier, p.same_queued) };
  }
  took-IsSound s (some item, q) sound p = record {
    single = λ j. ground (
      arith,
      sound.single j,
      count-cons working_key j item s.working,
      contains-remove j item.cache_key s.queue.queued,
      p.dequeued,
      p.current,
      text_eq_iff item.cache_key j,
    );
    live = p.live;
  }

  same_queue-IsSound :
      (s : Loader Cache Thumb)
      → IsSound Cache Thumb s
      → IsSound Cache Thumb (took lru s (none, s.queue))
  unfolding took
  same_queue-IsSound s sound = record { single = sound.single; live = sound.live }

  pub worker_take-IsSound :
      (s : Loader Cache Thumb) → IsSound Cache Thumb s → IsSound Cache Thumb (worker_take lru s)
  unfolding worker_take
  worker_take-IsSound s sound = elim (Bool-cases s.queue.closed) [
    | inl shut ↦
        subst (λ r. IsSound Cache Thumb (took lru s r))
          (sym (pop_current-closed (suc (length s.queue.heap)) s.queue shut))
          (same_queue-IsSound s sound)
    | inr open_ ↦
        took-IsSound s (pop_current (suc (length s.queue.heap)) s.queue) sound
          (pop_current_lem (length s.queue.heap) s.queue (omega arith) open_ sound.live)
  ]

  drop_orphan-IsSound :
      (key : Text) (s : Loader Cache Thumb) (waiters : List ThumbnailWaiter) (queued : Bool)
      → IsSound Cache Thumb s
      → get key s.state.in_flight ≡ some waiters
      → contains_key key s.queue.queued ≡ queued
      → IsSound Cache Thumb (drop_orphan lru key s queued)
  unfolding drop_orphan
  drop_orphan-IsSound key s waiters true sound e h = record {
    single = λ j. ground (
      arith,
      sound.single j,
      sound.single key,
      contains-remove j key s.state.in_flight,
      contains-remove j key s.queue.queued,
      text_eq_iff key j,
    );
    live = record {
      covered =
          λ j tier at. ground (arith, sound.live.covered j tier, get-remove j key s.queue.queued);
    };
  }
  drop_orphan-IsSound key s waiters false sound e h = record {
    single = λ j.
        ground
          (arith, sound.single j, contains-insert j key [] s.state.in_flight, text_eq_iff key j);
    live = sound.live;
  }

  retained-IsSound :
      (key : Text) (s : Loader Cache Thumb) (waiters left : List ThumbnailWaiter)
      → IsSound Cache Thumb s
      → get key s.state.in_flight ≡ some waiters
      → IsSound Cache Thumb (retained lru key s left)
  unfolding retained
  retained-IsSound key s waiters [] sound e =
      drop_orphan-IsSound key s waiters (contains_key key s.queue.queued) sound e refl
  retained-IsSound key s waiters (waiter ∷ rest) sound e = record {
    single = λ j. ground (
      arith,
      sound.single j,
      contains-insert j key (waiter ∷ rest) s.state.in_flight,
      text_eq_iff key j,
    );
    live = sound.live;
  }

  cancel_waiters-IsSound :
      (key : Text) (s : Loader Cache Thumb) (found : Option (List ThumbnailWaiter))
      → IsSound Cache Thumb s
      → get key s.state.in_flight ≡ found
      → IsSound Cache Thumb (cancel_waiters lru key s found)
  unfolding cancel_waiters
  cancel_waiters-IsSound key s none sound e = sound
  cancel_waiters-IsSound key s (some waiters) sound e =
      retained-IsSound key s waiters (retain_active s.cancelled waiters) sound e

  pub cancel_cancellable_request-IsSound :
      (key : Text) (flag : ℕ) (s : Loader Cache Thumb)
      → IsSound Cache Thumb s
      → IsSound Cache Thumb (cancel_cancellable_request lru key flag s)
  unfolding cancel_cancellable_request
  cancel_cancellable_request-IsSound key flag s sound =
      cancel_waiters-IsSound key (record s { cancelled = flag ∷ s.cancelled })
        (get key s.state.in_flight) (record { single = sound.single; live = sound.live }) refl

  pub loader_prioritize-IsSound :
      (keys : List Text) (s : Loader Cache Thumb)
      → IsSound Cache Thumb s
      → IsSound Cache Thumb (loader_prioritize lru keys s)
  unfolding loader_prioritize
  loader_prioritize-IsSound keys s sound =
      let p = prioritize_keys_lem keys s.queue sound.live in
      record { single = λ j. ground (arith, sound.single j, p.same_keys j); live = p.live }
