-- ===== src/Thumbnails/Loader/Steps.antt =====
-- The critical sections of the loader and its workers, each one step on the whole state.
use photo_viewer.Base.{
  ℕ, suc, Bool, true, false, Option, none, some, List, [], ◌∷◌, ◌==◌, if◌then◌else◌, length,
}
use photo_viewer.Base.Text.{Text}
use photo_viewer.Base.Map.{get, insert, remove, contains_key}
use photo_viewer.Thumbnails.Queue.{
  PriItem, QueuedEntry, QueueState, tier_background, enqueue, pop_current, prioritize_keys,
  shutdown,
}
use photo_viewer.Thumbnails.Loader.{
  Event, Loader, LoaderState, LruCache, Pull, ThumbnailWaiter, entering_key, find_by, is_cancelled,
  own_key, pull_all, push_waiter, retain_active, without_by, working_key, register, enter, rollback,
  take, pull, finish, cancel, prioritize, close,
}

module _ {Cache Thumb : Type 0} (lru : LruCache Cache Thumb) where
  unfoldable pub promoted :
      Text → LoaderState Cache → Cache → Option Thumb × Cache → Option Thumb × LoaderState Cache
  promoted key st touched (none, prewarm) =
      (none, record st { mem_cache = touched; prewarm_mem_cache = prewarm })
  promoted key st touched (some loaded, prewarm) = (
    some loaded,
    record st { mem_cache = lru.lru_put key loaded touched; prewarm_mem_cache = prewarm },
  )

  unfoldable pub looked_up :
      Text → LoaderState Cache → Option Thumb × Cache → Option Thumb × LoaderState Cache
  unfolding promoted
  looked_up key st (some loaded, touched) = (some loaded, record st { mem_cache = touched })
  looked_up key st (none, touched) = promoted key st touched (lru.lru_pop key st.prewarm_mem_cache)

  unfoldable pub load_mem_cached_locked :
      LoaderState Cache → Text → Option Thumb × LoaderState Cache
  unfolding looked_up
  load_mem_cached_locked st key = looked_up key st (lru.lru_get key st.mem_cache)

  unfoldable pub joined :
      Text
      → QueuedEntry
      → ThumbnailWaiter
      → Loader Cache Thumb
      → Option (List ThumbnailWaiter)
      → Loader Cache Thumb
  unfolding insert
  joined key entry waiter s (some waiters) = record s {
    state = record s.state {
      in_flight = insert key (push_waiter waiter waiters) s.state.in_flight;
    };
  }
  joined key entry waiter s none = record s {
    state = record s.state { in_flight = insert key (waiter ∷ []) s.state.in_flight };
    entering = (key, entry) ∷ s.entering;
  }

  -- `request_inner` under the lock of the state, after the memory caches missed.
  unfoldable pub join_or_register :
      Text → QueuedEntry → ThumbnailWaiter → Loader Cache Thumb → Loader Cache Thumb
  unfolding joined get
  join_or_register key entry waiter s = joined key entry waiter s (get key s.state.in_flight)

  unfoldable pub after_lookup :
      Text
      → QueuedEntry
      → ThumbnailWaiter
      → Loader Cache Thumb
      → Option Thumb × LoaderState Cache
      → Loader Cache Thumb
  unfolding join_or_register
  after_lookup key entry waiter s (some loaded, st) = record s {
    state = st;
    replies = (waiter.reply, loaded) ∷ s.replies;
  }
  after_lookup key entry waiter s (none, st) =
      join_or_register key entry waiter (record s { state = st })

  unfoldable pub looked_for :
      QueuedEntry → ThumbnailWaiter → Loader Cache Thumb → Option Text → Loader Cache Thumb
  unfolding after_lookup load_mem_cached_locked
  looked_for entry waiter s none = s
  looked_for entry waiter s (some key) =
      after_lookup key entry waiter s (load_mem_cached_locked s.state key)

  -- `request_inner` up to the release of the state's lock. The key is the result of `cache_key_str`.
  unfoldable pub request_register :
      Option Text → QueuedEntry → ThumbnailWaiter → Loader Cache Thumb → Loader Cache Thumb
  unfolding looked_for
  request_register key entry waiter s =
      if is_cancelled s.cancelled waiter then s else looked_for entry waiter s key

  unfoldable pub entered_with :
      Text → QueuedEntry → Loader Cache Thumb → Bool × QueueState → Loader Cache Thumb
  entered_with key entry s (true, q) = record s {
    queue = q;
    entering = without_by entering_key key s.entering;
  }
  entered_with key entry s (false, q) = record s {
    queue = q;
    entering = without_by entering_key key s.entering;
    refused = key ∷ s.refused;
  }

  unfoldable pub entered :
      ℕ → Text → Loader Cache Thumb → Option (Text × QueuedEntry) → Loader Cache Thumb
  unfolding entered_with enqueue
  entered capacity key s none = s
  entered capacity key s (some (_, entry)) =
      entered_with key entry s (enqueue capacity key entry s.queue)

  -- `request_inner` under the lock of the queue.
  unfoldable pub request_enter : ℕ → Text → Loader Cache Thumb → Loader Cache Thumb
  unfolding entered
  request_enter capacity key s = entered capacity key s (find_by entering_key key s.entering)

  unfoldable pub rolled_back : Text → Loader Cache Thumb → Option Text → Loader Cache Thumb
  unfolding remove
  rolled_back key s none = s
  rolled_back key s (some _) = record s {
    state = record s.state { in_flight = remove key s.state.in_flight };
    refused = without_by own_key key s.refused;
  }

  -- The rollback of `request_inner` where the queue is full.
  unfoldable pub request_rollback : Text → Loader Cache Thumb → Loader Cache Thumb
  unfolding rolled_back
  request_rollback key s = rolled_back key s (find_by own_key key s.refused)

  unfoldable pub took : Loader Cache Thumb → Option PriItem × QueueState → Loader Cache Thumb
  took s (none, q) = record s { queue = q }
  took s (some item, q) = record s { queue = q; working = item ∷ s.working }

  -- A worker in `next_request_or_pull`, with fuel for the heap.
  unfoldable pub worker_take : Loader Cache Thumb → Loader Cache Thumb
  unfolding took pop_current
  worker_take s = took s (pop_current (suc (length s.queue.heap)) s.queue)

  unfoldable pub pulled : Loader Cache Thumb → Pull → Option PriItem → Loader Cache Thumb
  pulled s p none = record s {
    state = record s.state { in_flight = p.flights };
    queue = p.pull_queue;
  }
  pulled s p (some item) = record s {
    state = record s.state { in_flight = p.flights };
    queue = p.pull_queue;
    working = item ∷ s.working;
  }

  abbrev pub pull_of : Loader Cache Thumb → Pull
  pull_of s = record { first = none; flights = s.state.in_flight; pull_queue = s.queue }

  -- `pull_batch_and_enqueue` on the items made of the page from the database, each with the capacity
  -- configured when the loop comes to it.
  unfoldable pub pull_batch_and_enqueue :
      List (ℕ × PriItem) → Loader Cache Thumb → Loader Cache Thumb
  unfolding pulled pull_all
  pull_batch_and_enqueue items s = let p = pull_all items (pull_of s) in pulled s p p.first

  -- `let _ = waiter.reply.send(loaded.clone())` for the waiters that are not cancelled.
  unfoldable pub send_all :
      List ℕ → Thumb → List ThumbnailWaiter → List (ℕ × Thumb) → List (ℕ × Thumb)
  send_all cancelled loaded [] sent = sent
  send_all cancelled loaded (waiter ∷ rest) sent =
      send_all cancelled loaded rest
        (if is_cancelled cancelled waiter then sent else (waiter.reply, loaded) ∷ sent)

  abbrev pub put_loaded : PriItem → Thumb → LoaderState Cache → LoaderState Cache
  put_loaded item loaded st =
      if item.tier == tier_background
      then record st { prewarm_mem_cache = lru.lru_put item.cache_key loaded st.prewarm_mem_cache }
      else record st { mem_cache = lru.lru_put item.cache_key loaded st.mem_cache }

  abbrev pub waiters_of : Text → Loader Cache Thumb → List ThumbnailWaiter
  waiters_of key s = elim (get key s.state.in_flight) [ none ↦ [] | some waiters ↦ waiters ]

  unfoldable pub finished :
      Text → Option Thumb → Loader Cache Thumb → Option PriItem → Loader Cache Thumb
  unfolding remove get send_all
  finished key result s none = s
  finished key none s (some item) = record s {
    state = record s.state { in_flight = remove key s.state.in_flight };
    working = without_by working_key key s.working;
  }
  finished key (some loaded) s (some item) = record s {
    state = record (put_loaded item loaded s.state) { in_flight = remove key s.state.in_flight };
    working = without_by working_key key s.working;
    replies = send_all s.cancelled loaded (waiters_of key s) s.replies;
  }

  -- The end of a round of `worker_loop`: the result of `generate`, and nothing where it failed.
  -- The replies, which the worker sends after its lock, are part of the step.
  unfoldable pub worker_finish : Text → Option Thumb → Loader Cache Thumb → Loader Cache Thumb
  unfolding finished
  worker_finish key result s = finished key result s (find_by working_key key s.working)

  unfoldable pub drop_orphan : Text → Loader Cache Thumb → Bool → Loader Cache Thumb
  unfolding insert remove
  drop_orphan key s true = record s {
    state = record s.state { in_flight = remove key s.state.in_flight };
    queue = record s.queue { queued = remove key s.queue.queued };
  }
  drop_orphan key s false = record s {
    state = record s.state { in_flight = insert key [] s.state.in_flight };
  }

  unfoldable pub retained : Text → Loader Cache Thumb → List ThumbnailWaiter → Loader Cache Thumb
  unfolding drop_orphan insert get
  retained key s [] = drop_orphan key s (contains_key key s.queue.queued)
  retained key s (waiter ∷ rest) = record s {
    state = record s.state { in_flight = insert key (waiter ∷ rest) s.state.in_flight };
  }

  unfoldable pub cancel_waiters :
      Text → Loader Cache Thumb → Option (List ThumbnailWaiter) → Loader Cache Thumb
  unfolding retained
  cancel_waiters key s none = s
  cancel_waiters key s (some waiters) = retained key s (retain_active s.cancelled waiters)

  unfoldable pub cancel_cancellable_request : Text → ℕ → Loader Cache Thumb → Loader Cache Thumb
  unfolding cancel_waiters get
  cancel_cancellable_request key flag s =
      cancel_waiters key (record s { cancelled = flag ∷ s.cancelled }) (get key s.state.in_flight)

  -- `prioritize_keys` takes the lock of the queue only.
  unfoldable pub loader_prioritize : List Text → Loader Cache Thumb → Loader Cache Thumb
  unfolding prioritize_keys
  loader_prioritize keys s = record s { queue = prioritize_keys keys s.queue }

  -- The cleanup command.
  unfoldable pub clear_mem_cache : Loader Cache Thumb → Loader Cache Thumb
  clear_mem_cache s = record s {
    state = record s.state {
      mem_cache = lru.lru_clear s.state.mem_cache;
      prewarm_mem_cache = lru.lru_clear s.state.prewarm_mem_cache;
      in_flight = [];
    };
  }

  unfoldable pub step : ℕ → Event Thumb → Loader Cache Thumb → Loader Cache Thumb
  unfolding request_register request_enter request_rollback worker_take pull_batch_and_enqueue
      worker_finish cancel_cancellable_request loader_prioritize
  step capacity (register key entry waiter) s = request_register key entry waiter s
  step capacity (enter key) s = request_enter capacity key s
  step capacity (rollback key) s = request_rollback key s
  step capacity take s = worker_take s
  step capacity (pull items) s = pull_batch_and_enqueue items s
  step capacity (finish key result) s = worker_finish key result s
  step capacity (cancel key flag) s = cancel_cancellable_request key flag s
  step capacity (prioritize keys) s = loader_prioritize keys s
  step capacity close s = record s { queue = shutdown s.queue }

  unfoldable pub run : ℕ → List (Event Thumb) → Loader Cache Thumb → Loader Cache Thumb
  unfolding step
  run capacity [] s = s
  run capacity (event ∷ rest) s = run capacity rest (step capacity event s)
