-- ===== src/Thumbnails/Loader/Reach.antt =====
-- The loader over every interleaving of its threads.
use photo_viewer.Base.{ℕ, ◌≡◌, refl, true, false, none, some, List, [], ◌∷◌, arith}
use photo_viewer.Base.Text.{Text, text_eq_refl}
use photo_viewer.Base.Map.{get, contains_key}
use photo_viewer.Thumbnails.Queue.{QueuedEntry, shutdown}
use photo_viewer.Thumbnails.Loader.{
  LruCache, LoaderState, Loader, ThumbnailWaiter, Event, entering_key, is_cancelled,
}
use photo_viewer.Thumbnails.Loader.Steps.{
  clear_mem_cache, joined, looked_for, load_mem_cached_locked, looked_up, promoted,
  join_or_register, after_lookup, request_register, step, run,
}
use photo_viewer.Thumbnails.Loader.Threads.{count-cons, generations}
use photo_viewer.Thumbnails.Loader.Generation.{IsSound}
use photo_viewer.Thumbnails.Loader.Generation.{request_register-IsSound}
use photo_viewer.Thumbnails.Loader.Pulling.{pull_batch_and_enqueue-IsSound}
use photo_viewer.Thumbnails.Loader.Workers.{
  request_enter-IsSound, request_rollback-IsSound, worker_take-IsSound, worker_finish-IsSound,
  cancel_cancellable_request-IsSound, loader_prioritize-IsSound,
}

module _ {Cache Thumb : Type 0} (lru : LruCache Cache Thumb) (capacity : ℕ) where
  step-IsSound :
      (event : Event Thumb) (s : Loader Cache Thumb)
      → IsSound Cache Thumb s
      → IsSound Cache Thumb (step lru capacity event s)
  unfolding step shutdown
  step-IsSound (Event.register key entry waiter) s sound =
      request_register-IsSound lru key entry waiter s sound
  step-IsSound (Event.enter key) s sound = request_enter-IsSound lru capacity key s sound
  step-IsSound (Event.rollback key) s sound = request_rollback-IsSound lru key s sound
  step-IsSound Event.take s sound = worker_take-IsSound lru s sound
  step-IsSound (Event.pull items) s sound = pull_batch_and_enqueue-IsSound lru items s sound
  step-IsSound (Event.finish key result) s sound = worker_finish-IsSound lru key result s sound
  step-IsSound (Event.cancel key flag) s sound =
      cancel_cancellable_request-IsSound lru key flag s sound
  step-IsSound (Event.prioritize keys) s sound = loader_prioritize-IsSound lru keys s sound
  step-IsSound Event.close s sound = record {
    single = sound.single;
    live = record { covered = sound.live.covered };
  }

  -- From a sound loader, after any critical sections of any threads in any order but the cleanup:
  -- a key that is in flight has one generation under way and any other key has none, counting the
  -- threads that enter the queue, those that it refused, the queue and the workers; and every queued
  -- request can be taken.
  pub run-IsSound :
      (events : List (Event Thumb)) (s : Loader Cache Thumb)
      → IsSound Cache Thumb s
      → IsSound Cache Thumb (run lru capacity events s)
  unfolding run
  run-IsSound [] s sound = sound
  run-IsSound (event ∷ rest) s sound =
      run-IsSound rest (step lru capacity event s) (step-IsSound event s sound)

-- The documented behaviour of the crate that the cleanup relies on: a cleared cache has no entry.
pub record IsCleared (Cache Thumb : Type 0) (lru : LruCache Cache Thumb) : Type 0 where
  pub get_miss :
      (key : Text) (cache : Cache)
      → (after : Cache) × (lru.lru_get key (lru.lru_clear cache) ≡ (none, after))
  pub pop_miss :
      (key : Text) (cache : Cache)
      → (after : Cache) × (lru.lru_pop key (lru.lru_clear cache) ≡ (none, after))

module _ {Cache Thumb : Type 0} (lru : LruCache Cache Thumb) where
  missed :
      (key : Text) (st : LoaderState Cache)
      → IsCleared Cache Thumb lru
      → (after : LoaderState Cache) × (load_mem_cached_locked lru
            (record st {
              mem_cache = lru.lru_clear st.mem_cache;
              prewarm_mem_cache = lru.lru_clear st.prewarm_mem_cache;
              in_flight = [];
            })
            key
          ≡ (none, after))
        × (after.in_flight ≡ [])
  unfolding load_mem_cached_locked looked_up promoted
  missed key st cleared =
      let (touched, e) = cleared.get_miss key st.mem_cache in
      let (prewarm, f) = cleared.pop_miss key st.prewarm_mem_cache in
      (
        record { mem_cache = touched; prewarm_mem_cache = prewarm; in_flight = [] },
        rw (e, f) refl,
        refl,
      )

  -- After the cleanup of a sound loader, a request for a key that was in flight starts a second
  -- generation of that key beside the one that is under way, where its waiter is not cancelled and a
  -- cleared cache has no entry.
  pub request_register-clear_mem_cache :
      (key : Text) (entry : QueuedEntry) (waiter : ThumbnailWaiter) (s : Loader Cache Thumb)
      → IsCleared Cache Thumb lru
      → IsSound Cache Thumb s
      → contains_key key s.state.in_flight ≡ true
      → is_cancelled s.cancelled waiter ≡ false
      → generations key (request_register lru (some key) entry waiter (clear_mem_cache lru s)) ≡ 2
  unfolding request_register looked_for clear_mem_cache after_lookup join_or_register joined get
  request_register-clear_mem_cache key entry waiter s cleared sound at active =
      let (after, e, none_left) = missed key s.state cleared in
      rw (active, e, none_left)
        (ground (
          arith,
          sound.single key,
          count-cons entering_key key (key, entry) s.entering,
          text_eq_refl key,
        ))
