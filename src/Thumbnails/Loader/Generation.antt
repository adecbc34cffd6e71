-- ===== src/Thumbnails/Loader/Generation.antt =====
-- The loader: one generation at most is under way for a key, and one is where callers wait.
use photo_viewer.Base.{
  ◌≡◌, refl, Bool, true, false, ◌||◌, Option, none, some, List, [], ◌∷◌, arith, if◌then◌else◌,
}
use photo_viewer.Base.Text.{Text, text_eq, text_eq_iff}
use photo_viewer.Base.Map.{get, contains_key, contains-insert}
use photo_viewer.Thumbnails.Queue.{QueuedEntry, QueueState}
use photo_viewer.Thumbnails.Queue.Live.{IsLive}
use photo_viewer.Thumbnails.Loader.{
  LruCache, LoaderState, Loader, ThumbnailWaiter, push_waiter, find_by, entering_key, own_key,
  is_cancelled,
}
use photo_viewer.Thumbnails.Loader.Steps.{
  joined, looked_for, load_mem_cached_locked, looked_up, promoted, join_or_register, after_lookup,
  request_register, entered_with,
}
use photo_viewer.Thumbnails.Loader.Threads.{one_if, count-cons, count-without, generations}

-- Every key that is in flight has one generation, and no other key has any; and every queued
-- request can be taken.
pub record IsSound (Cache Thumb : Type 0) (s : Loader Cache Thumb) : Type 0 where
  pub single : (key : Text) → generations key s ≡ one_if (contains_key key s.state.in_flight)
  pub live : IsLive s.queue

if-IsSound :
    {Cache Thumb : Type 0} (b : Bool) (s t : Loader Cache Thumb)
    → IsSound Cache Thumb s
    → IsSound Cache Thumb t
    → IsSound Cache Thumb (if b then s else t)
if-IsSound true s t p q = p
if-IsSound false s t p q = q

module _ {Cache Thumb : Type 0} (lru : LruCache Cache Thumb) where
  joined-IsSound :
      (key : Text) (entry : QueuedEntry) (waiter : ThumbnailWaiter) (s : Loader Cache Thumb)
      (found : Option (List ThumbnailWaiter))
      → IsSound Cache Thumb s
      → get key s.state.in_flight ≡ found
      → IsSound Cache Thumb (joined lru key entry waiter s found)
  unfolding joined
  joined-IsSound key entry waiter s none sound e = record {
    single = λ k. ground (
      arith,
      sound.single k,
      contains-insert k key (waiter ∷ []) s.state.in_flight,
      count-cons entering_key k (key, entry) s.entering,
      text_eq_iff key k,
    );
    live = sound.live;
  }
  joined-IsSound key entry waiter s (some waiters) sound e = record {
    single = λ k. ground (
      arith,
      sound.single k,
      contains-insert k key (push_waiter waiter waiters) s.state.in_flight,
      text_eq_iff key k,
    );
    live = sound.live;
  }

  after_lookup-IsSound :
      (key : Text) (entry : QueuedEntry) (waiter : ThumbnailWaiter) (s : Loader Cache Thumb)
      (found : Option Thumb × LoaderState Cache)
      → IsSound Cache Thumb s
      → found.1.in_flight ≡ s.state.in_flight
      → IsSound Cache Thumb (after_lookup lru key entry waiter s found)
  unfolding after_lookup join_or_register
  after_lookup-IsSound key entry waiter s (some loaded, st) sound e = record {
    single = λ k. rw e (sound.single k);
    live = sound.live;
  }
  after_lookup-IsSound key entry waiter s (none, st) sound e =
      joined-IsSound key entry waiter (record s { state = st }) (get key st.in_flight)
        (record { single = λ k. rw e (sound.single k); live = sound.live }) refl

  promoted-in_flight :
      (key : Text) (st : LoaderState Cache) (touched : Cache) (r : Option Thumb × Cache)
      → (promoted lru key st touched r).1.in_flight ≡ st.in_flight
  unfolding promoted
  promoted-in_flight key st touched (none, prewarm) = refl
  promoted-in_flight key st touched (some loaded, prewarm) = refl

  looked_up-in_flight :
      (key : Text) (st : LoaderState Cache) (r : Option Thumb × Cache)
      → (looked_up lru key st r).1.in_flight ≡ st.in_flight
  unfolding looked_up
  looked_up-in_flight key st (some loaded, touched) = refl
  looked_up-in_flight key st (none, touched) =
      promoted-in_flight key st touched (lru.lru_pop key st.prewarm_mem_cache)

  looked_for-IsSound :
      (entry : QueuedEntry) (waiter : ThumbnailWaiter) (s : Loader Cache Thumb) (key : Option Text)
      → IsSound Cache Thumb s
      → IsSound Cache Thumb (looked_for lru entry waiter s key)
  unfolding looked_for load_mem_cached_locked
  looked_for-IsSound entry waiter s none sound = sound
  looked_for-IsSound entry waiter s (some key) sound =
      after_lookup-IsSound key entry waiter s (load_mem_cached_locked lru s.state key) sound
        (looked_up-in_flight key s.state (lru.lru_get key s.state.mem_cache))

  pub request_register-IsSound :
      (key : Option Text) (entry : QueuedEntry) (waiter : ThumbnailWaiter) (s : Loader Cache Thumb)
      → IsSound Cache Thumb s
      → IsSound Cache Thumb (request_register lru key entry waiter s)
  unfolding request_register
  request_register-IsSound key entry waiter s sound =
      if-IsSound (is_cancelled s.cancelled waiter) s (looked_for lru entry waiter s key) sound
        (looked_for-IsSound entry waiter s key sound)

  pub refused_enter-IsSound :
      (key : Text) (k : Text) (entry : QueuedEntry) (s : Loader Cache Thumb)
      → IsSound Cache Thumb s
      → find_by entering_key key s.entering ≡ some (k, entry)
      → IsSound Cache Thumb (entered_with lru key entry s (false, s.queue))
  unfolding entered_with
  refused_enter-IsSound key k entry s sound e = record {
    single = λ j. ground (
      arith,
      sound.single j,
      count-without entering_key key j s.entering (k, entry) e,
      count-cons own_key j key s.refused,
    );
    live = sound.live;
  }

  pub admitted_enter-IsSound :
      (key : Text) (k : Text) (entry : QueuedEntry) (q : QueueState) (s : Loader Cache Thumb)
      → IsSound Cache Thumb s
      → find_by entering_key key s.entering ≡ some (k, entry)
      → ((j : Text) → contains_key j q.queued ≡ (text_eq key j || contains_key j s.queue.queued))
      → IsLive q
      → IsSound Cache Thumb (entered_with lru key entry s (true, q))
  unfolding entered_with
  admitted_enter-IsSound key k entry q s sound e grown live = record {
    single = λ j.
        ground (
          arith,
          sound.single j,
          count-without entering_key key j s.entering (k, entry) e,
          grown j,
        );
    live = live;
  }
