-- ===== src/Thumbnails/Loader/Pulling.antt =====
-- The loader: what the pull of a batch from the database keeps.
use photo_viewer.Base.{
  ℕ, ◌+◌, ◌≡◌, refl, Bool, true, false, ◌||◌, Option, none, some, List, [], ◌∷◌, ltb, arith,
  if◌then◌else◌,
}
use photo_viewer.Base.Text.{Text, text_eq, text_eq_iff}
use photo_viewer.Base.Map.{insert, size, contains_key, contains-insert}
use photo_viewer.Thumbnails.Queue.{PriItem, push_entry}
use photo_viewer.Thumbnails.Queue.Live.{IsLive, push_entry-IsLive}
use photo_viewer.Thumbnails.Loader.{
  LruCache, Loader, Pull, entering_key, own_key, working_key, entry_of, pull_one, pull_fresh,
  pull_all,
}
use photo_viewer.Thumbnails.Loader.Steps.{pull_of, pulled, pull_batch_and_enqueue}
use photo_viewer.Thumbnails.Loader.Threads.{one_if, count_by, count-cons}
use photo_viewer.Thumbnails.Loader.Generation.{IsSound}

abbrev first_count : Text → Option PriItem → ℕ
first_count key none = 0
first_count key (some item) = one_if (text_eq item.cache_key key)

-- The generations of the threads, without those of the queue.
abbrev held : {Cache Thumb : Type 0} → Text → Loader Cache Thumb → ℕ
held key s =
    count_by entering_key key s.entering
    + (count_by own_key key s.refused + count_by working_key key s.working)

-- The locals of the loop: every key in flight has one generation, with that of the first item.
record IsPulling (Cache Thumb : Type 0) (s : Loader Cache Thumb) (p : Pull) : Type 0 where
  counted :
      (key : Text)
      → held key s + (first_count key p.first + one_if (contains_key key p.pull_queue.queued))
        ≡ one_if (contains_key key p.flights)
  pulling : IsLive p.pull_queue

module _ {Cache Thumb : Type 0} (s : Loader Cache Thumb) where
  if-IsPulling :
      (b : Bool) (p r : Pull)
      → (b ≡ true → IsPulling Cache Thumb s p)
      → (b ≡ false → IsPulling Cache Thumb s r)
      → IsPulling Cache Thumb s (if b then p else r)
  if-IsPulling true p r h k = h refl
  if-IsPulling false p r h k = k refl

  first-IsPulling :
      (item : PriItem) (p : Pull)
      → (contains_key item.cache_key p.flights || contains_key item.cache_key p.pull_queue.queued)
        ≡ false
      → p.first ≡ none
      → IsPulling Cache Thumb s p
      → IsPulling Cache Thumb s
          (record p { first = some item; flights = insert item.cache_key [] p.flights })
  first-IsPulling item p fresh e ok = record {
    counted = λ key. ground (
      arith,
      ok.counted key,
      contains-insert key item.cache_key [] p.flights,
      text_eq_iff item.cache_key key,
    );
    pulling = ok.pulling;
  }

  queued-IsPulling :
      (item : PriItem) (p : Pull)
      → (contains_key item.cache_key p.flights || contains_key item.cache_key p.pull_queue.queued)
        ≡ false
      → IsPulling Cache Thumb s p
      → IsPulling Cache Thumb s (record p {
        flights = insert item.cache_key [] p.flights;
        pull_queue = push_entry item.cache_key item.seq (entry_of item) p.pull_queue;
      })
  unfolding push_entry
  queued-IsPulling item p fresh ok = record {
    counted = λ key. ground (
      arith,
      ok.counted key,
      contains-insert key item.cache_key [] p.flights,
      contains-insert key item.cache_key (entry_of item) p.pull_queue.queued,
      text_eq_iff item.cache_key key,
    );
    pulling = push_entry-IsLive item.cache_key item.seq (entry_of item) p.pull_queue ok.pulling;
  }

  admitted-IsPulling :
      (configured : ℕ) (item : PriItem) (p : Pull) (first : Option PriItem)
      → (contains_key item.cache_key p.flights || contains_key item.cache_key p.pull_queue.queued)
        ≡ false
      → p.first ≡ first
      → IsPulling Cache Thumb s p
      → IsPulling Cache Thumb s (pull_fresh configured item p first)
  unfolding pull_fresh
  admitted-IsPulling configured item p none fresh e ok = first-IsPulling item p fresh e ok
  admitted-IsPulling configured item p (some i) fresh e ok =
      if-IsPulling (ltb (size p.pull_queue.queued) configured)
        (record p {
          flights = insert item.cache_key [] p.flights;
          pull_queue = push_entry item.cache_key item.seq (entry_of item) p.pull_queue;
        })
        p (λ room. queued-IsPulling item p fresh ok) (λ full. ok)

  pull_one-IsPulling :
      (configured : ℕ) (item : PriItem) (p : Pull)
      → IsPulling Cache Thumb s p
      → IsPulling Cache Thumb s (pull_one configured item p)
  unfolding pull_one
  pull_one-IsPulling configured item p ok =
      if-IsPulling
        (contains_key item.cache_key p.flights || contains_key item.cache_key p.pull_queue.queued) p
        (pull_fresh configured item p p.first) (λ known. ok)
        (λ fresh. admitted-IsPulling configured item p p.first fresh refl ok)

  pull_all-IsPulling :
      (items : List (ℕ × PriItem)) (p : Pull)
      → IsPulling Cache Thumb s p
      → IsPulling Cache Thumb s (pull_all items p)
  unfolding pull_all
  pull_all-IsPulling [] p ok = ok
  pull_all-IsPulling ((configured, item) ∷ rest) p ok =
      pull_all-IsPulling rest (pull_one configured item p) (pull_one-IsPulling configured item p ok)

module _ {Cache Thumb : Type 0} (lru : LruCache Cache Thumb) where
  pulled-IsSound :
      (s : Loader Cache Thumb) (p : Pull) (first : Option PriItem)
      → p.first ≡ first
      → IsPulling Cache Thumb s p
      → IsSound Cache Thumb (pulled lru s p first)
  unfolding pulled
  pulled-IsSound s p none e ok = record {
    single = λ key. ground (arith, ok.counted key, e);
    live = ok.pulling;
  }
  pulled-IsSound s p (some item) e ok = record {
    single = λ key. ground (arith, ok.counted key, e, count-cons working_key key item s.working);
    live = ok.pulling;
  }

  pub pull_batch_and_enqueue-IsSound :
      (items : List (ℕ × PriItem)) (s : Loader Cache Thumb)
      → IsSound Cache Thumb s
      → IsSound Cache Thumb (pull_batch_and_enqueue lru items s)
  unfolding pull_batch_and_enqueue
  pull_batch_and_enqueue-IsSound items s sound =
      pulled-IsSound s (pull_all items (pull_of lru s)) (pull_all items (pull_of lru s)).first refl
        (pull_all-IsPulling s items (pull_of lru s)
          (record { counted = λ key. ground (arith, sound.single key); pulling = sound.live }))
