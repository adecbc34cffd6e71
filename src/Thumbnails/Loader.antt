-- ===== src/Thumbnails/Loader.antt =====
-- The thumbnail loader of src/core/thumbnails.rs: its state, the threads between two of its locks, and
-- the batch that src/core/thumbnails/queue.rs pulls from the database.
pub mod Steps
pub mod Threads
pub mod Generation
pub mod Workers
pub mod Pulling
pub mod Reach
pub mod Capacity
use photo_viewer.Base.{
  ℕ, zero, suc, ◌+◌, ◌≤◌, Bool, true, false, ◌&&◌, ◌||◌, not, Option, none, some, List, [], ◌∷◌,
  ltb, leb, ◌==◌, if◌then◌else◌, length,
}
use photo_viewer.Base.Text.{Text, text_eq}
use photo_viewer.Base.Map.{HashMap, get, insert, remove, size, contains_key}
use photo_viewer.Thumbnails.Queue.{
  PriItem, QueuedEntry, QueueState, tier_background, item_of, push_entry, enqueue, pop_current,
  prioritize_keys, shutdown,
}

-- The flag of a cancellation is its address, and the reply channel a number.
pub record ThumbnailWaiter : Type 0 where
  pub reply : ℕ
  pub cancellation : Option ℕ

-- What the loader uses of the crate `lru`.
pub record LruCache (Cache Thumb : Type 0) : Type 0 where
  pub lru_get : Text → Cache → Option Thumb × Cache
  pub lru_put : Text → Thumb → Cache → Cache
  pub lru_pop : Text → Cache → Option Thumb × Cache
  pub lru_clear : Cache → Cache

pub record LoaderState (Cache : Type 0) : Type 0 where
  pub mem_cache : Cache
  pub prewarm_mem_cache : Cache
  pub in_flight : HashMap (List ThumbnailWaiter)

-- The loader with its threads: those that registered a request and wait for the lock of the queue,
-- those the queue refused, and the workers that generate.
pub record Loader (Cache Thumb : Type 0) : Type 0 where
  pub state : LoaderState Cache
  pub queue : QueueState
  pub cancelled : List ℕ
  pub replies : List (ℕ × Thumb)
  pub entering : List (Text × QueuedEntry)
  pub refused : List Text
  pub working : List PriItem

abbrev member : ℕ → List ℕ → Bool
member a [] = false
member a (b ∷ rest) = a == b || member a rest

abbrev pub is_cancelled : List ℕ → ThumbnailWaiter → Bool
is_cancelled cancelled waiter = elim waiter.cancellation [
  | none ↦ false
  | some flag ↦ member flag cancelled
]

-- `waiters.retain(|waiter| !waiter.is_cancelled())`
abbrev pub retain_active : List ℕ → List ThumbnailWaiter → List ThumbnailWaiter
retain_active cancelled [] = []
retain_active cancelled (waiter ∷ rest) =
    let active = retain_active cancelled rest in
    if is_cancelled cancelled waiter then active else waiter ∷ active

abbrev pub push_waiter : ThumbnailWaiter → List ThumbnailWaiter → List ThumbnailWaiter
push_waiter waiter [] = waiter ∷ []
push_waiter waiter (first ∷ rest) = first ∷ push_waiter waiter rest

-- The first thread that holds a key, and the others.
abbrev pub find_by {ℓ} : {A : Type ℓ} → (A → Text) → Text → List A → Option A
find_by key_of key [] = none
find_by key_of key (a ∷ rest) = if text_eq (key_of a) key then some a else find_by key_of key rest

abbrev pub without_by {ℓ} : {A : Type ℓ} → (A → Text) → Text → List A → List A
without_by key_of key [] = []
without_by key_of key (a ∷ rest) =
    let others = without_by key_of key rest in if text_eq (key_of a) key then rest else a ∷ others

abbrev pub entering_key : Text × QueuedEntry → Text
entering_key (key, entry) = key

abbrev pub own_key : Text → Text
own_key key = key

abbrev pub working_key : PriItem → Text
working_key item = item.cache_key

-- The loop of `pull_batch_and_enqueue` on its locals: the first item, the map of what is in flight
-- and the queue.
pub record Pull : Type 0 where
  pub first : Option PriItem
  pub flights : HashMap (List ThumbnailWaiter)
  pub pull_queue : QueueState

abbrev pub entry_of : PriItem → QueuedEntry
entry_of item = record {
  tier = tier_background;
  uri = item.uri;
  size = item.size;
  mtime = item.mtime;
  enqueued_at = item.enqueued_at;
  media_id = item.media_id;
}

-- An item that is neither in flight nor queued, and the capacity that the configuration has when the
-- loop comes to it. `request` has the capacity of the loader instead, read once when it was made.
unfoldable pub pull_fresh : ℕ → PriItem → Pull → Option PriItem → Pull
unfolding insert push_entry size
pull_fresh configured item p none = record p {
  first = some item;
  flights = insert item.cache_key [] p.flights;
}
pull_fresh configured item p (some _) =
    if ltb (size p.pull_queue.queued) configured
    then record p {
      flights = insert item.cache_key [] p.flights;
      pull_queue = push_entry item.cache_key item.seq (entry_of item) p.pull_queue;
    }
    else p

unfoldable pub pull_one : ℕ → PriItem → Pull → Pull
unfolding pull_fresh get
pull_one configured item p =
    if contains_key item.cache_key p.flights || contains_key item.cache_key p.pull_queue.queued
    then p
    else pull_fresh configured item p p.first

unfoldable pub pull_all : List (ℕ × PriItem) → Pull → Pull
unfolding pull_one
pull_all [] p = p
pull_all ((configured, item) ∷ rest) p = pull_all rest (pull_one configured item p)

-- A critical section of some thread. The cleanup stands apart, as `clear_mem_cache`.
pub data Event (Thumb : Type 0) : Type 0 where
  register : Option Text → QueuedEntry → ThumbnailWaiter → Event Thumb
  enter : Text → Event Thumb
  rollback : Text → Event Thumb
  take : Event Thumb
  pull : List (ℕ × PriItem) → Event Thumb
  finish : Text → Option Thumb → Event Thumb
  cancel : Text → ℕ → Event Thumb
  prioritize : List Text → Event Thumb
  close : Event Thumb
