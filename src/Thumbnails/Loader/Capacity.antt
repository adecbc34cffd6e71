-- ===== src/Thumbnails/Loader/Capacity.antt =====
-- The number of queued requests is tested in two places: `request` has the capacity that the loader was
-- made with, a pull the capacity configured at its time.
use photo_viewer.Base.{
  ℕ, suc, ◌≤◌, ◌≡◌, refl, Bool, true, false, Option, none, some, List, [], ◌∷◌, arith, Bool-cases,
  inl, inr, subst, sym, length,
}
use photo_viewer.Base.Text.{Text}
use photo_viewer.Base.Map.{get, contains_key, size-insert, size-remove}
use photo_viewer.Thumbnails.Queue.{
  PriItem, QueuedEntry, QueueState, push_entry, enqueue, pop_current, shutdown,
}
use photo_viewer.Thumbnails.Loader.{
  LruCache, LoaderState, Loader, ThumbnailWaiter, Pull, Event, find_by, entering_key, own_key,
  working_key, entry_of, retain_active, is_cancelled, pull_fresh, pull_one, pull_all,
}
use photo_viewer.Thumbnails.Loader.Steps.{
  load_mem_cached_locked, joined, join_or_register, after_lookup, looked_for, request_register,
  entered_with, entered, request_enter, rolled_back, request_rollback, took, worker_take, pulled,
  pull_of, pull_batch_and_enqueue, finished, worker_finish, drop_orphan, retained, cancel_waiters,
  cancel_cancellable_request, loader_prioritize, step, run,
}
use photo_viewer.Thumbnails.Queue.Capacity.{
  Fits, enqueue-Fits, pop_current-Fits, prioritize_keys-Fits,
}

pull_fresh-Fits :
    (configured ceiling : ℕ) (item : PriItem) (p : Pull) (first : Option PriItem)
    → configured ≤ ceiling
    → Fits ceiling p.pull_queue
    → Fits ceiling ((pull_fresh configured item p first).pull_queue)
unfolding pull_fresh push_entry
pull_fresh-Fits configured ceiling item p none within fits = fits
pull_fresh-Fits configured ceiling item p (some i) within fits =
    ground (arith, size-insert item.cache_key (entry_of item) p.pull_queue.queued)

pull_one-Fits :
    (configured ceiling : ℕ) (item : PriItem) (p : Pull)
    → configured ≤ ceiling
    → Fits ceiling p.pull_queue
    → Fits ceiling ((pull_one configured item p).pull_queue)
unfolding pull_one
pull_one-Fits configured ceiling item p within fits =
    ground (arith, pull_fresh-Fits configured ceiling item p p.first within fits)

-- Each item of a page stands with a configured capacity of at most the ceiling.
abbrev pub ItemsWithin : ℕ → List (ℕ × PriItem) → Type 0
ItemsWithin ceiling [] = Unit
ItemsWithin ceiling ((configured, item) ∷ rest) = (configured ≤ ceiling) × ItemsWithin ceiling rest

abbrev pub PullWithin : {Thumb : Type 0} → ℕ → Event Thumb → Type 0
PullWithin ceiling (Event.pull items) = ItemsWithin ceiling items
PullWithin ceiling _ = Unit

-- No pull among the events has a configured capacity above the ceiling.
abbrev pub PullsWithin : {Thumb : Type 0} → ℕ → List (Event Thumb) → Type 0
PullsWithin ceiling [] = Unit
PullsWithin ceiling (event ∷ rest) = PullWithin ceiling event × PullsWithin ceiling rest

pull_all-Fits :
    (ceiling : ℕ) (items : List (ℕ × PriItem)) (p : Pull)
    → ItemsWithin ceiling items
    → Fits ceiling p.pull_queue
    → Fits ceiling ((pull_all items p).pull_queue)
unfolding pull_all
pull_all-Fits ceiling [] p within fits = fits
pull_all-Fits ceiling ((configured, item) ∷ rest) p (within, all) fits =
    pull_all-Fits ceiling rest (pull_one configured item p) all
      (pull_one-Fits configured ceiling item p within fits)

module _ {Cache Thumb : Type 0} (lru : LruCache Cache Thumb) (capacity ceiling : ℕ)
    (room : capacity ≤ ceiling) where
  joined-queue :
      (key : Text) (entry : QueuedEntry) (waiter : ThumbnailWaiter) (s : Loader Cache Thumb)
      (found : Option (List ThumbnailWaiter))
      → (joined lru key entry waiter s found).queue ≡ s.queue
  unfolding joined
  joined-queue key entry waiter s none = refl
  joined-queue key entry waiter s (some waiters) = refl

  after_lookup-queue :
      (key : Text) (entry : QueuedEntry) (waiter : ThumbnailWaiter) (s : Loader Cache Thumb)
      (found : Option Thumb × LoaderState Cache)
      → (after_lookup lru key entry waiter s found).queue ≡ s.queue
  unfolding after_lookup join_or_register
  after_lookup-queue key entry waiter s (some loaded, st) = refl
  after_lookup-queue key entry waiter s (none, st) =
      joined-queue key entry waiter (record s { state = st }) (get key st.in_flight)

  looked_for-queue :
      (entry : QueuedEntry) (waiter : ThumbnailWaiter) (s : Loader Cache Thumb) (key : Option Text)
      → (looked_for lru entry waiter s key).queue ≡ s.queue
  unfolding looked_for
  looked_for-queue entry waiter s none = refl
  looked_for-queue entry waiter s (some key) =
      after_lookup-queue key entry waiter s (load_mem_cached_locked lru s.state key)

  request_register-queue :
      (key : Option Text) (entry : QueuedEntry) (waiter : ThumbnailWaiter) (s : Loader Cache Thumb)
      → (request_register lru key entry waiter s).queue ≡ s.queue
  unfolding request_register
  request_register-queue key entry waiter s = elim (Bool-cases (is_cancelled s.cancelled waiter)) [
    | inl gone ↦ rw gone refl
    | inr active ↦ rw active (looked_for-queue entry waiter s key)
  ]

  entered_with-Fits :
      (key : Text) (entry : QueuedEntry) (s : Loader Cache Thumb) (r : Bool × QueueState)
      → Fits ceiling r.1
      → Fits ceiling ((entered_with lru key entry s r).queue)
  unfolding entered_with
  entered_with-Fits key entry s (true, q) fits = fits
  entered_with-Fits key entry s (false, q) fits = fits

  entered-Fits :
      (key : Text) (s : Loader Cache Thumb) (found : Option (Text × QueuedEntry))
      → Fits ceiling s.queue
      → Fits ceiling ((entered lru capacity key s found).queue)
  unfolding entered
  entered-Fits key s none fits = fits
  entered-Fits key s (some (_, entry)) fits =
      entered_with-Fits key entry s (enqueue capacity key entry s.queue)
        (enqueue-Fits capacity ceiling key entry s.queue room fits)

  rolled_back-queue :
      (key : Text) (s : Loader Cache Thumb) (found : Option Text)
      → (rolled_back lru key s found).queue ≡ s.queue
  unfolding rolled_back
  rolled_back-queue key s none = refl
  rolled_back-queue key s (some k) = refl

  took-Fits :
      (s : Loader Cache Thumb) (r : Option PriItem × QueueState)
      → Fits ceiling r.1
      → Fits ceiling ((took lru s r).queue)
  unfolding took
  took-Fits s (none, q) fits = fits
  took-Fits s (some item, q) fits = fits

  pulled-queue :
      (s : Loader Cache Thumb) (p : Pull) (first : Option PriItem)
      → (pulled lru s p first).queue ≡ p.pull_queue
  unfolding pulled
  pulled-queue s p none = refl
  pulled-queue s p (some item) = refl

  finished-queue :
      (key : Text) (result : Option Thumb) (s : Loader Cache Thumb) (found : Option PriItem)
      → (finished lru key result s found).queue ≡ s.queue
  unfolding finished
  finished-queue key result s none = refl
  finished-queue key none s (some item) = refl
  finished-queue key (some loaded) s (some item) = refl

  drop_orphan-Fits :
      (key : Text) (s : Loader Cache Thumb) (queued : Bool)
      → Fits ceiling s.queue
      → Fits ceiling ((drop_orphan lru key s queued).queue)
  unfolding drop_orphan
  drop_orphan-Fits key s true fits = omega (arith, size-remove key s.queue.queued)
  drop_orphan-Fits key s false fits = fits

  retained-Fits :
      (key : Text) (s : Loader Cache Thumb) (left : List ThumbnailWaiter)
      → Fits ceiling s.queue
      → Fits ceiling ((retained lru key s left).queue)
  unfolding retained
  retained-Fits key s [] fits = drop_orphan-Fits key s (contains_key key s.queue.queued) fits
  retained-Fits key s (waiter ∷ rest) fits = fits

  cancel_waiters-Fits :
      (key : Text) (s : Loader Cache Thumb) (found : Option (List ThumbnailWaiter))
      → Fits ceiling s.queue
      → Fits ceiling ((cancel_waiters lru key s found).queue)
  unfolding cancel_waiters
  cancel_waiters-Fits key s none fits = fits
  cancel_waiters-Fits key s (some waiters) fits =
      retained-Fits key s (retain_active s.cancelled waiters) fits

  step-Fits :
      (event : Event Thumb) (s : Loader Cache Thumb)
      → PullWithin ceiling event
      → Fits ceiling s.queue
      → Fits ceiling ((step lru capacity event s).queue)
  unfolding step request_enter request_rollback worker_take pull_batch_and_enqueue worker_finish
      cancel_cancellable_request loader_prioritize shutdown
  step-Fits (Event.register key entry waiter) s within fits =
      subst (Fits ceiling) (sym (request_register-queue key entry waiter s)) fits
  step-Fits (Event.enter key) s within fits =
      entered-Fits key s (find_by entering_key key s.entering) fits
  step-Fits (Event.rollback key) s within fits =
      subst (Fits ceiling) (sym (rolled_back-queue key s (find_by own_key key s.refused))) fits
  step-Fits Event.take s within fits =
      took-Fits s (pop_current (suc (length s.queue.heap)) s.queue)
        (pop_current-Fits ceiling (suc (length s.queue.heap)) s.queue fits)
  step-Fits (Event.pull items) s within fits =
      let p = pull_all items (pull_of lru s) in
      subst (Fits ceiling) (sym (pulled-queue s p p.first))
        (pull_all-Fits ceiling items (pull_of lru s) within fits)
  step-Fits (Event.finish key result) s within fits =
      subst (Fits ceiling) (sym (finished-queue key result s (find_by working_key key s.working)))
        fits
  step-Fits (Event.cancel key flag) s within fits =
      cancel_waiters-Fits key (record s { cancelled = flag ∷ s.cancelled })
        (get key s.state.in_flight) fits
  step-Fits (Event.prioritize keys) s within fits = prioritize_keys-Fits ceiling keys s.queue fits
  step-Fits Event.close s within fits = fits

  -- From a queue of at most as many requests as a ceiling, no critical sections of any threads in any
  -- order queue more requests than the ceiling, prioritized and prewarmed ones included, where neither
  -- the capacity that the loader was made with nor any that a pull finds configured is above it.
  pub run-Fits :
      (events : List (Event Thumb)) (s : Loader Cache Thumb)
      → PullsWithin ceiling events
      → Fits ceiling s.queue
      → Fits ceiling ((run lru capacity events s).queue)
  unfolding run
  run-Fits [] s within fits = fits
  run-Fits (event ∷ rest) s (within, all) fits =
      run-Fits rest (step lru capacity event s) all (step-Fits event s within fits)
