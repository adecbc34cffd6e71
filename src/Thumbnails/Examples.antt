-- ===== src/Thumbnails/Examples.antt =====
-- The loader on concrete requests, and the theorems applied to them.
use photo_viewer.Base.{ℕ, ◌≡◌, refl, true, false, some, List, [], ◌∷◌, arith, length}
use photo_viewer.Base.Text.{Text, ascii, text_eq}
use photo_viewer.Base.Map.{HashMap, get, insert, remove, contains_key}
use photo_viewer.Base.Order.{lex_lt}
use photo_viewer.Base.Int.{pos}
use photo_viewer.Thumbnails.Queue.{
  ThumbnailSize, PriItem, QueuedEntry, QueueState, pop_least, pop_current, enqueue, prioritize_keys,
  tier_background, tier_normal,
}
use photo_viewer.Thumbnails.Queue.Live.{IsLive, Popped, pop_current_lem, enqueue-IsLive}
use photo_viewer.Base.Map.{size}
use photo_viewer.Thumbnails.Queue.Capacity.{Fits}
use photo_viewer.Thumbnails.Loader.Capacity.{PullsWithin, run-Fits}
use photo_viewer.Thumbnails.Queue.Boost.{IsPrioritized, prioritize_keys_lem}
use photo_viewer.Thumbnails.Loader.{LruCache, Loader, ThumbnailWaiter, Event, is_cancelled}
use photo_viewer.Thumbnails.Loader.Steps.{request_register, clear_mem_cache, run}
use photo_viewer.Thumbnails.Loader.Threads.{generations, count_by}
use photo_viewer.Thumbnails.Loader.Generation.{IsSound}
use photo_viewer.Thumbnails.Loader.Reach.{IsCleared, run-IsSound, request_register-clear_mem_cache}

abbrev map_keys : List PriItem → List Text
map_keys [] = []
map_keys (item ∷ rest) = item.cache_key ∷ map_keys rest

-- A cache that keeps all it is given, of numbered images.
abbrev lru : LruCache (HashMap ℕ) ℕ
lru = record {
  lru_get = λ key cache. (get key cache, cache);
  lru_put = insert;
  lru_pop = λ key cache. (get key cache, remove key cache);
  lru_clear = λ cache. [];
}

lru-IsCleared : IsCleared (HashMap ℕ) ℕ lru
unfolding get remove
lru-IsCleared = record { get_miss = λ key cache. ([], refl); pop_miss = λ key cache. ([], refl) }

abbrev entry : QueuedEntry
entry = record {
  tier = tier_normal;
  uri = ascii "file:///a.jpg";
  size = ThumbnailSize.small;
  mtime = some 5;
  enqueued_at = 0;
  media_id = pos 1;
}

abbrev waiter : ThumbnailWaiter
waiter = record { reply = 1; cancellation = some 9 }

abbrev no_requests : QueueState
no_requests = record { heap = []; queued = []; seq = 0; closed = false }

abbrev idle : Loader (HashMap ℕ) ℕ
idle = record {
  state = record { mem_cache = []; prewarm_mem_cache = []; in_flight = [] };
  queue = no_requests;
  cancelled = [];
  replies = [];
  entering = [];
  refused = [];
  working = [];
}

no_requests-IsLive : IsLive no_requests
unfolding get
no_requests-IsLive = record { covered = λ key tier at. ground arith }

idle-IsSound : IsSound (HashMap ℕ) ℕ idle
unfolding get count_by
idle-IsSound = record { single = λ key. refl; live = no_requests-IsLive }

abbrev key : Text
key = ascii "a:5:Small"

abbrev other : Text
other = ascii "b:7:Small"

abbrev requests : List (Event ℕ)
requests =
    Event.register (some key) entry waiter
    ∷ Event.register (some other) entry waiter
    ∷ Event.enter other
    ∷ Event.register (some key) entry waiter
    ∷ Event.enter key
    ∷ Event.prioritize (key ∷ [])
    ∷ Event.take
    ∷ []

abbrev busy : Loader (HashMap ℕ) ℕ
busy = run lru 8 requests idle

run-IsSound_example : IsSound (HashMap ℕ) ℕ (run lru 8 requests idle)
run-IsSound_example = run-IsSound lru 8 requests idle idle-IsSound

busy-in_flight : contains_key key busy.state.in_flight ≡ true
unfolding run text_eq pop_least lex_lt
busy-in_flight = refl

-- The prioritized request is taken before the one that came first.
busy-working : map_keys busy.working ≡ key ∷ []
unfolding run text_eq pop_least lex_lt
busy-working = refl

busy-cancelled : is_cancelled busy.cancelled waiter ≡ false
unfolding run text_eq pop_least lex_lt
busy-cancelled = refl

request_register-clear_mem_cache_example :
    generations key (request_register lru (some key) entry waiter (clear_mem_cache lru busy)) ≡ 2
request_register-clear_mem_cache_example =
    request_register-clear_mem_cache lru key entry waiter busy lru-IsCleared
      (run-IsSound lru 8 requests idle idle-IsSound) busy-in_flight busy-cancelled

abbrev two_requests : QueueState
two_requests = (enqueue 8 other entry ((enqueue 8 key entry no_requests).1)).1

two_requests-IsLive : IsLive two_requests
two_requests-IsLive =
    enqueue-IsLive 8 other entry ((enqueue 8 key entry no_requests).1)
      (enqueue-IsLive 8 key entry no_requests no_requests-IsLive)

two_requests-closed : two_requests.closed ≡ false
unfolding enqueue
two_requests-closed = refl

two_requests-heap : length two_requests.heap ≡ 2
unfolding enqueue
two_requests-heap = refl

pop_current_lem_example : Popped two_requests (pop_current 3 two_requests)
pop_current_lem_example =
    pop_current_lem 2 two_requests (omega (arith, two_requests-heap)) two_requests-closed
      two_requests-IsLive

prioritize_keys_lem_example :
    IsPrioritized (other ∷ []) two_requests (prioritize_keys (other ∷ []) two_requests)
prioritize_keys_lem_example = prioritize_keys_lem (other ∷ []) two_requests two_requests-IsLive

abbrev page_item : Text → PriItem
page_item name = record {
  tier = tier_background;
  seq = 0;
  cache_key = name;
  uri = ascii "file:///c.jpg";
  size = ThumbnailSize.small;
  mtime = some 5;
  enqueued_at = 0;
  media_id = pos 3;
}

-- The requests, and a pull that finds a larger capacity configured than the loader was made with.
abbrev pull_three : Event ℕ
pull_three =
    Event.pull
      ((3, page_item (ascii "c")) ∷ (3, page_item (ascii "d")) ∷ (3, page_item (ascii "e")) ∷ [])

abbrev mixed : List (Event ℕ)
mixed = pull_three ∷ requests

mixed-PullsWithin : PullsWithin 3 mixed
mixed-PullsWithin =
    ((omega arith, (omega arith, (omega arith, tt))), (tt, (tt, (tt, (tt, (tt, (tt, (tt, tt))))))))

no_requests-FitsThree : Fits 3 no_requests
unfolding size
no_requests-FitsThree = omega arith

run-Fits_example : Fits 3 ((run lru 1 mixed idle).queue)
run-Fits_example = run-Fits lru 1 3 (omega arith) mixed idle mixed-PullsWithin no_requests-FitsThree

-- The pull fills the queue beyond the capacity of the loader.
pull_three-queue : size ((run lru 1 (pull_three ∷ []) idle).queue).queued ≡ 2
unfolding run text_eq pop_least lex_lt size
pull_three-queue = refl
