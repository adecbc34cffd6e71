-- ===== src/Thumbnails/Queue.antt =====
-- The priority queue: a heap with stale items and the map of the requests that are queued.
pub mod Heap
pub mod Live
pub mod Boost
pub mod Capacity
use photo_viewer.Base.{
  ℕ, zero, suc, ◌+◌, Bool, true, false, ◌&&◌, ◌%◌, ◌^◌, Option, none, some, List, [], ◌∷◌, ltb, leb,
  ◌==◌, if◌then◌else◌,
}
use photo_viewer.Base.Int.{ℤ}
use photo_viewer.Base.Order.{StrictOrder, nat_order, lex_order}
use photo_viewer.Base.Text.{Text, text_order}
use photo_viewer.Base.Map.{HashMap, get, insert, remove, size, contains_key}

pub data ThumbnailSize : Type 0 where
  small medium large : ThumbnailSize

unfoldable pub max_dim : ThumbnailSize → ℕ
max_dim small = 256
max_dim medium = 512
max_dim large = 1024

-- The derived order, by position.
abbrev pub size_rank : ThumbnailSize → ℕ
size_rank small = 0
size_rank medium = 1
size_rank large = 2

abbrev pub tier_boost : ℕ
tier_boost = 0

abbrev pub tier_normal : ℕ
tier_normal = 1

abbrev pub tier_background : ℕ
tier_background = 2

-- `SystemTime` and `Instant` are numbers.
pub record PriItem : Type 0 where
  pub tier : ℕ  -- u8
  pub seq : ℕ  -- u64
  pub cache_key : Text
  pub uri : Text
  pub size : ThumbnailSize
  pub mtime : Option ℕ
  pub enqueued_at : ℕ
  pub media_id : ℤ

pub record QueuedEntry : Type 0 where
  pub tier : ℕ
  pub uri : Text
  pub size : ThumbnailSize
  pub mtime : Option ℕ
  pub enqueued_at : ℕ
  pub media_id : ℤ

pub record QueueState : Type 0 where
  pub heap : List PriItem
  pub queued : HashMap QueuedEntry
  pub seq : ℕ
  pub closed : Bool

-- `None` before every time.
abbrev mtime_rank : Option ℕ → ℕ
mtime_rank none = 0
mtime_rank (some t) = suc t

-- What `priority_cmp` compares, in its order.
abbrev pub Priority : Type 0
Priority = ℕ × (ℕ × (Text × (Text × (ℕ × ℕ))))

unfoldable pub priority : PriItem → Priority
priority item = (
  item.tier,
  (item.seq, (item.cache_key, (item.uri, (size_rank item.size, mtime_rank item.mtime)))),
)

abbrev pub priority_order : StrictOrder Priority
priority_order = lex_order nat_order (
    lex_order nat_order
      (lex_order text_order (lex_order text_order (lex_order nat_order nat_order))))

unfoldable pub priority_lt : PriItem → PriItem → Bool
unfolding priority
priority_lt a b = priority_order.lt (priority a) (priority b)

unfoldable pub pop_least :
    PriItem → List PriItem → Option (PriItem × List PriItem) → Option (PriItem × List PriItem)
unfolding priority_lt
pop_least item rest none = some (item, [])
pop_least item rest (some (least, others)) =
    if priority_lt least item then some (least, item ∷ others) else some (item, rest)

-- `BinaryHeap<Reverse<PriItem>>::pop`: a least item, and the others.
unfoldable pub pop_min : List PriItem → Option (PriItem × List PriItem)
pop_min [] = none
pop_min (item ∷ rest) = pop_least item rest (pop_min rest)

-- `q.queued.get(&item.cache_key).map(|e| e.tier) == Some(item.tier)`
abbrev pub tier_is : ℕ → Option QueuedEntry → Bool
tier_is tier none = false
tier_is tier (some entry) = entry.tier == tier

abbrev pub is_current : QueueState → PriItem → Bool
is_current q item = tier_is item.tier (get item.cache_key q.queued)

-- The inner loop of `next_request_or_pull`, on fuel for the items of the heap: the request that is
-- taken, if any is left, and the queue.
unfoldable pub pop_current : ℕ → QueueState → Option PriItem × QueueState
unfolding pop_min get remove
pop_current zero q = (none, q)
pop_current (suc fuel) q = if q.closed then (none, q) else elim (pop_min q.heap) [
  | none ↦ (none, q)
  | some (item, others) ↦
      let stale = pop_current fuel (record q { heap = others }) in
      if is_current q item
      then (some item, record q { heap = others; queued = remove item.cache_key q.queued })
      else stale
]

abbrev pub item_of : Text → ℕ → QueuedEntry → PriItem
item_of key seq entry = record {
  tier = entry.tier;
  seq = seq;
  cache_key = key;
  uri = entry.uri;
  size = entry.size;
  mtime = entry.mtime;
  enqueued_at = entry.enqueued_at;
  media_id = entry.media_id;
}

-- The entry in the map and its item in the heap.
unfoldable pub push_entry : Text → ℕ → QueuedEntry → QueueState → QueueState
unfolding insert
push_entry key seq entry q = record q {
  heap = item_of key seq entry ∷ q.heap;
  queued = insert key entry q.queued;
}

-- `q.seq += 1`, an u64
abbrev pub next_seq : ℕ → ℕ
next_seq seq = (seq + 1) % 2 ^ 64

-- The part of `request_inner` under the lock of the queue: whether the request was enqueued.
unfoldable pub enqueue : ℕ → Text → QueuedEntry → QueueState → Bool × QueueState
unfolding push_entry size
enqueue capacity key entry q =
    if leb capacity (size q.queued)
    then (false, q)
    else (true, push_entry key (next_seq q.seq) entry (record q { seq = next_seq q.seq }))

-- One round of `prioritize_keys`.
unfoldable pub prioritize_key : Text → QueueState → QueueState
unfolding push_entry get
prioritize_key key q = elim (get key q.queued) [
  | none ↦ q
  | some entry ↦
      if entry.tier == tier_boost
      then q
      else push_entry key (next_seq q.seq) (record entry { tier = tier_boost })
          (record q { seq = next_seq q.seq })
]

unfoldable pub prioritize_keys : List Text → QueueState → QueueState
unfolding prioritize_key
prioritize_keys [] q = q
prioritize_keys (key ∷ rest) q = prioritize_keys rest (prioritize_key key q)

unfoldable pub shutdown : QueueState → QueueState
shutdown q = record q { closed = true }
