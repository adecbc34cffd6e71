-- ===== src/Thumbnails/Queue/Boost.antt =====
-- `prioritize_keys`: the queued keys among those asked for are raised to the first tier.
use photo_viewer.Base.{
  ◌≡◌, refl, inl, inr, Bool, true, false, ◌||◌, none, some, List, [], ◌∷◌, ◌==◌, arith, Bool-cases,
  Option-cases, subst, sym,
}
use photo_viewer.Base.Text.{Text, text_eq, text_eq_iff}
use photo_viewer.Base.Map.{get, contains_key, get-insert, contains-insert}
use photo_viewer.Thumbnails.Queue.{
  QueuedEntry, QueueState, tier_boost, push_entry, next_seq, prioritize_key, prioritize_keys,
}
use photo_viewer.Thumbnails.Queue.Live.{queued_at, IsLive, push_entry-IsLive}

abbrev pub boosted : QueuedEntry → QueuedEntry
boosted entry = record entry { tier = tier_boost }

pub prioritize_key-absent :
    (key : Text) (q : QueueState) → get key q.queued ≡ none → prioritize_key key q ≡ q
unfolding prioritize_key
prioritize_key-absent key q h = ground (arith, h)

pub prioritize_key-boost :
    (key : Text) (q : QueueState) (entry : QueuedEntry)
    → get key q.queued ≡ some entry
    → (entry.tier == tier_boost) ≡ true
    → prioritize_key key q ≡ q
unfolding prioritize_key
prioritize_key-boost key q entry e h = ground (arith, e)

pub prioritize_key-raised :
    (key : Text) (q : QueueState) (entry : QueuedEntry)
    → get key q.queued ≡ some entry
    → (entry.tier == tier_boost) ≡ false
    → prioritize_key key q
      ≡ push_entry key (next_seq q.seq) (boosted entry) (record q { seq = next_seq q.seq })
unfolding prioritize_key
prioritize_key-raised key q entry e h = ground (arith, e)

abbrev pub contains : Text → List Text → Bool
contains key [] = false
contains key (k ∷ rest) = text_eq k key || contains key rest

-- What a run over some keys does to the queue.
pub record IsPrioritized (keys : List Text) (q after : QueueState) : Type 0 where
  pub live : IsLive after
  pub same_keys : (key : Text) → contains_key key after.queued ≡ contains_key key q.queued
  pub raised :
      (key : Text)
      → contains key keys ≡ true
      → contains_key key q.queued ≡ true
      → queued_at key tier_boost after ≡ true
  pub kept : (key : Text) → contains key keys ≡ false → get key after.queued ≡ get key q.queued
  pub never_lower :
      (key : Text) → queued_at key tier_boost q ≡ true → queued_at key tier_boost after ≡ true

same-IsPrioritized :
    (key : Text) (q : QueueState)
    → IsLive q
    → (contains_key key q.queued ≡ true → queued_at key tier_boost q ≡ true)
    → IsPrioritized (key ∷ []) q q
same-IsPrioritized key q live h = record {
  live = live;
  same_keys = λ k. refl;
  raised = λ k asked at. ground (arith, text_eq_iff key k);
  kept = λ k asked. refl;
  never_lower = λ k at. at;
}

raised-IsPrioritized :
    (key : Text) (q : QueueState) (entry : QueuedEntry)
    → IsLive q
    → get key q.queued ≡ some entry
    → IsPrioritized
        (key ∷ [])
        q
        (push_entry key (next_seq q.seq) (boosted entry) (record q { seq = next_seq q.seq }))
unfolding push_entry
raised-IsPrioritized key q entry live e = record {
  live =
      push_entry-IsLive key (next_seq q.seq) (boosted entry) (record q { seq = next_seq q.seq })
        (record { covered = live.covered });
  same_keys =
      λ k. ground (arith, contains-insert k key (boosted entry) q.queued, text_eq_iff key k, e);
  raised = λ k asked at. ground (arith, get-insert k key (boosted entry) q.queued);
  kept = λ k asked. ground (arith, get-insert k key (boosted entry) q.queued);
  never_lower = λ k at. ground (arith, get-insert k key (boosted entry) q.queued);
}

prioritize_key_lem :
    (key : Text) (q : QueueState) → IsLive q → IsPrioritized (key ∷ []) q (prioritize_key key q)
prioritize_key_lem key q live = elim (Option-cases (get key q.queued)) [
  | inl e ↦
      subst (IsPrioritized (key ∷ []) q) (sym (prioritize_key-absent key q e))
        (same-IsPrioritized key q live (λ at. ground (arith, e)))
  | inr (entry, e) ↦ elim (Bool-cases (entry.tier == tier_boost)) [
    | inl h ↦
        subst (IsPrioritized (key ∷ []) q) (sym (prioritize_key-boost key q entry e h))
          (same-IsPrioritized key q live (λ at. ground (arith, e)))
    | inr h ↦
        subst (IsPrioritized (key ∷ []) q) (sym (prioritize_key-raised key q entry e h))
          (raised-IsPrioritized key q entry live e)
  ]
]

IsPrioritized-cons :
    (key : Text) (keys : List Text) (q between after : QueueState)
    → IsPrioritized (key ∷ []) q between
    → IsPrioritized keys between after
    → IsPrioritized (key ∷ keys) q after
IsPrioritized-cons key keys q between after p r = record {
  live = r.live;
  same_keys = λ k. ground (arith, p.same_keys k, r.same_keys k);
  raised = λ k asked at. ground (arith, p.same_keys k, p.raised k, r.raised k, r.never_lower k);
  kept = λ k asked. ground (arith, p.kept k, r.kept k);
  never_lower = λ k at. r.never_lower k (p.never_lower k at);
}

-- Where every queued request has its item in the heap, prioritizing keys enqueues no key and takes
-- none out, raises each of them that is queued to the first tier, leaves the entries of all other
-- keys alone, and every queued request still has its item in the heap.
pub prioritize_keys_lem :
    (keys : List Text) (q : QueueState) → IsLive q → IsPrioritized keys q (prioritize_keys keys q)
unfolding prioritize_keys
prioritize_keys_lem [] q live = record {
  live = live;
  same_keys = λ k. refl;
  raised = λ k asked at. ground arith;
  kept = λ k asked. refl;
  never_lower = λ k at. at;
}
prioritize_keys_lem (key ∷ rest) q live =
    let one = prioritize_key_lem key q live in
    IsPrioritized-cons key rest q (prioritize_key key q)
      (prioritize_keys rest (prioritize_key key q)) one
      (prioritize_keys_lem rest (prioritize_key key q) one.live)
