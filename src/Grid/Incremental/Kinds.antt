-- ===== src/Grid/Incremental/Kinds.antt =====
-- Which change sets are admitted.
use photo_viewer.Base.{
  ℕ, ◌+◌, ◌≤◌, ◌≡◌, Bool, none, some, List, [], ◌∷◌, map, ◌==◌, if◌then◌else◌, length, arith,
}
use photo_viewer.Base.U32.{u32_max}
use photo_viewer.Grid.Incremental.{
  IncrementalItemKind, inserted, updated, upsert, is_inserted, is_upsert, is_new, count_kinds,
  resolve_inserted_kinds,
}

count-new :
    (kinds : List IncrementalItemKind)
    → count_kinds is_new kinds ≡ count_kinds is_inserted kinds + count_kinds is_upsert kinds
count-new [] = omega arith
count-new (inserted ∷ kinds) = omega (arith, count-new kinds)
count-new (updated ∷ kinds) = count-new kinds
count-new (upsert ∷ kinds) = omega (arith, count-new kinds)

count_bound :
    (is_kind : IncrementalItemKind → Bool) (kinds : List IncrementalItemKind)
    → count_kinds is_kind kinds ≤ length kinds
count_bound is_kind [] = omega arith
count_bound is_kind (kind ∷ kinds) = ground (arith, count_bound is_kind kinds)

-- For fewer changes than u32 counts: a change set is admitted exactly where the total has grown by as many
-- items as it has insertions and upserts, and all of these are then taken for insertions.
pub resolve_inserted_kinds-total :
    (old_total total : ℕ) (kinds : List IncrementalItemKind)
    → total ≤ u32_max
    → length kinds ≤ u32_max
    → resolve_inserted_kinds old_total total kinds
      ≡ (if total == old_total + count_kinds is_new kinds then some (map is_new kinds) else none)
unfolding resolve_inserted_kinds
resolve_inserted_kinds-total old_total total kinds small few =
    ground (arith, count-new kinds, count_bound is_inserted kinds, count_bound is_upsert kinds)
