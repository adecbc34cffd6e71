-- ===== src/Cache/Cleanup.antt =====
-- The cleanup removes the oldest files, as many as the limit needs and no more.
use mathlib.Core.List.{Permᴰ}
use photo_viewer.Base.{
  ℕ, ◌+◌, ◌-◌, ◌^◌, ◌≤◌, ◌<◌, ◌≡◌, ◌⊎◌, inl, inr, refl, ap, subst, ◌∙◌, Bool, true, false, List, [],
  ◌∷◌, ◌++◌, leb, if◌then◌else◌, length, arith, Bool-cases,
}
use photo_viewer.Cache.{
  CacheFile, CacheCleanupReport, empty_report, sort_by_mtime, sum_sizes, with_deleted, with_failed,
  cleaned, enforce_size_limit_report,
}
use photo_viewer.Cache.Oldest.{
  bytes, OldestFirst, sum_sizes-bytes, sort-OldestFirst, sort-Permᴰ, bytes-Permᴰ,
}

module _ (remove_file : CacheFile → Bool) where
  abbrev pub removable : List CacheFile → List CacheFile
  removable [] = []
  removable (file ∷ files) = if remove_file file then file ∷ removable files else removable files

  -- From so many bytes on, the limit asks for each of the files, when the ones before it are gone.
  abbrev pub Needed : ℕ → ℕ → List CacheFile → Type 0
  Needed max_bytes total [] = Unit
  Needed max_bytes total (file ∷ files) =
      (max_bytes < total)
      × Needed max_bytes (if remove_file file then total - file.size else total) files

  -- What the loop makes of a report, of so many bytes and of the files in their order.
  record IsRun (files : List CacheFile) (total max_bytes : ℕ) (before : CacheCleanupReport)
      (outcome : CacheCleanupReport × List CacheFile) : Type 0 where
    pub tried : List CacheFile
    pub left : List CacheFile
    pub split : files ≡ tried ++ left
    pub removed : outcome.1 ≡ removable tried
    pub counted : outcome.0.deleted_files ≡ before.deleted_files + length outcome.1
    pub failed :
        outcome.0.deleted_files + outcome.0.failed_files
        ≡ before.deleted_files + before.failed_files + length tried
    pub freed : outcome.0.deleted_bytes ≡ before.deleted_bytes + bytes outcome.1
    pub kept : outcome.0.remaining_bytes + bytes outcome.1 ≡ total
    pub enough : (left ≡ []) ⊎ (outcome.0.remaining_bytes ≤ max_bytes)
    pub needed : Needed max_bytes total tried

  stopped :
      (files : List CacheFile) (total max_bytes : ℕ) (before : CacheCleanupReport)
      → (files ≡ []) ⊎ (total ≤ max_bytes)
      → IsRun files total max_bytes before (record before { remaining_bytes = total }, [])
  stopped files total max_bytes before h = record {
    tried = [];
    left = files;
    split = refl;
    removed = refl;
    counted = omega arith;
    failed = omega arith;
    freed = omega arith;
    kept = omega arith;
    enough = h;
    needed = tt;
  }

  after_deleted :
      (file : CacheFile) (files : List CacheFile) (total max_bytes : ℕ)
      (before : CacheCleanupReport) (outcome : CacheCleanupReport × List CacheFile)
      → remove_file file ≡ true
      → max_bytes < total
      → file.size ≤ total
      → before.deleted_bytes + total < 2 ^ 64
      → IsRun files (total - file.size) max_bytes (with_deleted file before) outcome
      → IsRun (file ∷ files) total max_bytes before (outcome.0, file ∷ outcome.1)
  after_deleted file files total max_bytes before outcome e over size small run = record {
    tried = file ∷ run.tried;
    left = run.left;
    split = ap (λ fs. file ∷ fs) run.split;
    removed = rw e (ap (λ fs. file ∷ fs) run.removed);
    counted = let counted = run.counted in omega arith;
    failed = let failed = run.failed in omega arith;
    freed = let freed = run.freed in omega arith;
    kept = let kept = run.kept in omega arith;
    enough = run.enough;
    needed = rw e (over, run.needed);
  }

  after_failed :
      (file : CacheFile) (files : List CacheFile) (total max_bytes : ℕ)
      (before : CacheCleanupReport) (outcome : CacheCleanupReport × List CacheFile)
      → remove_file file ≡ false
      → max_bytes < total
      → IsRun files total max_bytes (with_failed before) outcome
      → IsRun (file ∷ files) total max_bytes before outcome
  after_failed file files total max_bytes before outcome e over run = record {
    tried = file ∷ run.tried;
    left = run.left;
    split = ap (λ fs. file ∷ fs) run.split;
    removed = rw e run.removed;
    counted = run.counted;
    failed = let failed = run.failed in omega arith;
    freed = run.freed;
    kept = run.kept;
    enough = run.enough;
    needed = rw e (over, run.needed);
  }

  cleaned-IsRun :
      (files : List CacheFile) (total max_bytes : ℕ) (before : CacheCleanupReport)
      → bytes files ≤ total
      → before.deleted_bytes + total < 2 ^ 64
      → IsRun files total max_bytes before (cleaned remove_file files total max_bytes before)
  unfolding cleaned
  cleaned-IsRun [] total max_bytes before h small = stopped [] total max_bytes before (inl refl)
  cleaned-IsRun (file ∷ files) total max_bytes before h small =
      elim (Bool-cases (leb total max_bytes)) [
        | inl e ↦ rw e (stopped (file ∷ files) total max_bytes before (inr (ground arith)))
        | inr e ↦ elim (Bool-cases (remove_file file)) [
          | inl r ↦
              rw (e, r)
                (after_deleted file files total max_bytes before _ r (ground arith) (omega arith)
                  small
                  (cleaned-IsRun files (total - file.size) max_bytes (with_deleted file before)
                    (omega arith) (omega arith)))
          | inr r ↦
              rw (e, r)
                (after_failed file files total max_bytes before _ r (ground arith)
                  (cleaned-IsRun files total max_bytes (with_failed before) (omega arith) small))
        ]
      ]

  -- A cleanup of a directory.
  pub record IsCleanup (files : List CacheFile) (max_bytes : ℕ)
      (outcome : CacheCleanupReport × List CacheFile) : Type 0 where
    pub tried : List CacheFile
    pub left : List CacheFile
    pub all : Permᴰ files (tried ++ left)
    pub oldest : OldestFirst (tried ++ left)
    pub removed : outcome.1 ≡ removable tried
    pub counted : outcome.0.deleted_files ≡ length outcome.1
    pub failed : outcome.0.deleted_files + outcome.0.failed_files ≡ length tried
    pub freed : outcome.0.deleted_bytes ≡ bytes outcome.1
    pub kept : outcome.0.remaining_bytes + bytes outcome.1 ≡ bytes files
    pub enough : (left ≡ []) ⊎ (outcome.0.remaining_bytes ≤ max_bytes)
    pub needed : Needed max_bytes (bytes files) tried

  -- For a directory whose sizes add up to less than 2 ^ 64: the cleanup tries the files from the oldest on,
  -- in the order of their last change, and removes those it tried that can be removed; each of them was
  -- tried while more than the limit was left, and it stops only where no file or no more than the limit is
  -- left. The report has the number and the bytes of the files that were removed, the number of those that
  -- could not be, and the bytes of all that stay.
  pub enforce_size_limit_report-IsCleanup :
      (files : List CacheFile) (max_bytes : ℕ)
      → bytes files < 2 ^ 64
      → IsCleanup files max_bytes (enforce_size_limit_report remove_file files max_bytes)
  unfolding enforce_size_limit_report
  enforce_size_limit_report-IsCleanup files max_bytes small =
      let sorted = sort_by_mtime files in
      let same : bytes files ≡ bytes sorted = bytes-Permᴰ (sort-Permᴰ files) in
      let total : sum_sizes files ≡ bytes files = sum_sizes-bytes files small in
      let run =
        cleaned-IsRun sorted (sum_sizes files) max_bytes empty_report (omega arith) (omega arith) in
      record {
        tried = run.tried;
        left = run.left;
        all = subst (λ fs. Permᴰ files fs) run.split (sort-Permᴰ files);
        oldest = subst OldestFirst run.split (sort-OldestFirst files);
        removed = run.removed;
        counted = let counted = run.counted in omega arith;
        failed = let failed = run.failed in omega arith;
        freed = let freed = run.freed in omega arith;
        kept = run.kept ∙ total;
        enough = run.enough;
        needed = subst (λ n. Needed max_bytes n run.tried) total run.needed;
      }
