-- ===== src/Cache.antt =====
-- src/core/cache.rs: the cleanup of the disk cache. What the directory holds, with the time of the last
-- change and the size of each file, and whether a file can be removed are arguments; a directory that does
-- not exist holds nothing.
pub mod Oldest
pub mod Cleanup
mod Examples
use photo_viewer.Base.{
  ℕ, ◌+◌, ◌-◌, ◌%◌, ◌^◌, min, Bool, true, false, List, [], ◌∷◌, leb, if◌then◌else◌,
}

-- A name stands for the path.
pub record CacheFile : Type 0 where
  pub path : ℕ
  pub mtime : ℕ
  pub size : ℕ

pub record CacheCleanupReport : Type 0 where
  pub deleted_files : ℕ
  pub deleted_bytes : ℕ
  pub failed_files : ℕ
  pub remaining_bytes : ℕ

-- `CacheCleanupReport::default()`
abbrev pub empty_report : CacheCleanupReport
empty_report = record {
  deleted_files = 0;
  deleted_bytes = 0;
  failed_files = 0;
  remaining_bytes = 0;
}

-- `sort_by_key`, which is stable: the oldest first.
unfoldable pub insert_by_mtime : CacheFile → List CacheFile → List CacheFile
insert_by_mtime file [] = file ∷ []
insert_by_mtime file (f ∷ fs) =
    let rest = insert_by_mtime file fs in if leb file.mtime f.mtime then file ∷ f ∷ fs else f ∷ rest

unfoldable pub sort_by_mtime : List CacheFile → List CacheFile
sort_by_mtime [] = []
sort_by_mtime (file ∷ files) = insert_by_mtime file (sort_by_mtime files)

-- The sum of the sizes, in u64.
abbrev pub sum_sizes : List CacheFile → ℕ
sum_sizes [] = 0
sum_sizes (file ∷ files) = (file.size + sum_sizes files) % 2 ^ 64

abbrev pub with_deleted : CacheFile → CacheCleanupReport → CacheCleanupReport
with_deleted file report = record report {
  deleted_files = report.deleted_files + 1;
  deleted_bytes = min (report.deleted_bytes + file.size) (2 ^ 64 - 1);
}

abbrev pub with_failed : CacheCleanupReport → CacheCleanupReport
with_failed report = record report { failed_files = report.failed_files + 1 }

module _ (remove_file : CacheFile → Bool) where
  -- The report, and the files that were removed.
  unfoldable pub cleaned :
      List CacheFile → ℕ → ℕ → CacheCleanupReport → CacheCleanupReport × List CacheFile
  cleaned [] total max_bytes report = (record report { remaining_bytes = total }, [])
  cleaned (file ∷ files) total max_bytes report =
      if leb total max_bytes
      then (record report { remaining_bytes = total }, [])
      else elim (remove_file file) [
        | true ↦ (
          (cleaned files (total - file.size) max_bytes (with_deleted file report)).0,
          file ∷ (cleaned files (total - file.size) max_bytes (with_deleted file report)).1,
        )
        | false ↦ cleaned files total max_bytes (with_failed report)
      ]

  unfoldable pub enforce_size_limit_report :
      List CacheFile → ℕ → CacheCleanupReport × List CacheFile
  enforce_size_limit_report files max_bytes =
      cleaned (sort_by_mtime files) (sum_sizes files) max_bytes empty_report

  unfoldable pub enforce_size_limit : List CacheFile → ℕ → ℕ
  enforce_size_limit files max_bytes = (enforce_size_limit_report files max_bytes).0.deleted_files
