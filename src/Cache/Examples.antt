-- ===== src/Cache/Examples.antt =====
-- A cache of three files, of which the oldest cannot be removed.
use photo_viewer.Base.{◌≡◌, ◌==◌, refl, not, Bool, List, [], ◌∷◌, arith}
use photo_viewer.Cache.{
  CacheFile, insert_by_mtime, sort_by_mtime, cleaned, enforce_size_limit_report, enforce_size_limit,
}
use photo_viewer.Cache.Cleanup.{IsCleanup, enforce_size_limit_report-IsCleanup}

abbrev cache : List CacheFile
cache =
    record { path = 0; mtime = 30; size = 500 }
    ∷ record { path = 1; mtime = 10; size = 200 }
    ∷ record { path = 2; mtime = 20; size = 400 }
    ∷ []

abbrev unlocked : CacheFile → Bool
unlocked file = not (file.path == 1)

one_removed : enforce_size_limit unlocked cache 700 ≡ 1
unfolding enforce_size_limit enforce_size_limit_report sort_by_mtime insert_by_mtime cleaned
one_removed = refl

enforce_size_limit_report-IsCleanup_example :
    IsCleanup unlocked cache 700 (enforce_size_limit_report unlocked cache 700)
enforce_size_limit_report-IsCleanup_example =
    enforce_size_limit_report-IsCleanup unlocked cache 700 (omega arith)
