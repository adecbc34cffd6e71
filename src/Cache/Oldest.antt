-- ===== src/Cache/Oldest.antt =====
-- The files in the order of the cleanup, and the sum of their sizes.
use mathlib.Core.List.Permᴰ
use mathlib.Core.List.{Permᴰ}
use photo_viewer.Base.{
  ℕ, ◌+◌, ◌^◌, ◌≤◌, ◌<◌, ◌≡◌, inl, inr, refl, ap, ◌∙◌, List, [], ◌∷◌, leb, arith, Bool-cases,
}
use photo_viewer.Cache.{CacheFile, insert_by_mtime, sort_by_mtime, sum_sizes}

-- The sum of the sizes, however large.
abbrev pub bytes : List CacheFile → ℕ
bytes [] = 0
bytes (file ∷ files) = file.size + bytes files

abbrev pub NoneOlder : ℕ → List CacheFile → Type 0
NoneOlder mtime [] = Unit
NoneOlder mtime (file ∷ files) = (mtime ≤ file.mtime) × NoneOlder mtime files

abbrev pub OldestFirst : List CacheFile → Type 0
OldestFirst [] = Unit
OldestFirst (file ∷ files) = NoneOlder file.mtime files × OldestFirst files

pub sum_sizes-bytes :
    (files : List CacheFile) → bytes files < 2 ^ 64 → sum_sizes files ≡ bytes files
sum_sizes-bytes [] small = refl
sum_sizes-bytes (file ∷ files) small = omega (arith, sum_sizes-bytes files (omega arith))

NoneOlder-trans : (a b : ℕ) (files : List CacheFile) → a ≤ b → NoneOlder b files → NoneOlder a files
NoneOlder-trans a b [] h none_older = tt
NoneOlder-trans a b (file ∷ files) h (first, rest) = (omega arith, NoneOlder-trans a b files h rest)

insert-NoneOlder :
    (mtime : ℕ) (file : CacheFile) (files : List CacheFile)
    → mtime ≤ file.mtime
    → NoneOlder mtime files
    → NoneOlder mtime (insert_by_mtime file files)
unfolding insert_by_mtime
insert-NoneOlder mtime file [] h none_older = (h, tt)
insert-NoneOlder mtime file (f ∷ fs) h (first, rest) = elim (Bool-cases (leb file.mtime f.mtime)) [
  | inl e ↦ rw e (h, (first, rest))
  | inr e ↦ rw e (first, insert-NoneOlder mtime file fs h rest)
]

insert-OldestFirst :
    (file : CacheFile) (files : List CacheFile)
    → OldestFirst files
    → OldestFirst (insert_by_mtime file files)
unfolding insert_by_mtime
insert-OldestFirst file [] sorted = (tt, tt)
insert-OldestFirst file (f ∷ fs) (first, rest) = elim (Bool-cases (leb file.mtime f.mtime)) [
  | inl e ↦ rw e (
      let le : file.mtime ≤ f.mtime = ground arith in
      ((le, NoneOlder-trans file.mtime f.mtime fs le first), (first, rest)))
  | inr e ↦
      rw e (insert-NoneOlder f.mtime file fs (ground arith) first, insert-OldestFirst file fs rest)
]

pub sort-OldestFirst : (files : List CacheFile) → OldestFirst (sort_by_mtime files)
unfolding sort_by_mtime
sort-OldestFirst [] = tt
sort-OldestFirst (file ∷ files) =
    insert-OldestFirst file (sort_by_mtime files) (sort-OldestFirst files)

insert-Permᴰ :
    (file : CacheFile) (files : List CacheFile) → Permᴰ (file ∷ files) (insert_by_mtime file files)
unfolding insert_by_mtime
insert-Permᴰ file [] = Permᴰ.refl (file ∷ [])
insert-Permᴰ file (f ∷ fs) = elim (Bool-cases (leb file.mtime f.mtime)) [
  | inl e ↦ rw e (Permᴰ.refl (file ∷ f ∷ fs))
  | inr e ↦ rw e (Permᴰ.trans (Permᴰ.swap refl refl) (Permᴰ.cons refl (insert-Permᴰ file fs)))
]

pub sort-Permᴰ : (files : List CacheFile) → Permᴰ files (sort_by_mtime files)
unfolding sort_by_mtime
sort-Permᴰ [] = Permᴰ.nil
sort-Permᴰ (file ∷ files) =
    Permᴰ.trans (Permᴰ.cons refl (sort-Permᴰ files)) (insert-Permᴰ file (sort_by_mtime files))

pub bytes-Permᴰ : {files others : List CacheFile} → Permᴰ files others → bytes files ≡ bytes others
bytes-Permᴰ Permᴰ.nil = refl
bytes-Permᴰ (Permᴰ.cons {a = a} {b = b} e p) =
    let sizes : a.size ≡ b.size = ap (λ f. f.size) e in omega (arith, bytes-Permᴰ p)
bytes-Permᴰ (Permᴰ.swap {a = a} {b = b} {a' = a'} {b' = b'} e f) =
    let sizes : a.size ≡ b'.size = ap (λ f. f.size) e in
    let others : b.size ≡ a'.size = ap (λ f. f.size) f in omega arith
bytes-Permᴰ (Permᴰ.trans p q) = bytes-Permᴰ p ∙ bytes-Permᴰ q
