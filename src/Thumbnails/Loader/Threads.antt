-- ===== src/Thumbnails/Loader/Threads.antt =====
-- The threads of the loader that hold a key, counted.
use photo_viewer.Base.{ℕ, ◌+◌, ◌≡◌, refl, Bool, true, false, some, List, [], ◌∷◌, arith}
use photo_viewer.Base.Text.{Text, text_eq, text_eq_iff}
use photo_viewer.Base.Map.{contains_key}
use photo_viewer.Thumbnails.Loader.{Loader, find_by, without_by, entering_key, own_key, working_key}

abbrev pub one_if : Bool → ℕ
one_if true = 1
one_if false = 0

unfoldable pub count_by {ℓ} : {A : Type ℓ} → (A → Text) → Text → List A → ℕ
count_by key_of key [] = 0
count_by key_of key (a ∷ rest) = one_if (text_eq (key_of a) key) + count_by key_of key rest

pub count-cons {ℓ} :
    {A : Type ℓ} (key_of : A → Text) (key : Text) (a : A) (rest : List A)
    → count_by key_of key (a ∷ rest) ≡ one_if (text_eq (key_of a) key) + count_by key_of key rest
unfolding count_by
count-cons key_of key a rest = refl

pub count-without {ℓ} :
    {A : Type ℓ} (key_of : A → Text) (j k : Text) (l : List A) (a : A)
    → find_by key_of j l ≡ some a
    → count_by key_of k l ≡ one_if (text_eq j k) + count_by key_of k (without_by key_of j l)
unfolding count_by
count-without key_of j k [] a e = ground arith
count-without key_of j k (b ∷ rest) a e =
    ground (arith, count-without key_of j k rest a, text_eq_iff (key_of b) j)

pub find-key {ℓ} :
    {A : Type ℓ} (key_of : A → Text) (j : Text) (l : List A) (a : A)
    → find_by key_of j l ≡ some a
    → key_of a ≡ j
find-key key_of j [] a e = ground arith
find-key key_of j (b ∷ rest) a e =
    ground (arith, find-key key_of j rest a, text_eq_iff (key_of b) j)

-- How many generations of a key are under way: those of threads, and that of the queue.
abbrev pub generations : {Cache Thumb : Type 0} → Text → Loader Cache Thumb → ℕ
generations key s =
    count_by entering_key key s.entering
    + (count_by own_key key s.refused
        + (count_by working_key key s.working + one_if (contains_key key s.queue.queued)))
