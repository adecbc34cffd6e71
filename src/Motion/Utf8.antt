-- ===== src/Motion/Utf8.antt =====
-- `String::from_utf8_lossy` of the standard library: each maximal part of no character is replaced.
use photo_viewer.Base.{
  ℕ, zero, suc, ◌&&◌, List, [], ◌∷◌, ◌++◌, ltb, leb, ◌==◌, if◌then◌else◌, length, take, drop,
}
use photo_viewer.Base.Text.{Text}

-- The bounds of the bytes behind a first byte of two to four, and none behind any other.
abbrev tail_bounds : ℕ → List (ℕ × ℕ)
tail_bounds first =
    let any : ℕ × ℕ = (128, 191) in
    if leb 194 first && leb first 223
    then any ∷ []
    else if first == 224
    then (160, 191) ∷ any ∷ []
    else if first == 237
    then (128, 159) ∷ any ∷ []
    else if leb 225 first && leb first 239
    then any ∷ any ∷ []
    else if first == 240
    then (144, 191) ∷ any ∷ any ∷ []
    else if leb 241 first && leb first 243
    then any ∷ any ∷ any ∷ []
    else if first == 244
    then (128, 143) ∷ any ∷ any ∷ []
    else []

-- How many bytes follow within their bounds.
abbrev matched : List (ℕ × ℕ) → Text → ℕ
matched [] s = 0
matched (b ∷ bounds) [] = 0
matched ((low, high) ∷ bounds) (c ∷ s) =
    let rest = matched bounds s in if leb low c && leb c high then suc rest else 0

abbrev replacement : Text
replacement = 239 ∷ 191 ∷ 189 ∷ []

-- The character or its replacement that a first byte starts.
abbrev decoded : ℕ → Text → Text
decoded first s =
    let bounds = tail_bounds first in
    let count = matched bounds s in
    if ltb first 128
    then first ∷ []
    else if ltb 0 (length bounds) && count == length bounds
    then first ∷ take count s
    else replacement

unfoldable pub lossy_from : ℕ → Text → Text
lossy_from zero s = []
lossy_from (suc fuel) [] = []
lossy_from (suc fuel) (first ∷ s) =
    decoded first s ++ lossy_from fuel (drop (matched (tail_bounds first) s) s)

unfoldable pub from_utf8_lossy : Text → Text
from_utf8_lossy s = lossy_from (length s) s
