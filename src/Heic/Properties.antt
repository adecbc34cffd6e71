-- ===== src/Heic/Properties.antt =====
-- The properties of a HEIC file: `ipco`, `ipma`, the walk over `meta`, and the dimensions.
use photo_viewer.Base.{
  ℕ, zero, suc, ◌%◌, ◌^◌, Bool, ◌&&◌, Option, none, some, List, [], ◌∷◌, ltb, leb, ◌==◌,
  if◌then◌else◌, ◌>>=◌, length, take, drop, get_elem?,
}
use photo_viewer.Base.Text.{ascii, text_eq}
use photo_viewer.Heic.{
  Bytes, get_range, get_from, u32_at, Read, take_bytes, number, u16, u32, fullbox, box_at_start,
  find_meta_body, parse_pitm,
}

-- The boxes from the cursor on, on fuel for the bytes.
unfoldable pub boxes_from : ℕ → Bytes → Option (List Bytes)
boxes_from zero cur = some []
boxes_from (suc fuel) cur =
    if leb 8 (length cur)
    then (box_at_start cur >>= λ (child, rest).
        boxes_from fuel rest >>= λ later. some (child ∷ later))
    else some []

unfoldable pub parse_ipco_properties : Bytes → Option (List Bytes)
parse_ipco_properties boxb = get_from 8 boxb >>= λ cur. boxes_from (length cur) cur

-- One index of a property, without its essential bit.
unfoldable pub association : Bool → Bytes → Read ℕ
unfolding u16 take_bytes
association wide cur =
    if wide
    then (u16 cur >>= λ (n, rest). some (n % 2 ^ 15, rest))
    else (number (take_bytes 1 cur) >>= λ (n, rest). some (n % 2 ^ 7, rest))

unfoldable pub associations : ℕ → Bool → Bytes → Read (List ℕ)
unfolding association
associations zero wide cur = some ([], cur)
associations (suc n) wide cur = association wide cur >>= λ (idx, rest).
    associations n wide rest >>= λ (later, behind). some (idx ∷ later, behind)

-- The entries of `ipma`.
unfoldable pub ipma_entries : ℕ → ℕ → ℕ → Bytes → ℕ → Option (List ℕ)
unfolding associations u16 u32 take_bytes
ipma_entries zero version flags cur want_id = none
ipma_entries (suc n) version flags cur want_id =
    (if ltb version 1 then u16 cur else u32 cur) >>= λ (item_id, rest).
    number (take_bytes 1 rest) >>= λ (assoc_count, behind).
    associations assoc_count (flags % 2 == 1) behind >>= λ (indices, next).
    if item_id == want_id then some indices else ipma_entries n version flags next want_id

unfoldable pub parse_ipma_for_item : Bytes → ℕ → Option (List ℕ)
unfolding fullbox u32
parse_ipma_for_item boxb want_id = get_from 8 boxb >>= λ cur. fullbox cur >>= λ (head, rest).
    u32 rest >>= λ (entry_count, entries). ipma_entries entry_count head.0 head.1 entries want_id

-- What the walk over `meta` has found.
pub record Found : Type 0 where
  pub primary_id : Option ℕ
  pub ipco : Option Bytes
  pub ipma : Option Bytes

abbrev pub typ_of : Bytes → Option Bytes
typ_of child = get_range 4 8 child

unfoldable pub with_property : Bytes → Bytes → Found → Found
unfolding text_eq
with_property typ prop found =
    if text_eq typ (ascii "ipco")
    then record found { ipco = some prop }
    else if text_eq typ (ascii "ipma")
    then record found { ipma = some prop }
    else found

-- The loop over the children of `iprp`, on fuel for the bytes.
unfoldable pub properties_from : ℕ → Bytes → Found → Option Found
properties_from zero cur found = some found
properties_from (suc fuel) cur found =
    if leb 8 (length cur)
    then (box_at_start cur >>= λ (prop, rest).
        typ_of prop >>= λ typ. properties_from fuel rest (with_property typ prop found))
    else some found

unfoldable pub with_child : Bytes → Bytes → Found → Option Found
with_child typ child found =
    if text_eq typ (ascii "pitm")
    then some (record found { primary_id = parse_pitm child })
    else if text_eq typ (ascii "iprp")
    then (get_from 8 child >>= λ cur. properties_from (length cur) cur found)
    else some found

-- The loop over the children of `meta`, on fuel for the bytes.
unfoldable pub children_from : ℕ → Bytes → Found → Option Found
children_from zero cur found = some found
children_from (suc fuel) cur found =
    if leb 8 (length cur)
    then (box_at_start cur >>= λ (child, rest).
        typ_of child >>= λ typ. with_child typ child found >>= λ next. children_from fuel rest next)
    else some found

abbrev pub is_ispe : Bytes → Bool
unfolding text_eq
is_ispe prop = leb 20 (length prop) && text_eq (take 4 (drop 4 prop)) (ascii "ispe")

abbrev pub property_of : List Bytes → ℕ → Option Bytes
property_of props zero = none
property_of props (suc index) = get_elem? props index

unfoldable pub dims_with : Option (ℕ × ℕ) → Option Bytes → Option (ℕ × ℕ)
unfolding u32_at
dims_with later none = later
dims_with later (some prop) =
    if is_ispe prop then (u32_at prop 12 >>= λ w. u32_at prop 16 >>= λ h. some (w, h)) else later

-- The first associated property that gives dimensions.
unfoldable pub dims_of : List Bytes → List ℕ → Option (ℕ × ℕ)
dims_of props [] = none
dims_of props (idx ∷ indices) = dims_with (dims_of props indices) (property_of props idx)

unfoldable pub dims_in : Found → Option (ℕ × ℕ)
dims_in found = found.primary_id >>= λ primary. found.ipco >>= parse_ipco_properties >>= λ props.
    found.ipma >>= λ ipma. parse_ipma_for_item ipma primary >>= λ indices. dims_of props indices

unfoldable pub extract_heic_dims : Bytes → Option (ℕ × ℕ)
extract_heic_dims file = find_meta_body file >>= λ body. get_from 4 body >>= λ cur.
    children_from (length cur) cur (record { primary_id = none; ipco = none; ipma = none })
    >>= dims_in
