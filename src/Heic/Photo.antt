-- ===== src/Heic/Photo.antt =====
-- A photo as a writer makes it: the children of its `meta` box give its dimensions.
use photo_viewer.Base.{
  ℕ, suc, ◌/◌, ◌%◌, ◌^◌, ◌<◌, ◌≡◌, refl, sym, ap, ◌∙◌, true, false, none, some, List, [], ◌∷◌, ◌++◌,
  ◌>>=◌, arith, length, get_elem?,
}
use photo_viewer.Base.Text.{ascii, text_eq}
use photo_viewer.Exif.{to_be_bytes}
use photo_viewer.Exif.Bytes.{from_be_bytes-to_be_bytes}
use photo_viewer.Heic.{Bytes, take_bytes, u32_at, fullbox, parse_pitm}
use photo_viewer.Heic.Properties.{
  Found, association, associations, ipma_entries, parse_ipma_for_item, with_property,
  properties_from, with_child, children_from, property_of, is_ispe, dims_with, dims_of, dims_in,
}
use photo_viewer.Heic.Boxes.{
  Box, IsBox, encode, encode_all, encodings, AllBoxes, get_from-encode,
  parse_ipco_properties-encode,
}
use photo_viewer.Heic.Dims.{fold_children, children_from-all, properties_from-all}

abbrev pub zeros : Bytes
zeros = 0 ∷ 0 ∷ 0 ∷ 0 ∷ []

abbrev pub to_be_bytes_16 : ℕ → Bytes
to_be_bytes_16 n = n / 256 % 256 ∷ n % 256 ∷ []

-- The boxes of a photo with one associated property.
abbrev pub pitm_box : ℕ → Box
pitm_box item = record { typ = ascii "pitm"; payload = zeros ++ to_be_bytes_16 item }

abbrev pub ispe_box : ℕ → ℕ → Box
ispe_box w h = record { typ = ascii "ispe"; payload = zeros ++ to_be_bytes w ++ to_be_bytes h }

abbrev pub ipco_box : List Box → Box
ipco_box props = record { typ = ascii "ipco"; payload = encode_all props }

abbrev pub ipma_box : ℕ → ℕ → Box
ipma_box item index = record {
  typ = ascii "ipma";
  payload = zeros ++ to_be_bytes 1 ++ to_be_bytes_16 item ++ 1 ∷ index ∷ [];
}

abbrev pub iprp_box : List Box → ℕ → ℕ → Box
iprp_box props item index = record {
  typ = ascii "iprp";
  payload = encode_all (ipco_box props ∷ ipma_box item index ∷ []);
}

parse_pitm-box : (item : ℕ) → item < 2 ^ 16 → parse_pitm (encode (pitm_box item)) ≡ some item
unfolding parse_pitm fullbox take_bytes
parse_pitm-box item h = ap some (omega arith)

parse_ipma_for_item-box :
    (item index : ℕ)
    → item < 2 ^ 16
    → index < 2 ^ 7
    → parse_ipma_for_item (encode (ipma_box item index)) item ≡ some (index ∷ [])
unfolding parse_ipma_for_item fullbox take_bytes ipma_entries associations association
parse_ipma_for_item-box item index h k = ground arith

get_elem-encodings :
    (before : List Box) (b : Box) (after : List Box)
    → get_elem? (encodings (before ++ b ∷ after)) (length before) ≡ some (encode b)
get_elem-encodings [] b after = refl
get_elem-encodings (a ∷ before) b after = get_elem-encodings before b after

dims_of-found :
    (props : List Bytes) (idx : ℕ) (prop : Bytes) (w h : ℕ)
    → property_of props idx ≡ some prop
    → is_ispe prop ≡ true
    → u32_at prop 12 ≡ some w
    → u32_at prop 16 ≡ some h
    → dims_of props (idx ∷ []) ≡ some (w, h)
unfolding dims_of dims_with
dims_of-found props idx prop w h p i k l = ap (dims_with none) p ∙ rw (i, k, l) refl

dims_of-ispe :
    (before : List Box) (w h : ℕ) (after : List Box)
    → w < 2 ^ 32
    → h < 2 ^ 32
    → dims_of (encodings (before ++ ispe_box w h ∷ after)) (suc (length before) ∷ []) ≡ some (w, h)
unfolding u32_at text_eq
dims_of-ispe before w h after k l =
    dims_of-found (encodings (before ++ ispe_box w h ∷ after)) (suc (length before))
      (encode (ispe_box w h)) w h (get_elem-encodings before (ispe_box w h) after) refl
      (ap some (from_be_bytes-to_be_bytes w k)) (ap some (from_be_bytes-to_be_bytes h l))

-- A child of `meta` that the walk passes over.
pub record IsOther (b : Box) : Type 0 where
  pub no_pitm : text_eq b.typ (ascii "pitm") ≡ false
  pub no_iprp : text_eq b.typ (ascii "iprp") ≡ false

abbrev pub AllOthers : List Box → Type 0
AllOthers [] = Unit
AllOthers (b ∷ bs) = IsOther b × AllOthers bs

fold_children-others :
    (others bs : List Box) (found : Found)
    → AllOthers others
    → fold_children (others ++ bs) found ≡ fold_children bs found
unfolding with_child
fold_children-others [] bs found h = refl
fold_children-others (b ∷ others) bs found (h, rest) =
    rw (h.no_pitm, h.no_iprp) (fold_children-others others bs found rest)

-- The children of `meta`, and what they hold: which photo, its properties, and any other children.
pub record Photo : Type 0 where
  pub front : List Box
  pub middle : List Box
  pub back : List Box
  pub item : ℕ
  pub before : List Box
  pub after : List Box
  pub width : ℕ
  pub height : ℕ

abbrev pub props_of : Photo → List Box
props_of p = p.before ++ ispe_box p.width p.height ∷ p.after

abbrev pub photo_iprp : Photo → Box
photo_iprp p = iprp_box (props_of p) p.item (suc (length p.before))

abbrev pub photo_children : Photo → List Box
photo_children p = p.front ++ pitm_box p.item ∷ (p.middle ++ photo_iprp p ∷ p.back)

pub record IsPhoto (p : Photo) : Type 0 where
  pub boxes : AllBoxes (photo_children p)
  pub others_front : AllOthers p.front
  pub others_middle : AllOthers p.middle
  pub others_back : AllOthers p.back
  pub item_small : p.item < 2 ^ 16
  pub props : AllBoxes (props_of p)
  pub ipco_small : IsBox (ipco_box (props_of p))
  pub index_small : suc (length p.before) < 2 ^ 7
  pub width_small : p.width < 2 ^ 32
  pub height_small : p.height < 2 ^ 32

abbrev pub nothing : Found
nothing = record { primary_id = none; ipco = none; ipma = none }

abbrev pub photo_found : Photo → Found
photo_found p = record {
  primary_id = some p.item;
  ipco = some (encode (ipco_box (props_of p)));
  ipma = some (encode (ipma_box p.item (suc (length p.before))));
}

with_child-pitm :
    (item : ℕ) (found : Found)
    → item < 2 ^ 16
    → with_child (ascii "pitm") (encode (pitm_box item)) found
      ≡ some (record found { primary_id = some item })
unfolding with_child text_eq
with_child-pitm item found h =
    ap (λ o. some (record found { primary_id = o })) (parse_pitm-box item h)

AllBoxes-at :
    (before : List Box) (b : Box) (after : List Box)
    → AllBoxes (before ++ b ∷ after)
    → IsBox b × AllBoxes after
AllBoxes-at [] b after h = h
AllBoxes-at (a ∷ before) b after (_, h) = AllBoxes-at before b after h

with_child-iprp :
    (props : List Box) (item index : ℕ) (found : Found)
    → IsBox (iprp_box props item index)
    → IsBox (ipco_box props)
    → with_child (ascii "iprp") (encode (iprp_box props item index)) found
      ≡ some (record found {
        ipco = some (encode (ipco_box props));
        ipma = some (encode (ipma_box item index));
      })
unfolding with_child text_eq with_property
with_child-iprp props item index found h k =
    let parts = ipco_box props ∷ ipma_box item index ∷ [] in
    ap (λ o. o >>= λ cur. properties_from (length cur) cur found)
      (get_from-encode (iprp_box props item index) h)
    ∙ properties_from-all (length (encode_all parts)) parts found
        (k, (record { typed = refl; small = omega arith }, tt)) (omega arith)

fold_children-end :
    (others : List Box) (found : Found) → AllOthers others → fold_children others found ≡ some found
unfolding with_child
fold_children-end [] found h = refl
fold_children-end (b ∷ others) found (h, rest) =
    rw (h.no_pitm, h.no_iprp) (fold_children-end others found rest)

fold_children-photo :
    (p : Photo) → IsPhoto p → fold_children (photo_children p) nothing ≡ some (photo_found p)
fold_children-photo p h =
    let behind = p.middle ++ photo_iprp p ∷ p.back in
    let numbered = record nothing { primary_id = some p.item } in
    let (_, boxes) = AllBoxes-at p.front (pitm_box p.item) behind h.boxes in
    let (iprp, _) = AllBoxes-at p.middle (photo_iprp p) p.back boxes in
    fold_children-others p.front (pitm_box p.item ∷ behind) nothing h.others_front
    ∙ ap (λ o. o >>= fold_children behind) (with_child-pitm p.item nothing h.item_small)
    ∙ fold_children-others p.middle (photo_iprp p ∷ p.back) numbered h.others_middle
    ∙ ap (λ o. o >>= fold_children p.back)
        (with_child-iprp (props_of p) p.item (suc (length p.before)) numbered iprp h.ipco_small)
    ∙ fold_children-end p.back (photo_found p) h.others_back

dims_in-photo : (p : Photo) → IsPhoto p → dims_in (photo_found p) ≡ some (p.width, p.height)
unfolding dims_in
dims_in-photo p h =
    ap
      (λ o. o >>= λ props.
        parse_ipma_for_item (encode (ipma_box p.item (suc (length p.before)))) p.item >>= λ indices.
        dims_of props indices)
      (parse_ipco_properties-encode (props_of p) h.props (ipco_box (props_of p)) h.ipco_small refl)
    ∙ ap (λ o. o >>= λ indices. dims_of (encodings (props_of p)) indices)
        (parse_ipma_for_item-box p.item (suc (length p.before)) h.item_small h.index_small)
    ∙ dims_of-ispe p.before p.width p.height p.after h.width_small h.height_small

-- From the children of a photo's `meta` box the walk gives the dimensions of its property.
pub children_from-photo :
    (p : Photo)
    → IsPhoto p
    → (cur : Bytes) → encode_all (photo_children p) ≡ cur
    → (children_from (length cur) cur nothing >>= dims_in) ≡ some (p.width, p.height)
children_from-photo p h cur e =
    let same = ap length e in
    ap (λ c. children_from (length cur) c nothing >>= dims_in) (sym e)
    ∙ ap (λ o. o >>= dims_in)
        (children_from-all (length cur) (photo_children p) nothing h.boxes (omega (arith, same))
          ∙ fold_children-photo p h)
    ∙ dims_in-photo p h
