-- ===== src/Heic/Dims.antt =====
-- The walks over written boxes, and the dimensions that they find.
use photo_viewer.Base.{
  ℕ, zero, suc, ◌+◌, ◌≤◌, ◌≡◌, refl, ap, ◌∙◌, Option, none, some, List, [], ◌∷◌, ◌++◌, ◌>>=◌, arith,
  length, length-append, le→leb,
}
use photo_viewer.Heic.{Bytes}
use photo_viewer.Heic.Properties.{Found, with_property, properties_from, with_child, children_from}
use photo_viewer.Heic.Boxes.{
  Box, size, IsBox, encode, encode_all, AllBoxes, length-encode, box_at_start-encode, typ_of-encode,
}

-- What the children of `meta` make of what is found, one after the other.
abbrev pub fold_children : List Box → Found → Option Found
fold_children [] found = some found
fold_children (b ∷ bs) found = with_child b.typ (encode b) found >>= λ next. fold_children bs next

abbrev pub fold_properties : List Box → Found → Found
fold_properties [] found = found
fold_properties (b ∷ bs) found = fold_properties bs (with_property b.typ (encode b) found)

long : (b : Box) (rest : Bytes) → IsBox b → length (encode b ++ rest) ≡ size b + length rest
long b rest h = omega (arith, length-encode b h, length-append (encode b) rest)

children_from-encode :
    (fuel : ℕ) (b : Box) (rest : Bytes) (found : Found)
    → IsBox b
    → children_from (suc fuel) (encode b ++ rest) found
      ≡ (with_child b.typ (encode b) found >>= λ next. children_from fuel rest next)
unfolding children_from
children_from-encode fuel b rest found h =
    rw
      (
        le→leb 8 (length (encode b ++ rest)) (omega (arith, long b rest h)),
        box_at_start-encode b rest h,
      )
      (ap
        (λ o. o >>= λ typ. with_child typ (encode b) found >>= λ next. children_from fuel rest next)
        (typ_of-encode b h))

children_from-empty : (fuel : ℕ) (found : Found) → children_from fuel [] found ≡ some found
unfolding children_from
children_from-empty zero found = refl
children_from-empty (suc fuel) found = refl

bind-same :
    (o : Option Found) (f g : Found → Option Found)
    → ((found : Found) → f found ≡ g found)
    → (o >>= f) ≡ (o >>= g)
bind-same none f g h = refl
bind-same (some found) f g h = h found

pub children_from-all :
    (fuel : ℕ) (bs : List Box) (found : Found)
    → AllBoxes bs
    → length (encode_all bs) ≤ fuel
    → children_from fuel (encode_all bs) found ≡ fold_children bs found
children_from-all fuel [] found h enough = children_from-empty fuel found
children_from-all zero (b ∷ bs) found (h, rest) enough =
    absurd (omega (arith, long b (encode_all bs) h))
children_from-all (suc fuel) (b ∷ bs) found (h, rest) enough =
    children_from-encode fuel b (encode_all bs) found h
    ∙ bind-same (with_child b.typ (encode b) found)
        (λ next. children_from fuel (encode_all bs) next) (fold_children bs)
        (λ next. children_from-all fuel bs next rest (omega (arith, long b (encode_all bs) h)))

properties_from-encode :
    (fuel : ℕ) (b : Box) (rest : Bytes) (found : Found)
    → IsBox b
    → properties_from (suc fuel) (encode b ++ rest) found
      ≡ properties_from fuel rest (with_property b.typ (encode b) found)
unfolding properties_from
properties_from-encode fuel b rest found h =
    rw
      (
        le→leb 8 (length (encode b ++ rest)) (omega (arith, long b rest h)),
        box_at_start-encode b rest h,
      )
      (ap (λ o. o >>= λ typ. properties_from fuel rest (with_property typ (encode b) found))
        (typ_of-encode b h))

properties_from-empty : (fuel : ℕ) (found : Found) → properties_from fuel [] found ≡ some found
unfolding properties_from
properties_from-empty zero found = refl
properties_from-empty (suc fuel) found = refl

pub properties_from-all :
    (fuel : ℕ) (bs : List Box) (found : Found)
    → AllBoxes bs
    → length (encode_all bs) ≤ fuel
    → properties_from fuel (encode_all bs) found ≡ some (fold_properties bs found)
properties_from-all fuel [] found h enough = properties_from-empty fuel found
properties_from-all zero (b ∷ bs) found (h, rest) enough =
    absurd (omega (arith, long b (encode_all bs) h))
properties_from-all (suc fuel) (b ∷ bs) found (h, rest) enough =
    properties_from-encode fuel b (encode_all bs) found h
    ∙ properties_from-all fuel bs (with_property b.typ (encode b) found) rest
        (omega (arith, long b (encode_all bs) h))
