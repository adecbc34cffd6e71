-- ===== src/Motion/Items.antt =====
-- The loop over the items of an XMP text comes to its end.
use photo_viewer.Base.{
  ℕ, zero, suc, ◌+◌, ◌-◌, ◌≤◌, ◌<◌, ◌≡◌, refl, sym, ap, ◌∙◌, Option, none, some, List, [], ◌∷◌,
  arith, length, take, drop, length-drop,
}
use photo_viewer.Base.Text.{Text, ascii}
use photo_viewer.Base.Bytes.{find, starts_with}
use photo_viewer.Motion.{
  ContainerItem, container_item, pushed, item_tag, item_until, item_at, item_round, items_from,
  parse_container_items,
}

item_until-same :
    (f g : Text → List ContainerItem) (text : Text) (end : Option ℕ)
    → ((rest : Text) → length rest ≤ length text - 2 → f rest ≡ g rest)
    → item_until f text end ≡ item_until g text end
item_until-same f g text none same = refl
item_until-same f g text (some end) same =
    ap (pushed (container_item (take (end + 2) text)))
      (same (drop (end + 2) text) (omega (arith, length-drop (end + 2) text)))

item_at-same :
    (f g : Text → List ContainerItem) (text : Text) (start : Option ℕ)
    → (1 ≤ length text)
    → ((rest : Text) → length rest < length text → f rest ≡ g rest)
    → item_at f text start ≡ item_at g text start
item_at-same f g text none long same = refl
item_at-same f g text (some start) long same =
    item_until-same f g (drop start text) (find (drop start text) (ascii "/>"))
      (λ rest shorter. same rest (omega (arith, length-drop start text)))

find-empty : find [] item_tag ≡ none
unfolding find starts_with
find-empty = refl

item_round-same :
    (f g : Text → List ContainerItem) (text : Text)
    → ((rest : Text) → length rest < length text → f rest ≡ g rest)
    → item_round f text ≡ item_round g text
item_round-same f g [] same = ap (item_at f []) find-empty ∙ sym (ap (item_at g []) find-empty)
item_round-same f g (c ∷ text) same =
    item_at-same f g (c ∷ text) (find (c ∷ text) item_tag) (omega arith) same

items_from-round :
    (fuel : ℕ) (text : Text) → items_from (suc fuel) text ≡ item_round (items_from fuel) text
unfolding items_from
items_from-round fuel text = refl

items_from-empty : (fuel : ℕ) → items_from fuel [] ≡ []
unfolding items_from
items_from-empty zero = refl
items_from-empty (suc fuel) = ap (item_at (λ rest. items_from fuel rest) []) find-empty

items_from-fuel :
    (fuel more : ℕ) (text : Text)
    → length text ≤ fuel
    → fuel ≤ more
    → items_from more text ≡ items_from fuel text
items_from-fuel zero more [] enough le = items_from-empty more ∙ sym (items_from-empty zero)
items_from-fuel zero more (c ∷ text) enough le = absurd (omega arith)
items_from-fuel (suc fuel) zero text enough le = absurd (omega arith)
items_from-fuel (suc fuel) (suc more) text enough le =
    items_from-round more text
    ∙ item_round-same (items_from more) (items_from fuel) text
        (λ rest shorter. items_from-fuel fuel more rest (omega arith) (omega arith))
    ∙ sym (items_from-round fuel text)

-- On every text the loop ends before its fuel does: the list it gives is that of one round whose
-- later rounds run, as in the source, without a bound on their number.
pub parse_container_items-round :
    (text : Text) → parse_container_items text ≡ item_round parse_container_items text
unfolding parse_container_items
parse_container_items-round text =
    sym (items_from-fuel (length text) (suc (length text)) text (omega arith) (omega arith))
    ∙ items_from-round (length text) text
    ∙ item_round-same (items_from (length text)) parse_container_items text (λ rest shorter.
      items_from-fuel (length rest) (length text) rest (omega arith) (omega arith))
