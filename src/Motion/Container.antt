-- ===== src/Motion/Container.antt =====
-- The loop over a printed container, with other text between the items.
use mathlib.Core.List.{append_assoc}
use photo_viewer.Base.{
  ℕ, ◌+◌, ◌≡◌, refl, sym, ap, ◌∙◌, true, false, Option, none, some, List, [], ◌∷◌, ◌++◌, arith,
  length, drop, length-append,
}
use photo_viewer.Base.Text.{Text, ascii}
use photo_viewer.Base.Bytes.{find, contains_text, is_some}
use photo_viewer.Base.Search.{is_clear, is_clear-append, find-behind, find-without, Lacks-is_clear}
use photo_viewer.Base.Decimal.{to_decimal, to_decimal-Lacks}
use photo_viewer.Exif.Bytes.{take-append_all, drop-append}
use photo_viewer.Motion.{
  ContainerItem, container_item, pushed, item_tag, item_until, item_at, parse_container_items,
}
use photo_viewer.Motion.Items.{parse_container_items-round}
use photo_viewer.Motion.Written.{
  quoted, item_text, IsPrintable, container_item-item_text, is_clear-close,
}

-- The tag of an item before its end.
abbrev before_close : ContainerItem → Text
before_close item =
    ascii "<Container:Item Item:Mime=\""
    ++ (quoted item.mime
        ++ (ascii " Item:Semantic=\""
            ++ (quoted item.semantic
                ++ (ascii " Item:Length=\"" ++ quoted (to_decimal item.length)))))

item_text-close : (item : ContainerItem) → before_close item ++ ascii "/>" ≡ item_text item
item_text-close item =
    ap (λ t. ascii "<Container:Item Item:Mime=\"" ++ t)
      (append_assoc (quoted item.mime) _ (ascii "/>")
        ∙ ap (λ t. quoted item.mime ++ (ascii " Item:Semantic=\"" ++ t))
            (append_assoc (quoted item.semantic) _ (ascii "/>")))

before_close-is_clear :
    (item : ContainerItem) → IsPrintable item → is_clear (before_close item) (ascii "/>") ≡ true
before_close-is_clear item h =
    let digits = quoted (to_decimal item.length) in
    let last = ascii " Item:Length=\"" ++ digits in
    let middle = ascii " Item:Semantic=\"" ++ (quoted item.semantic ++ last) in
    is_clear-append (ascii "<Container:Item Item:Mime=\"") (quoted item.mime ++ middle) (ascii "/>")
      refl
      (is_clear-append (quoted item.mime) middle (ascii "/>")
        (is_clear-close item.mime h.plain_mime.unclosed)
        (is_clear-append (ascii " Item:Semantic=\"") (quoted item.semantic ++ last) (ascii "/>")
          refl
          (is_clear-append (quoted item.semantic) last (ascii "/>")
            (is_clear-close item.semantic h.plain_semantic.unclosed)
            (is_clear-append (ascii " Item:Length=\"") digits (ascii "/>") refl
              (is_clear-close (to_decimal item.length) (to_decimal-Lacks 62 item.length refl))))))

-- One item at the start of a text.
item_until-item_text :
    (later : Text → List ContainerItem) (item : ContainerItem) (rest : Text)
    → IsPrintable item
    → item_until later (item_text item ++ rest) (find (item_text item ++ rest) (ascii "/>"))
      ≡ item ∷ later rest
item_until-item_text later item rest h =
    let n = length (before_close item) + 0 in
    let text = item_text item ++ rest in
    let whole : n + 2 ≡ length (item_text item) =
      omega (arith, length-append (before_close item) (ascii "/>"))
      ∙ ap length (item_text-close item) in
    let end : find text (ascii "/>") ≡ some n =
      ap (λ t. find (t ++ rest) (ascii "/>")) (sym (item_text-close item))
      ∙ ap (λ t. find t (ascii "/>")) (append_assoc (before_close item) (ascii "/>") rest)
      ∙ find-behind (before_close item) (ascii "/>") rest (before_close-is_clear item h) in
    ap (item_until later text) end
    ∙ ap (λ t. pushed (container_item t) (later (drop (n + 2) text)))
        (take-append_all (n + 2) (item_text item) rest (sym whole))
    ∙ ap (λ t. pushed (container_item (item_text item)) (later t))
        (drop-append (n + 2) (item_text item) rest (sym whole))
    ∙ ap (λ o. pushed o (later rest)) (container_item-item_text item h)

item_at-found :
    (later : Text → List ContainerItem) (text rest : Text) (start : ℕ)
    → drop start text ≡ rest
    → item_at later text (some start) ≡ item_until later rest (find rest (ascii "/>"))
item_at-found later text rest start e = ap (λ t. item_until later t (find t (ascii "/>"))) e

not_found : (o : Option ℕ) → is_some o ≡ false → o ≡ none
not_found none h = refl
not_found (some i) h = absurd (ground arith)

-- `str::contains`
absent : (s t : Text) → contains_text s t ≡ false → find s t ≡ none
unfolding contains_text
absent s t h = not_found (find s t) h

-- Each item with the text that stands before it, and the text behind them all.
abbrev pub directory_text : List (Text × ContainerItem) → Text → Text
directory_text [] tail = tail
directory_text ((gap, item) ∷ rest) tail = gap ++ (item_text item ++ directory_text rest tail)

abbrev pub items_in : List (Text × ContainerItem) → List ContainerItem
items_in [] = []
items_in ((gap, item) ∷ rest) = item ∷ items_in rest

abbrev pub AllPrintable : List (Text × ContainerItem) → Type 0
AllPrintable [] = Unit
AllPrintable ((gap, item) ∷ rest) =
    (contains_text gap (ascii "<Container:Item") ≡ false) × IsPrintable item × AllPrintable rest

-- Reading a printed container gives its items in their order: where no text between the tags and
-- behind them contains the start of a tag, each length is a u64, and neither a MIME type nor a
-- semantic contains a quotation mark, an equals sign or a closing bracket.
pub parse_container_items-directory_text :
    (entries : List (Text × ContainerItem)) (tail : Text)
    → AllPrintable entries
    → contains_text tail (ascii "<Container:Item") ≡ false
    → parse_container_items (directory_text entries tail) ≡ items_in entries
parse_container_items-directory_text [] tail all clear =
    parse_container_items-round tail
    ∙ ap (item_at parse_container_items tail) (absent tail item_tag clear)
parse_container_items-directory_text ((gap, item) ∷ rest) tail (free, h, all) clear =
    let later = directory_text rest tail in
    let text = gap ++ (item_text item ++ later) in
    parse_container_items-round text
    ∙ ap (item_at parse_container_items text) (
        find-without 60 gap _ (ascii "Container:Item")
          (Lacks-is_clear 60 (ascii "Container:Item") refl) (absent gap item_tag free))
    ∙ item_at-found parse_container_items text (item_text item ++ later) (length gap + 0)
        (drop-append (length gap + 0) gap (item_text item ++ later) (omega arith))
    ∙ item_until-item_text parse_container_items item later h
    ∙ ap (λ items. item ∷ items) (parse_container_items-directory_text rest tail all clear)
