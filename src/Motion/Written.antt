-- ===== src/Motion/Written.antt =====
-- The items of a container as a writer prints them, and the loop that reads them.
use mathlib.Core.List.{append_assoc}
use photo_viewer.Base.{
  ◌+◌, ◌^◌, ◌<◌, ◌≡◌, refl, sym, ap, ◌∙◌, true, some, [], ◌∷◌, ◌++◌, ◌>>=◌, arith, length, take,
  drop, length-append,
}
use photo_viewer.Base.Text.{Text, ascii}
use photo_viewer.Base.Bytes.{find, later_by, starts_with-append, parse_u64}
use photo_viewer.Base.Search.{
  Lacks, differs, is_clear, is_clear-append, find-is_clear, find-start, find-behind, is_clear-Lacks,
  Lacks-is_clear,
}
use photo_viewer.Base.Decimal.{to_decimal, parse_u64-to_decimal, to_decimal-Lacks}
use photo_viewer.Exif.Bytes.{take-append_all, drop-append}
use photo_viewer.Motion.{ContainerItem, attr_string, attr_u64, container_item}

-- The value of an attribute, with the quotation mark behind it.
abbrev pub quoted : Text → Text
quoted value = value ++ (34 ∷ [])

-- `<Container:Item Item:Mime="…" Item:Semantic="…" Item:Length="…"/>`
abbrev pub item_text : ContainerItem → Text
item_text item =
    ascii "<Container:Item Item:Mime=\""
    ++ (quoted item.mime
        ++ (ascii " Item:Semantic=\""
            ++ (quoted item.semantic
                ++ (ascii " Item:Length=\"" ++ (quoted (to_decimal item.length) ++ ascii "/>")))))

-- A text for an attribute without a quotation mark, an equals sign and a bracket that closes.
pub record IsPlain (value : Text) : Type 0 where
  pub unquoted : Lacks 34 value
  pub unequal : Lacks 61 value
  pub unclosed : Lacks 62 value

pub record IsPrintable (item : ContainerItem) : Type 0 where
  pub plain_mime : IsPlain item.mime
  pub plain_semantic : IsPlain item.semantic
  pub small : item.length < 2 ^ 64

find-value :
    (value rest : Text)
    → Lacks 34 value
    → find (quoted value ++ rest) (ascii "\"") ≡ some (length value + 0)
find-value value rest plain =
    ap (λ t. find t (ascii "\"")) (append_assoc value (34 ∷ []) rest)
    ∙ find-is_clear value (34 ∷ rest) (ascii "\"") (is_clear-Lacks 34 value plain)
    ∙ ap (later_by (length value))
        (find-start (34 ∷ rest) (ascii "\"") (starts_with-append (34 ∷ []) rest))

attr_string-in :
    (pre name value rest : Text)
    → is_clear pre (name ++ ascii "=\"") ≡ true
    → Lacks 34 value
    → attr_string (pre ++ ((name ++ ascii "=\"") ++ (quoted value ++ rest))) name ≡ some value
unfolding attr_string
attr_string-in pre name value rest clear plain =
    let needle = name ++ ascii "=\"" in
    let text = pre ++ (needle ++ (quoted value ++ rest)) in
    let behind : drop (length pre + 0 + length needle) text ≡ quoted value ++ rest =
      ap (drop (length pre + 0 + length needle))
        (sym (append_assoc pre needle (quoted value ++ rest)))
      ∙ drop-append (length pre + 0 + length needle) (pre ++ needle) (quoted value ++ rest)
          (omega (arith, length-append pre needle)) in
    rw (find-behind pre needle (quoted value ++ rest) clear, behind, find-value value rest plain)
      (ap some (
        ap (take (length value + 0)) (append_assoc value (34 ∷ []) rest)
        ∙ take-append_all (length value + 0) value (34 ∷ rest) (omega arith)))

-- A name of an attribute starts nowhere in the value of another.
differs-quoted :
    (value name : Text)
    → Lacks 34 value
    → Lacks 61 value
    → Lacks 34 name
    → differs (quoted value) (name ++ ascii "=\"") ≡ true
differs-quoted [] [] unquoted unequal named = refl
differs-quoted [] (b ∷ name) unquoted unequal (other, named) = ground arith
differs-quoted (a ∷ value) [] unquoted (other, unequal) named = ground arith
differs-quoted (a ∷ value) (b ∷ name) (_, unquoted) (_, unequal) (_, named) =
    ground (arith, differs-quoted value name unquoted unequal named)

is_clear-quoted :
    (value name : Text)
    → Lacks 34 value
    → Lacks 61 value
    → Lacks 34 name
    → is_clear (quoted value) (name ++ ascii "=\"") ≡ true
is_clear-quoted [] name unquoted unequal named =
    ground (arith, differs-quoted [] name unquoted unequal named)
is_clear-quoted (a ∷ value) name (h, unquoted) (k, unequal) named = ground (
  arith,
  differs-quoted (a ∷ value) name (h, unquoted) (k, unequal) named,
  is_clear-quoted value name unquoted unequal named,
)

clear_of :
    (value name : Text)
    → IsPlain value
    → Lacks 34 name
    → is_clear (quoted value) (name ++ ascii "=\"") ≡ true
clear_of value name h named = is_clear-quoted value name h.unquoted h.unequal named

pub is_clear-close : (value : Text) → Lacks 62 value → is_clear (quoted value) (ascii "/>") ≡ true
is_clear-close [] unclosed = refl
is_clear-close (a ∷ []) unclosed = ground arith
is_clear-close (a ∷ (b ∷ value)) (h, (k, unclosed)) =
    ground (arith, is_clear-close (b ∷ value) (k, unclosed))

-- The parts of the tag of an item before its second and its third attribute.
abbrev before_semantic : ContainerItem → Text
before_semantic item = ascii "<Container:Item Item:Mime=\"" ++ (quoted item.mime ++ ascii " ")

abbrev before_length : ContainerItem → Text
before_length item =
    ascii "<Container:Item Item:Mime=\""
    ++ (quoted item.mime ++ (ascii " Item:Semantic=\"" ++ (quoted item.semantic ++ ascii " ")))

item_mime :
    (item : ContainerItem)
    → IsPrintable item
    → attr_string (item_text item) (ascii "Item:Mime") ≡ some item.mime
item_mime item h =
    attr_string-in (ascii "<Container:Item ") (ascii "Item:Mime") item.mime _ refl
      h.plain_mime.unquoted

item_semantic :
    (item : ContainerItem)
    → IsPrintable item
    → attr_string (item_text item) (ascii "Item:Semantic") ≡ some item.semantic
item_semantic item h =
    let name = ascii "Item:Semantic" in
    ap (λ t. attr_string (ascii "<Container:Item Item:Mime=\"" ++ t) name)
      (sym (append_assoc (quoted item.mime) (ascii " ") _))
    ∙ attr_string-in (before_semantic item) name item.semantic _
        (is_clear-append (ascii "<Container:Item Item:Mime=\"") (quoted item.mime ++ ascii " ") _
          refl
          (is_clear-append (quoted item.mime) (ascii " ") _
            (clear_of item.mime name h.plain_mime (Lacks-is_clear 34 name refl)) refl))
        h.plain_semantic.unquoted

before_length-is_clear :
    (item : ContainerItem)
    → IsPrintable item
    → is_clear (before_length item) (ascii "Item:Length" ++ ascii "=\"") ≡ true
before_length-is_clear item h =
    let name = ascii "Item:Length" in
    let needle = name ++ ascii "=\"" in
    let named = Lacks-is_clear 34 name refl in
    let last = quoted item.semantic ++ ascii " " in
    let middle = ascii " Item:Semantic=\"" ++ last in
    is_clear-append (ascii "<Container:Item Item:Mime=\"") (quoted item.mime ++ middle) needle refl
      (is_clear-append (quoted item.mime) middle needle (clear_of item.mime name h.plain_mime named)
        (is_clear-append (ascii " Item:Semantic=\"") last needle refl (
          is_clear-append (quoted item.semantic) (ascii " ") needle
            (clear_of item.semantic name h.plain_semantic named) refl)))

item_length :
    (item : ContainerItem)
    → IsPrintable item
    → attr_u64 (item_text item) (ascii "Item:Length") ≡ some item.length
unfolding attr_u64
item_length item h =
    let name = ascii "Item:Length" in
    ap (λ o. o >>= parse_u64)
      (ap (λ t. attr_string (ascii "<Container:Item Item:Mime=\"" ++ t) name)
          (sym (
            append_assoc (quoted item.mime) _ _
            ∙ ap (λ t. quoted item.mime ++ (ascii " Item:Semantic=\"" ++ t))
                (append_assoc (quoted item.semantic) (ascii " ") _)))
        ∙ attr_string-in (before_length item) name (to_decimal item.length) (ascii "/>")
            (before_length-is_clear item h) (to_decimal-Lacks 34 item.length refl))
    ∙ parse_u64-to_decimal item.length h.small

pub container_item-item_text :
    (item : ContainerItem) → IsPrintable item → container_item (item_text item) ≡ some item
container_item-item_text item h =
    rw (item_mime item h, item_semantic item h, item_length item h) refl
