-- ===== src/Heic.antt =====
-- src/core/metadata.rs: the boxes of a HEIC file and the dimensions of its primary image. A cursor stands
-- for the bytes from its position on. A position in bytes that a file can have never wraps around, and a
-- range that ends behind the bytes is refused however far behind it ends.
pub mod Properties
pub mod ExifItem
pub mod Boxes
pub mod Dims
pub mod Photo
pub mod File
pub mod Panics
mod Examples
use photo_viewer.Base.{
  ℕ, zero, suc, ◌+◌, ◌-◌, ◌*◌, ◌/◌, ◌%◌, ◌^◌, Bool, true, false, ◌&&◌, Option, none, some, List, [],
  ◌∷◌, ◌++◌, ltb, leb, ◌==◌, if◌then◌else◌, ◌>>=◌, length, take, drop, get_elem?,
}
use photo_viewer.Base.Text.{Text, ascii, text_eq}
use photo_viewer.Exif.{from_be_bytes}

abbrev pub Bytes : Type 0
Bytes = List ℕ

-- `data.get(start..finish)`
abbrev pub get_range : ℕ → ℕ → Bytes → Option Bytes
get_range start finish file =
    if leb start finish && leb finish (length file)
    then some (take (finish - start) (drop start file))
    else none

-- `data.get(start..)`
abbrev pub get_from : ℕ → Bytes → Option Bytes
get_from start file = if leb start (length file) then some (drop start file) else none

unfoldable pub u32_at : Bytes → ℕ → Option ℕ
u32_at d o = get_range o (o + 4) d >>= λ b. some (from_be_bytes b)

unfoldable pub u64_at : Bytes → ℕ → Option ℕ
u64_at d o = get_range o (o + 8) d >>= λ b. some (from_be_bytes b)

-- The methods of `Cur`: what they read, and the cursor behind it.
abbrev pub Read : Type 0 → Type 0
Read A = Option (A × Bytes)

unfoldable pub take_bytes : ℕ → Bytes → Read Bytes
take_bytes n cur = if leb n (length cur) then some (take n cur, drop n cur) else none

abbrev pub number : Read Bytes → Read ℕ
number none = none
number (some (b, cur)) = some (from_be_bytes b, cur)

abbrev pub u16 : Bytes → Read ℕ
unfolding take_bytes
u16 cur = number (take_bytes 2 cur)

abbrev pub u32 : Bytes → Read ℕ
unfolding take_bytes
u32 cur = number (take_bytes 4 cur)

abbrev pub u64 : Bytes → Read ℕ
unfolding take_bytes
u64 cur = number (take_bytes 8 cur)

-- Version and flags.
unfoldable pub fullbox : Bytes → Read (ℕ × ℕ)
unfolding u32
fullbox cur = u32 cur >>= λ (v, rest). some ((v / 2 ^ 24, v % 2 ^ 24), rest)

unfoldable pub count : Bool → Bytes → Read ℕ
unfolding u16 u32
count v0 cur = if v0 then u16 cur else u32 cur

unfoldable pub id : Bool → Bytes → Read ℕ
unfolding u16 u32
id v0 cur = if v0 then u16 cur else u32 cur

unfoldable pub sized : ℕ → Bytes → Read ℕ
unfolding u32 u64
sized size cur =
    if size == 0
    then some (0, cur)
    else if size == 4
    then u32 cur
    else if size == 8
    then u64 cur
    else none

-- The size of the box at the cursor, of which the first four bytes are read.
abbrev pub box_total : ℕ → Bytes → Option ℕ
box_total s cur =
    if s == 0
    then (if leb 8 (length cur) then some (length cur) else none)
    else if s == 1
    then (get_range 8 16 cur >>= λ b.
        let big = from_be_bytes b in if leb 16 big then some big else none)
    else if leb 8 s
    then some s
    else none

unfoldable pub box_at_start : Bytes → Read Bytes
box_at_start cur = get_range 0 4 cur >>= λ b. box_total (from_be_bytes b) cur >>= λ total.
    if leb total (length cur) then some (take total cur, drop total cur) else none

-- `(full box size, type, header length)`
unfoldable pub box_header : Bytes → ℕ → Option (ℕ × Bytes × ℕ)
unfolding u32_at u64_at
box_header d off = u32_at d off >>= λ s. get_range (off + 4) (off + 8) d >>= λ typ.
    if s == 1
    then (u64_at d (off + 8) >>= λ big. some (big, typ, 16))
    else if s == 0
    then some (length d - off, typ, 8)
    else some (s, typ, 8)

abbrev pub usize_max : ℕ
usize_max = 18446744073709551615

-- A round of the loop of `find_meta_body`.
unfoldable pub meta_at : (ℕ → Option Bytes) → Bytes → ℕ → Option (ℕ × Bytes × ℕ) → Option Bytes
unfolding text_eq
meta_at later file off none = none
meta_at later file off (some (size, typ, hdr)) =
    if text_eq typ (ascii "meta")
    then get_range (off + hdr) (off + size) file
    else if size == 0
    then none
    else if leb (off + size) usize_max
    then later (off + size)
    else none

-- The loop, on fuel for the bytes.
unfoldable pub meta_from : ℕ → Bytes → ℕ → Option Bytes
meta_from zero file off = none
meta_from (suc fuel) file off =
    meta_at (λ next. meta_from fuel file next) file off (box_header file off)

unfoldable pub find_meta_body : Bytes → Option Bytes
find_meta_body file = meta_from (suc (length file)) file 0

unfoldable pub parse_pitm : Bytes → Option ℕ
unfolding fullbox u16 u32
parse_pitm boxb = get_from 8 boxb >>= λ cur. fullbox cur >>= λ (head, rest).
    (if head.0 == 0 then u16 rest else u32 rest) >>= λ (n, _). some n
