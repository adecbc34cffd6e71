-- ===== src/Paging/Page.antt =====
-- The page that is loaded for an offset holds this offset.
use photo_viewer.Base.{
  ℕ, ◌+◌, ◌-◌, ◌≤◌, ◌<◌, ◌≡◌, refl, Option, none, some, leb, arith, ◌/◌, Bool, true, false, ◌&&◌,
  ◌||◌, ◌==◌, if◌then◌else◌, min,
}
use photo_viewer.Base.U32.{u32_max}
use photo_viewer.Paging.{low_of, high_of, virtual_page_start_for_offset, virtual_window_item_count}

-- What is answered for an offset of the list.
pub data PageFor (desired start len total page_size : ℕ) : Option ℕ → Type 0 where
  kept : start ≤ desired → desired < start + len → PageFor desired start len total page_size none
  all_loaded : total ≤ len → PageFor desired start len total page_size none
  loaded :
      (page : ℕ)
      → page ≤ desired
      → desired < page + virtual_window_item_count page total page_size
      → PageFor desired start len total page_size (some page)

answered :
    (desired start len total page_size : ℕ) (whole inner last : Bool)
    → desired < total
    → 0 < len
    → 0 < page_size
    → (total == 0 || len == 0 || leb total len) ≡ whole
    → (leb (low_of start len) desired && leb desired (high_of start len)) ≡ inner
    → leb (total - page_size) desired ≡ last
    → PageFor desired start len total page_size (
        if whole
        then none
        else if inner
        then none
        else if last
        then some (total - page_size)
        else some (min (desired - page_size / 2) (total - page_size)))
unfolding virtual_window_item_count
answered desired start len total page_size true inner last h l p a b c = all_loaded (ground arith)
answered desired start len total page_size false true last h l p a b c =
    kept (ground arith) (ground arith)
answered desired start len total page_size false false true h l p a b c =
    loaded (total - page_size) (ground arith) (ground arith)
answered desired start len total page_size false false false h l p a b c =
    loaded (min (desired - page_size / 2) (total - page_size)) (ground arith) (ground arith)

-- For an offset of a list that fits in u32, while a part of it is loaded and pages have items: no page is asked for where
-- all is loaded or the offset lies in what is loaded, and otherwise the page asked for starts no later
-- than the offset and holds it among its items.
virtual_page_start_for_offset_lem :
    (desired start len total page_size : ℕ)
    → desired < total
    → start + len ≤ total
    → total ≤ u32_max
    → 0 < len
    → 0 < page_size
    → PageFor desired start len total page_size
        (virtual_page_start_for_offset desired start len total page_size)
unfolding virtual_page_start_for_offset
virtual_page_start_for_offset_lem desired start len total page_size h part small l p =
    answered desired start len total page_size (total == 0 || len == 0 || leb total len)
      (leb (low_of start len) desired && leb desired (high_of start len))
      (leb (total - page_size) desired) h l p refl refl refl
