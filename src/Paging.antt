-- ===== src/Paging.antt =====
-- src/ui/media_grid/virtual_paging.rs: which page of a long list is loaded. The ratios and widths in floating
-- point are not modelled.
pub mod Page
mod Examples
use photo_viewer.Base.{
  ℕ, ◌+◌, ◌-◌, ◌*◌, ◌/◌, Bool, true, false, ◌&&◌, ◌||◌, not, Option, none, some, ltb, leb, ◌==◌,
  if◌then◌else◌, min, max,
}
use photo_viewer.Base.U32.{u32_max}
use photo_viewer.Base.Int.{ℤ, pos, negsuc}

abbrev pub saturating_mul : ℕ → ℕ → ℕ
saturating_mul a b = min (a * b) u32_max

abbrev pub virtual_prefetch_den : ℕ
virtual_prefetch_den = 5

abbrev pub low_of : ℕ → ℕ → ℕ
low_of current_start current_len =
    current_start + saturating_mul current_len 1 / virtual_prefetch_den

abbrev pub high_of : ℕ → ℕ → ℕ
high_of current_start current_len =
    current_start + saturating_mul current_len 4 / virtual_prefetch_den

unfoldable pub virtual_page_start_for_offset : ℕ → ℕ → ℕ → ℕ → ℕ → Option ℕ
virtual_page_start_for_offset desired_offset current_start current_len total page_size =
    let max_start = total - page_size in
    if total == 0 || current_len == 0 || leb total current_len
    then none
    else if leb (low_of current_start current_len) desired_offset
        && leb desired_offset (high_of current_start current_len)
    then none
    else if leb max_start desired_offset
    then some max_start
    else some (min (desired_offset - page_size / 2) max_start)

unfoldable pub virtual_window_item_count : ℕ → ℕ → ℕ → ℕ
virtual_window_item_count start total page_size =
    if leb total start then 0 else min (total - start) page_size

unfoldable pub should_consider_virtual_page_load : Bool → ℕ → ℕ → Bool
should_consider_virtual_page_load restoring_scroll total current_len =
    not restoring_scroll && ltb current_len total && ltb 0 current_len

abbrev pub row_height : ℕ → ℕ
row_height pixel_size = max (pixel_size + 2) 1

-- For a view whose tiles are not negative.
unfoldable pub virtual_spacer_height : ℕ → ℕ → ℕ → ℕ
virtual_spacer_height unloaded_items columns pixel_size =
    let per_row = max columns 1 in
    let rows = (unloaded_items + (per_row - 1)) / per_row in
    if unloaded_items == 0 then 0 else min (saturating_mul rows (row_height pixel_size)) 2147483647
