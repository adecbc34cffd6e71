-- ===== src/Paging/Examples.antt =====
-- A jump in a list of a thousand photos.
use photo_viewer.Base.{◌≡◌, refl, some}
use photo_viewer.Paging.{virtual_page_start_for_offset}

jump_page : virtual_page_start_for_offset 700 0 200 1000 200 ≡ some 600
unfolding virtual_page_start_for_offset
jump_page = refl
