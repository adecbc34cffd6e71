-- ===== src/Base/U32.antt =====
-- The `u32` operations of Rust that saturate or report an overflow.
use photo_viewer.Base.{ℕ, ◌+◌, ◌-◌, Option, none, some, min, leb, if◌then◌else◌}

abbrev pub u32_max : ℕ
u32_max = 4294967295

abbrev pub saturating_add : ℕ → ℕ → ℕ
saturating_add a b = min (a + b) u32_max

abbrev pub checked_add : ℕ → ℕ → Option ℕ
checked_add a b = if leb (a + b) u32_max then some (a + b) else none

abbrev pub checked_sub : ℕ → ℕ → Option ℕ
checked_sub a b = if leb b a then some (a - b) else none
