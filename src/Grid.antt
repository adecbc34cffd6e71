-- ===== src/Grid.antt =====
-- The virtual media grid (src/ui/virtual_media_grid/) and its date sections.
pub mod Section
pub mod Calendar
pub mod Layout
pub mod Range
pub mod Model
pub mod Incremental
mod IncrementalExamples
mod Examples
mod RangeExamples
mod ModelExamples
