-- ===== src/Lib.antt =====
-- Verification of the core of Photo Viewer, a GTK gallery for photos and videos written in Rust.
--
-- The program shows a library that is far larger than what it loads. The database gives counts by
-- date; `core/section_model` folds them to date sections; the grid lays all sections out before any
-- medium is loaded, loads the ranges that are looked at, and asks the thumbnail loader for images. The viewer
-- shows one photo with a filmstrip of its neighbours; edits are recorded for the synchronization, which
-- sends them later. The development follows these steps. Paths are from the repository's root.
--
-- Base: shared names, 32-bit arithmetic with Rust's saturating and checked operations (U32), integers
--   (Int), orders of tuples (Order), sorting with a key (Sort), strings as bytes (Text, Bytes; Search and Decimal
--   have the lemmas on finding and on decimal numbers), `HashMap` with
--   string keys (Map) and `BTreeMap` with number keys (BTree), both as association lists.
-- Grid.Section, Grid.Layout: src/ui/virtual_media_grid/layout_index.rs. `VirtualGridLayoutIndex` and
--   `SectionSpan` are records with the fields of the source; `new`, `insert_media_slot`, `slot_at`,
--   `slot_for_media_offset` and the other methods have its names. A count map is a list of its entries in
--   some order. Grid.Calendar says, apart from the code, which dates belong to a section and which section is
--   older. `new` clamps to u32 as the source does, so that no hypothesis on the counts is needed
--   for a well-formed layout.
-- Grid.Range: src/ui/virtual_media_grid/range_cache.rs. `RangeCoordinator` with its requests in flight and
--   pending, its generation and resident ranges; a sequence of calls is a list of them.
-- Grid.Model: src/ui/virtual_media_grid/model.rs. The state of the list model without the weak references
--   to its objects; each operation returns the state and the `items_changed` signals it emits. Signals,
--   Slots, Replace and Evict hold the proofs. The equality of media and their ids are parameters.
-- Sections: src/core/section_model.rs, all of it. The translation (`trf`), the decimals and the calendar
--   are the record `Wording`, which the labels take. Keys says, apart from the code, what the key and the
--   label of a section are.
-- Thumbnails.Queue: the priority queue of src/core/thumbnails.rs with the loop that takes from it in
--   src/core/thumbnails/queue.rs. The heap is a list from which a least item is taken; stale items stay in
--   it as in the source. The loop has fuel for one more than the items of the heap, which is proved enough.
-- Thumbnails.Loader, Steps: `ThumbnailLoader` and its workers. Each critical section between a lock and its
--   release is one step on the whole state, which also holds the threads between two of them: those that
--   registered a request and go to the queue's lock, those that the queue refused, and the workers. A run is
--   any list of steps, so it covers every interleaving. The crate `lru` is the parameter `LruCache`; the
--   result of `generate`, and the page from the database with the capacity that is configured when the loop
--   comes to each of its items, are arguments of a step; `request` has the capacity of the loader.
-- Exif: the PNG part of src/core/orientation.rs. The bytes from the loop's position on stand for the
--   position, and the loops have the number of all bytes as fuel; a round takes at least 12 of them.
-- Rotation: the turns of the Exif orientation there, and `Rotation` and `EditState` of
--   src/core/edit/mod.rs, for the sums of degrees that i32 can hold.
-- Media: the types of media by extension and by the first bytes, from src/core/media.rs.
-- Motion: src/core/motion_photo.rs, all of it. Text and files are lists of bytes; a slice that the source
--   indexes without a test gives an error where Rust panics. Written and Container print a container.
--   The loop over the items of the directory has the number of the bytes as fuel, which is proved enough.
-- Heic: the boxes of src/core/metadata.rs: `extract_heic_dims`, `extract_heic_exif_tiff` and all that they
--   call. What is left to read stands for the cursor; a loop over boxes has one unit of fuel for each byte
--   that is left, and a box takes at least eight. A range whose end
--   is above the limit of usize is out of range, as it is where the sum wraps in a release build.
-- Sync.Dirty: the dirty entries of src/core/sync/store/dirty.rs, and in Steps what `prepare_and_send` of
--   src/core/sync/service/coordinator.rs captures, what `Command::Confirm` of
--   src/core/sync/store/runtime.rs settles and what `adoption` binds, for one entry. Reach has every order
--   of edits, prepared operations, answers, operations given up and adoptions.
-- Strip: the window of src/ui/viewer/filmstrip.rs, `refresh_thumb_strip` and the functions that it calls.
--   What `make_thumb_button` gives for an index is the parameter `make_thumb_button`.
-- Paging: src/ui/media_grid/virtual_paging.rs without its floating-point numbers.
-- Grid.Model.Inserting: `insert_ready_item` of model.rs, with its layout as the argument it has there.
-- Grid.Incremental: src/ui/virtual_media_grid/incremental_updates.rs. The events that wait, keyed by id, and
--   `resolve_inserted_kinds`; begin_all stands for any calls of `begin_incremental_item_update` on an
--   active grid whose metadata is loaded.
-- Cache: src/core/cache.rs. The files with their times and sizes, and whether one can be removed, are
--   arguments; a cleanup gives its report and the files that it removed.
-- Keyboard: src/ui/keyboard. Bindings has the tables of binding.rs, Router the latch of router.rs; the
--   scope of the focus and whether an action was handled are arguments of a press.
--
-- Not modelled: the waits on the condition variable and all timing; poisoned locks; images and their
-- decoding; the objects of GTK and their identity; the database, the transfers and the authentication of
-- the synchronization, the file watcher and the pages of the user interface. A number of u64 that only
-- counts wraps as in a release build.
pub mod Base
pub mod Grid
pub mod Sections
pub mod Exif
pub mod Media
pub mod Motion
pub mod Heic
pub mod Rotation
pub mod Thumbnails
pub mod Sync
pub mod Strip
pub mod Paging
pub mod Keyboard
pub mod Cache
