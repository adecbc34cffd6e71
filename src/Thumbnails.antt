-- ===== src/Thumbnails.antt =====
-- src/core/thumbnails.rs and src/core/thumbnails/queue.rs: the priority queue of thumbnail work and
-- the requests in flight.
pub mod Queue
pub mod Loader
mod Examples
