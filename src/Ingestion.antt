-- ===== src/Ingestion.antt =====
-- crates/ingestion/src: the thread that owns the writer, and the change feeds.
pub mod Interface
pub mod Batches
pub mod Recorder
pub mod Flush
pub mod Loop
pub mod Feed
