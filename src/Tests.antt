-- ===== src/Tests.antt =====
-- Concrete inputs: tests of the definitions by evaluation, and each theorem at an input.
pub mod Segments
pub mod Registry
pub mod Handlers
pub mod Runs
pub mod Storage
pub mod Ingestion
pub mod Feed
pub mod Requests
