-- ===== src/Concat.antt =====
-- The paths that JavaScript builds by concatenation, as pkg/crawl/jsreplay.go reads them.
pub mod Scan
pub mod Fuel
pub mod Bounds
pub mod Chain
pub mod Clean
pub mod Extract
pub mod Kept
mod Tests
