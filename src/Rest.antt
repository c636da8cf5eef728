-- ===== src/Rest.antt =====
-- pkg/generate/rest/normalize.go: URL paths and their parameters.
pub mod Segments
pub mod Names
pub mod Observed
mod Tests
