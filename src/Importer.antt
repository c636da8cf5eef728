-- ===== src/Importer.antt =====
-- pkg/importer: from the flows of a capture to the observed requests.
pub mod Flows
pub mod Queries
pub mod Parse
pub mod Native
pub mod Filters
pub mod Scope
pub mod RoundTrip
pub mod Safe
mod Tests
