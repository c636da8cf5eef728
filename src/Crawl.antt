-- ===== src/Crawl.antt =====
-- pkg/crawl: the crawl frontier and the workers of an engine.
pub mod Frontier
pub mod Scope
mod Tests
