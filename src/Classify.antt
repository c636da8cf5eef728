-- ===== src/Classify.antt =====
-- pkg/classify: the classifiers of requests, RunClassifiers and Deduplicate.
pub mod Responses
pub mod Requests
pub mod Rest
pub mod Graphql
pub mod Grpc
pub mod Wsdl
pub mod Running
pub mod Winners
pub mod Levels
pub mod Late
pub mod Merging
pub mod Dedup
mod Tests
mod Runs
