-- ===== src/Pipeline.antt =====
-- internal/pipeline: the choice of the type of API, the stage that classifies, and the gate of the
-- probes.
pub mod ApiTypes
pub mod Gate
pub mod Stage
mod Tests
