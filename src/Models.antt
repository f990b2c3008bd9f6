-- ===== src/Models.antt =====
-- tasklite/models: the data that the engine and the backends share.
pub mod Job
pub mod Attempt
pub mod Json
pub mod Artifact
pub mod State
