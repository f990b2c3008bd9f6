-- ===== src/Backend.antt =====
-- tasklite/backend: where the state of a pipeline is kept between runs.
pub mod Memory
pub mod Contract
