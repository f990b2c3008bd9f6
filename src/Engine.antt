-- ===== src/Engine.antt =====
-- tasklite/engine: the scheduling of jobs.
pub mod Wait
pub mod Resource
pub mod Scheduler
pub mod InFlight
pub mod ErrorClass
pub mod Store
pub mod Governor
pub mod Admission
