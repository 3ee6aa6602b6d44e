-- ===== src/Ingestion.antt =====
-- onto_platform/ingestion: the agent that edits a working copy of the registry, the jobs that run it,
-- and the worker that takes a job from its uploads to staging.
pub mod Tools
pub mod Agent
pub mod Jobs
pub mod World
pub mod Worker
