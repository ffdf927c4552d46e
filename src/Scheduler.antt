-- ===== src/Scheduler.antt =====
-- internal/daemon/scheduler: the leader's control loops over the replicated state.
pub mod Helpers
pub mod Placement
pub mod Rollout
pub mod Stateful
pub mod Orchestrator
pub mod Guards
pub mod Passes
pub mod Jobs
pub mod Cron
pub mod Retention
pub mod Vips
pub mod Volumes
pub mod Serverless
pub mod Reconciler
