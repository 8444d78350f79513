-- ===== src/Orchestrator.antt =====
-- loony_dev/orchestrator.py: the choice of work, its dispatch, and the worker that runs it.
pub mod Scheduler
pub mod FindWork
pub mod Dispatch
pub mod Worker
pub mod Fencing
pub mod Callbacks
pub mod Closing
pub mod Sessions
pub mod Reclaim
pub mod Reclaimed
pub mod Snapshots
pub mod Shutdown
pub mod Rollback
pub mod Crashed
