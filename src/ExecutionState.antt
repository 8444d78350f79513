-- ===== src/ExecutionState.antt =====
-- loony_dev/execution_state.py: the event log and the live-state snapshot of each pipeline.
pub mod Schema
pub mod Store
pub mod RoundTrip
pub mod Snapshots
pub mod Tail
pub mod Stream
