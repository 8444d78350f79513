-- ===== src/Pipeline.antt =====
-- loony_dev/pipeline.py: the pipelines of a repository and the one task of each.
pub mod Ladder
pub mod Discovery
pub mod Complete
pub mod IssueGates
pub mod Keys
pub mod Worktrees
pub mod Priorities
pub mod LostKey
pub mod Gates
