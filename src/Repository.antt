-- ===== src/Repository.antt =====
-- loony_dev/github/repo.py: the roles, the permission cache, the other caches and the search for
-- the pull request of an issue.
pub mod Roles
pub mod Permissions
pub mod Eviction
pub mod Freshness
pub mod CheckRuns
pub mod Settled
pub mod Lifecycle
pub mod Newest
