-- ===== src/Github.antt =====
-- loony_dev/github: the calls of the gh client, the items, and the failure policy.
pub mod Client
pub mod Items
pub mod Failures
pub mod Retry
pub mod Backoff
