-- ===== src/Lease.antt =====
-- loony_dev/pipeline_lease.py: the on-disk lease of a pipeline. A directory of leases is the
-- `leases` directory of one repository, its files by slug; times are in ticks of the clock.
pub mod Staleness
pub mod Acquire
pub mod Exclusion
pub mod Release
pub mod Window
pub mod Race
