-- ===== src/Supervisor.antt =====
-- The supervisor, supervisor.py: the repositories that it serves, and the restart of their servers.
pub mod Filters
pub mod Patterns
pub mod Selected
pub mod Restarts
pub mod Budget
