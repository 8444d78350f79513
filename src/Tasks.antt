-- ===== src/Tasks.antt =====
-- loony_dev/tasks: the kinds of work, when each is due, and what each does to GitHub.
pub mod Markers
pub mod IssueNumber
pub mod Kinds
pub mod Due
pub mod RevisionNote
pub mod Host
pub mod Handlers
pub mod Labels
pub mod Failure
