-- ===== src/Git.antt =====
-- loony_dev/git.py: commit and push, the worktrees, and the local exclude file.
pub mod Commit
pub mod Undo
pub mod Porcelain
pub mod Listing
