-- ===== src/Agents.antt =====
-- loony_dev/agents: the quota cool-down, the turns of the Claude CLI, and the phases of the coding
-- agent.
pub mod Quota
pub mod Turns
pub mod Coding
pub mod Quiet
pub mod QuietPhases
pub mod Story
pub mod Cooldown
pub mod Opened
pub mod Published
