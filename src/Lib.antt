-- ===== src/Lib.antt =====
-- loony-dev watches GitHub issues and pull requests and lets coding agents plan, implement and
-- repair them. This library models its core: what work there is, who may do it, and what is
-- written while it is done.
--
-- The parts, and how they interact:
--   Orchestrator   loony_dev/orchestrator.py: `_find_work` chooses a batch from the tasks of the
--                  pipelines (Orchestrator/Scheduler), `_dispatch_tick` takes the lease, calls
--                  `on_start` and submits the task (Orchestrator/Dispatch), `_execute_task` runs it
--                  between fence checks (Orchestrator/Worker). Beside the loop: the worktree of a
--                  pipeline (Orchestrator/Sessions, also loony_dev/pipeline_session.py), its
--                  reclaiming (Orchestrator/Reclaim), the snapshots and what a start does to them
--                  (Orchestrator/Snapshots), and the shutdown (Orchestrator/Shutdown).
--   Agents         loony_dev/agents: the usage limit (Agents/Quota, claude_quota.py), one turn of
--                  the Claude CLI (Agents/Turns), and `CodingAgent.execute_issue` (Agents/Coding).
--   Git            loony_dev/git.py: `commit_and_push` (Git/Commit), `list_worktrees` and what
--                  rests on it (Git/Porcelain).
--   Repository     loony_dev/github/repo.py: the roles (Repository/Roles), `is_authorized` with its
--                  cache (Repository/Permissions), `find_pr_for_issue` and the lifecycle reads of
--                  issue.py and pull_request.py (Repository/Lifecycle); check_run.py with its cache
--                  (Repository/CheckRuns).
--   Pipeline       loony_dev/pipeline.py: `Pipeline.discover` groups issues and pull requests by
--                  key, `Pipeline.next_task` is the ladder of rungs (Pipeline/Ladder).
--   Tasks          loony_dev/tasks: the kinds of task with their keys (Tasks/Kinds), when each is
--                  due (Tasks/Due), the callbacks (Tasks/Host, Tasks/Handlers), the marker comments
--                  (Tasks/Markers), the plan and its revision note (Tasks/RevisionNote), and the
--                  originating issue of a pull request (Tasks/IssueNumber).
--   Github         loony_dev/github: issues, pull requests and comments as records (Github/Items),
--                  the repeated-failure rule (Github/Failures), the writing calls (Github/Client),
--                  the retries of client.py (Github/Retry).
--   Lease          loony_dev/pipeline_lease.py: the reclaim ladder (Lease/Staleness), acquire,
--                  release and fence (Lease/Acquire), the heartbeat window (Lease/Window), and the
--                  acquire as file-system calls with a rival between them (Lease/Race).
--   ExecutionState loony_dev/execution_state.py: the records (ExecutionState/Schema), the event
--                  logs and snapshots (ExecutionState/Store).
--   Slug           `_slugify` of loony_dev/tasks/base.py, `task_slug` of session_registry.py.
--   Sanitizer      loony_dev/sanitize.py: the removal of hidden comments and characters, against a
--                  description of what is hidden (Sanitizer/Comments, Sanitizer/Visible).
--   Supervisor     loony_dev/supervisor.py: the choice of repositories (Supervisor/Filters), what
--                  a pattern matches (Supervisor/Patterns), and the
--                  restart of the remote-control servers (Supervisor/Restarts).
--   Examples       concrete inputs, with the theorems applied to them.
--
-- State and correspondence:
--   * A call of `gh` that writes is an element of `Call`; an action takes the history of the calls
--     made so far and returns a result or an exception with the longer history. Which call
--     succeeds is a function of the history, `Service`, and a parameter.
--   * The lease directory of a repository maps slugs to file contents; `PipelinesDir` has one
--     dictionary for each suffix of the files of a slug.
--   * A time is a whole number of microseconds, `ℤ`; a text is a list of code points. The regular
--     expressions and `int()` read ASCII digits and white space.
--   * `Python` holds what is taken of the standard library without a definition: the JSON codec,
--     `repr`, `float()` of a text, ISO dates, SHA-256 digests, `lower`. A theorem that needs the
--     codec says that it reads back the value in question.
--   * `Repo` and `Host` hold the answers of the service that a predicate or a callback reads; an
--     answer that may fail is an option.
--   * A worker's run lists the outcome of each step and the lease directory at each fence check,
--     so that other processes may do anything in between; its result is the list of its effects.
--   * `_run_task`'s exceptions are those of `Exception`; any other is one of them in the model.
--
--   * git, the Claude CLI, CodeRabbit and `gh pr create` answer a command as a function of all that
--     was done before it; a run of the coding agent returns its events and its git commands. A step
--     of it goes on, returns a task result, or raises (`Step`). The prompts of the slash commands,
--     `subprocess`, `re.search`, `strptime` and the time zones are parameters.
--   * The monotonic clock of the caches is a natural number of ticks.
--
-- Loops are structural recursion: the retries of `run_gh`, the review rounds and the commit
-- attempts count down the rounds of their `range`. The limits of the rounds and of the attempts are
-- natural numbers, as a negative one has no rounds either; max_retries is an integer.
-- `acquire_pipeline_lease` has the two attempts of the source;
-- in Lease/Race an acquirer alone is done after six calls. Outside Lease/Race no other process runs
-- between the file-system calls of one lease operation.
--
-- Not modelled: the web server, the PTY sessions and the planning agent, the discovery and the
-- shutdown of the supervisor, the command line and the configuration files, logging, and the
-- parsing of GitHub's answers into records.
pub mod Prelude
pub mod Slug
pub mod ExecutionState
pub mod Lease
pub mod Github
pub mod Tasks
pub mod Pipeline
pub mod Git
pub mod Agents
pub mod Repository
pub mod Sanitizer
pub mod Supervisor
pub mod Orchestrator
pub mod Examples
