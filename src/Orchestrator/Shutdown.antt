-- ===== src/Orchestrator/Shutdown.antt =====
-- `_handle_signal` and `_on_shutdown`. What the workers still do while the pool is joined is the
-- subject of `Orchestrator.Worker`.
use loony_dev.Prelude.{
  Bool, true, List, [], ◌∷◌, ◌++◌, Option, none, some, if◌then◌else◌, Text, codes,
}
use loony_dev.Prelude.Dictionary.{Dict}
use loony_dev.Prelude.Values.{Python}
use loony_dev.Lease.Staleness.{holder_bot}
use loony_dev.Lease.Acquire.{release_pipeline_lease}
use loony_dev.Github.Client.{History, runtime_error}
use loony_dev.Tasks.Kinds.{worktree_key}
use loony_dev.Tasks.Host.{Host}
use loony_dev.Tasks.Handlers.{on_failure}
use loony_dev.Orchestrator.Scheduler.{Agent, Candidate}
use loony_dev.Orchestrator.Sessions.{Sessions, Trace, Checkout}
use loony_dev.Orchestrator.Reclaim.{release_all_pipeline_worktrees}

pub data Signal : Type 0 where
  sigquit sigint sigterm : Signal

pub record Flags : Type 0 where
  pub shutdown_requested : Bool
  pub graceful_shutdown : Bool

-- `_handle_signal`
unfoldable pub handle_signal : Signal → Flags → Flags
handle_signal sigquit flags = record flags { shutdown_requested = true; graceful_shutdown = true }
handle_signal sigint flags = record flags { shutdown_requested = true }
handle_signal sigterm flags = record flags { shutdown_requested = true }

-- What a shutdown changes: the leases, GitHub, the agents that were told to terminate, and the
-- worktrees.
pub record Site : Type 0 where
  pub leases : Dict Text
  pub history : History
  pub terminated : List (Candidate × Agent)
  pub sessions : Sessions
  pub trace : Trace

-- What it reads: GitHub, the runtime, the futures that `cancel` still stops, the agents whose
-- `terminate` returns, and the checkout.
pub record Stage : Type 0 where
  pub host : Host
  pub py : Python
  pub cancels : Candidate × Agent → Bool
  pub terminates : Candidate × Agent → Bool
  pub git : Checkout

-- The release of a lease that the dispatch took; the holder alone is checked.
unfoldable pub release_dangling : Python → Option Text → Dict Text → Dict Text
unfolding release_pipeline_lease
release_dangling py none leases = leases
release_dangling py (some key) leases =
    (release_pipeline_lease py key (some holder_bot) none leases).0

unfoldable pub roll_back : Stage → Candidate × Agent → Site → Site
unfolding release_dangling
roll_back stage (c, a) site = record site {
  history =
      (on_failure stage.host c.0 (runtime_error (codes "Interrupted by operator")) site.history).1;
  leases = release_dangling stage.py (worktree_key c.0) site.leases;
}

-- The loop over the futures in flight; a `terminate` that raises ends it.
unfoldable pub cancel_all : Stage → List (Candidate × Agent) → Site → Site
unfolding roll_back
cancel_all stage [] site = site
cancel_all stage (x ∷ xs) site =
    let rolled = cancel_all stage xs (roll_back stage x site) in
    let told = record site { terminated = site.terminated ++ x ∷ [] } in
    let later = cancel_all stage xs told in
    if stage.cancels x then rolled else if stage.terminates x then later else told

unfoldable pub on_shutdown : Stage → Flags → List (Candidate × Agent) → Site → Site
unfolding cancel_all release_all_pipeline_worktrees
on_shutdown stage flags inflight site =
    let stopped = if flags.graceful_shutdown then site else cancel_all stage inflight site in
    let (sessions, trace) =
      release_all_pipeline_worktrees stage.git stopped.sessions stopped.trace in
    record stopped { sessions = sessions; trace = trace }
