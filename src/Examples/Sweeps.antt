-- ===== src/Examples/Sweeps.antt =====
-- The theorems on the reclaimer, the shutdown and the reconciliation, at concrete inputs.
use loony_dev.Prelude.Values.{Python, obj}
use loony_dev.ExecutionState.RoundTrip.{state_from_dict-state_to_dict}
use loony_dev.Prelude.{
  starts_with, pos, text_eq, mem_text, text_eq, pos, Bool, true, false, [], ◌∷◌, none, some, Text,
  codes, All, ◌≡◌, refl, ◌⊎◌,
}
use mathlib.Core.List.{Memᴰ}
use loony_dev.Prelude.Dictionary.{lookup}
use loony_dev.Slug.{task_slug}
use loony_dev.ExecutionState.Schema.{LiveState, make_state, derive_needs_you, state_to_dict}
use loony_dev.ExecutionState.Store.{
  state_of, is_active, parse_snapshot, Logs, PipelinesDir, list_active,
}
use loony_dev.Github.Client.{Result, ok}
use loony_dev.Lease.Staleness.{
  parse_lease, PipelineLease, is_text, holder_bot, process_lookup_error, delivered,
}
use loony_dev.Lease.Acquire.{read_pipeline_lease}
use loony_dev.Repository.Eviction.{Unique}
use loony_dev.Orchestrator.Sessions.{PipelineSession, Sessions, Checkout, returned}
use loony_dev.Orchestrator.Reclaim.{reclaim_completed_pipelines}
use loony_dev.Orchestrator.Reclaimed.{Extends, Fate, reclaim_completed_pipelines-Fate}
use loony_dev.Orchestrator.Shutdown.{Flags, Site, Stage, on_shutdown}
use loony_dev.Orchestrator.Rollback.{Queued, on_shutdown-leases}
use loony_dev.Orchestrator.Snapshots.{is_crashed, Leases, reconcile_crashed_snapshots}
use loony_dev.Orchestrator.Crashed.{IsDead, reconcile_crashed_snapshots-IsDead}
use loony_dev.Examples.Samples.{python_with, bot_lease, empty_dir, apart}
use loony_dev.Examples.Handlers.{host}
use loony_dev.Examples.Leases.{taken}
use loony_dev.Examples.Workers.{task, agent}

abbrev git : Checkout
git tr c = returned

abbrev session : PipelineSession
session = record {
  pipeline_key = codes "issue-1";
  branch = codes "issue-1/fix";
  base = some (codes "main");
  worktree_path = codes "worktrees/issue-1";
  session_id = none;
  session_key = some (codes "issue:1");
  live = true;
}

abbrev sessions : Sessions
sessions = (codes "issue-1", session) ∷ []

one_Unique : Unique sessions
unfolding Unique lookup
one_Unique = (refl, tt)

abbrev complete : Text → Result Bool
complete key = ok true

reclaimed_example :
    Extends git [] complete sessions [] (reclaim_completed_pipelines git [] complete sessions []).1
    × ((key : Text) (ps : PipelineSession)
        → lookup key sessions ≡ some ps
        → Fate git [] complete key ps (reclaim_completed_pipelines git [] complete sessions []))
reclaimed_example = reclaim_completed_pipelines-Fate git [] complete sessions [] one_Unique

abbrev stage : Stage
stage = record {
  host = host;
  py = python_with bot_lease;
  cancels = λ x. true;
  terminates = λ x. true;
  git = git;
}

abbrev site : Site
site = record { leases = taken; history = []; terminated = []; sessions = sessions; trace = [] }

abbrev flags : Flags
flags = record { shutdown_requested = true; graceful_shutdown = false }

shutdown_example :
    let after = on_shutdown stage flags (((task, 0), agent) ∷ []) site in
    (after.sessions ≡ [])
    × ((slug : Text)
        → (lookup slug after.leases ≡ lookup slug taken)
          ⊎ ((key : Text) × (false ≡ false)
              × (task_slug stage.py key ≡ slug)
              × Queued stage key (((task, 0), agent) ∷ [])))
    × ((key : Text) (lease : PipelineLease)
        → false ≡ false
        → All (λ x. stage.terminates x ≡ true) (((task, 0), agent) ∷ [])
        → Queued stage key (((task, 0), agent) ∷ [])
        → read_pipeline_lease stage.py taken key ≡ some lease
        → is_text lease.holder holder_bot ≡ true
        → lookup (task_slug stage.py key) after.leases ≡ none)
shutdown_example = on_shutdown-leases stage flags (((task, 0), agent) ∷ []) site

-- No lease is left, and every process is gone.
abbrev dead : Leases
dead = record {
  files = [];
  unreadable = λ key. false;
  raises = λ key. false;
  kill = λ pid. process_lookup_error;
}

abbrev clock : Text
clock = codes "2026"

-- A run that a crash left behind, as its snapshot file has it.
abbrev left_running : LiveState
left_running = record {
  pipeline_key = codes "issue-1";
  repo = codes "ann/app";
  stage = codes "Implementing";
  current_skill = none;
  state = codes "running";
  updated_at = clock;
  last_heartbeat = clock;
  needs_you = false;
  linked_pr = none;
  worktree_path = none;
  live = true;
  attempt = pos 1;
}

abbrev py : Python
py = python_with (obj (state_to_dict left_running))

abbrev left_dir : PipelinesDir
left_dir = record empty_dir { snapshots = (task_slug py (codes "issue-1"), codes "{}") ∷ [] }

abbrev logs : Logs
logs = (codes "ann", (codes "app", left_dir) ∷ []) ∷ []

-- It is active, and no live lease backs it.
left_made : make_state clock left_running ≡ some left_running
unfolding make_state mem_text text_eq derive_needs_you
left_made = refl

left_parsed : parse_snapshot py clock (codes "{}") ≡ some left_running
unfolding parse_snapshot state_of text_eq
left_parsed =
    state_from_dict-state_to_dict py clock clock left_running left_running (apart clock [] refl)
      left_made

listed : list_active py clock logs ≡ left_running ∷ []
unfolding list_active is_active text_eq starts_with
listed = rw (list_active, left_parsed) refl

crashed : is_crashed py dead (codes "ann/app") left_running ≡ true
unfolding is_crashed text_eq read_pipeline_lease lookup parse_lease
crashed = refl

dead_example :
    let after = reconcile_crashed_snapshots py clock (codes "ann/app") dead logs left_dir in
    (lookup (task_slug py (codes "issue-1")) after.snapshots
      ≡ lookup (task_slug py (codes "issue-1")) left_dir.snapshots)
    ⊎ ((s : LiveState) × Memᴰ s (list_active py clock logs)
        × (task_slug py s.pipeline_key ≡ task_slug py (codes "issue-1"))
        × IsDead py dead (codes "ann/app") s)
dead_example =
    reconcile_crashed_snapshots-IsDead py clock (codes "ann/app") dead logs left_dir
      (task_slug py (codes "issue-1"))

-- Every process lives, but the lease files cannot be read.
abbrev unread : Leases
unread = record {
  files = taken;
  unreadable = λ key. true;
  raises = λ key. false;
  kill = λ pid. delivered;
}

crashed_unread : is_crashed py unread (codes "ann/app") left_running ≡ true
unfolding is_crashed text_eq
crashed_unread = refl
