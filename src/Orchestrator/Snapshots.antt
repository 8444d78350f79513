-- ===== src/Orchestrator/Snapshots.antt =====
-- The snapshots that the orchestrator writes: `_write_running_snapshot`, `_finalize_snapshot`, and
-- `_reconcile_crashed_snapshots` at the start.
use loony_dev.Prelude.{
  ℤ, pos, Bool, true, false, not, ◌&&◌, List, [], ◌∷◌, Option, none, some, if◌then◌else◌, Text,
  codes, text_eq,
}
use loony_dev.Prelude.Dictionary.{Dict}
use loony_dev.Prelude.Values.{Python}
use loony_dev.ExecutionState.Schema.{
  LiveState, make_state, stage_for_task_type, skill_for_task_type,
}
use loony_dev.ExecutionState.Store.{PipelinesDir, Logs, write_snapshot, bump_snapshot, list_active}
use loony_dev.Lease.Staleness.{PipelineLease, Kill, pid_alive}
use loony_dev.Lease.Acquire.{read_pipeline_lease}
use loony_dev.Tasks.Kinds.{Task, task_type, worktree_key, pr_of}

-- `_linked_pr`
unfoldable pub linked_pr : Task → Option ℤ
linked_pr task = elim (pr_of task) [ none ↦ none | some pr ↦ some (pos pr.number) ]

-- The state that is written when a task starts; the constructor fills in the times.
unfoldable pub running_state : Text → Task → Text → Text → Option Text → LiveState
unfolding linked_pr skill_for_task_type
running_state repo task key stage worktree = record {
  pipeline_key = key;
  repo = repo;
  stage = stage;
  current_skill = skill_for_task_type (task_type task);
  state = codes "running";
  updated_at = [];
  last_heartbeat = [];
  needs_you = false;
  linked_pr = linked_pr task;
  worktree_path = worktree;
  live = true;
  attempt = pos 1;
}

abbrev unless_raised : PipelinesDir → Option PipelinesDir → PipelinesDir
unless_raised dir none = dir
unless_raised dir (some written) = written

-- `make_state` and `write_snapshot`, where every error leaves the directory as it was.
written_state : Python → Text → Text → Text → LiveState → PipelinesDir → PipelinesDir
written_state py now repo key state dir = elim (make_state now state) [
  | none ↦ dir
  | some made ↦ unless_raised dir (write_snapshot py dir repo key made)
]

unfoldable pub write_running_snapshot :
    Python → Text → Text → Task → Option Text → PipelinesDir → PipelinesDir
unfolding written_state running_state
write_running_snapshot py now repo task worktree dir = elim (worktree_key task) [
  | none ↦ dir
  | some key ↦ elim (stage_for_task_type (task_type task)) [
    | none ↦ dir
    | some stage ↦ written_state py now repo key (running_state repo task key stage worktree) dir
  ]
]

unfoldable pub finalize_snapshot : Python → Text → Task → Text → PipelinesDir → PipelinesDir
finalize_snapshot py now task outcome dir = elim (worktree_key task) [
  | none ↦ dir
  | some key ↦ unless_raised dir (bump_snapshot py now dir key (some outcome) (some false))
]

-- What the reconciliation reads: the lease files, the keys whose file the system cannot read
-- (`OSError`), those at which the read raises another error, and the processes.
pub record Leases : Type 0 where
  pub files : Dict Text
  pub unreadable : Text → Bool
  pub raises : Text → Bool
  pub kill : ℤ → Kill

-- `read_pipeline_lease` where it returns: `_parse_lease` takes a file that it cannot read for none.
unfoldable pub lease_of : Python → Leases → Text → Option PipelineLease
lease_of py leases key =
    if leases.unreadable key then none else read_pipeline_lease py leases.files key

abbrev pub lease_alive : (ℤ → Kill) → Option PipelineLease → Bool
lease_alive kill none = false
lease_alive kill (some lease) = pid_alive kill lease.pid

-- `repo` is this one, `running`, and no live lease: the snapshot is flipped.
unfoldable pub is_crashed : Python → Leases → Text → LiveState → Bool
unfolding lease_of
is_crashed py leases repo s =
    text_eq s.repo repo
    && text_eq s.state (codes "running")
    && not (leases.raises s.pipeline_key)
    && not (lease_alive leases.kill (lease_of py leases s.pipeline_key))

module _ (py : Python) (now repo : Text) (leases : Leases) where
  -- The loop; the `ValueError` of a bump ends it.
  unfoldable pub reconcile : List LiveState → PipelinesDir → PipelinesDir
  unfolding is_crashed
  reconcile [] dir = dir
  reconcile (s ∷ states) dir =
      let skipped = reconcile states dir in
      let flipped : PipelinesDir =
        elim (bump_snapshot py now dir s.pipeline_key (some (codes "crashed")) (some false)) [
          | none ↦ dir
          | some after ↦ reconcile states after
        ] in
      if is_crashed py leases repo s then flipped else skipped

  unfoldable pub reconcile_crashed_snapshots : Logs → PipelinesDir → PipelinesDir
  unfolding reconcile
  reconcile_crashed_snapshots logs dir = reconcile (list_active py now logs) dir
