-- ===== src/Examples/Workers.antt =====
-- The theorems on the scheduler and the worker, at concrete tasks and runs.
use loony_dev.Prelude.{◌⊎◌}
use loony_dev.Lease.Staleness.{holder_bot, delivered}
use loony_dev.Orchestrator.Dispatch.{dispatch_one-own}
use loony_dev.Examples.Samples.{scene_with, bot_lease}
use loony_dev.Lease.Acquire.{still_ours, time_eq, read_pipeline_lease, check_fence}
use loony_dev.Lease.Staleness.{parse_lease}
use native.Mathlib.Omega.{arith}
use loony_dev.Prelude.{◌≤◌, pos, true, false, [], ◌∷◌, length, none, some, Text, codes, ◌≡◌, refl}
use loony_dev.Prelude.Dictionary.{lookup, Dict}
use loony_dev.Github.Client.{ok}
use loony_dev.Lease.Staleness.{holder_drive}
use loony_dev.Lease.Acquire.{read_pipeline_lease, check_fence}
use loony_dev.Lease.Exclusion.{written}
use loony_dev.Tasks.Kinds.{Task, implement_issue, worktree_key, issue_key}
use loony_dev.Orchestrator.Scheduler.{Agent, find_work}
use loony_dev.Orchestrator.FindWork.{DistinctFrom, find_work-DistinctFrom}
use loony_dev.Orchestrator.Dispatch.{Board, Desk, dispatch_one, dispatch_one-IsLive}
use loony_dev.Orchestrator.Worker.{Run, fence_holds, fence_token, execute_task}
use loony_dev.Orchestrator.Fencing.{Without, is_callback, is_terminal, execute_task-is_terminal}
use loony_dev.Orchestrator.Callbacks.{execute_task-is_callback}
use loony_dev.Orchestrator.Closing.{is_unfenced, Closes, execute_task-Closes}
use loony_dev.Examples.Pipelines.{stuck_issue}
use loony_dev.Examples.Handlers.{host}
use loony_dev.Examples.Leases.{scene, taken, read_taken, drive-IsLive, key}

abbrev pub task : Task
task =
    implement_issue
      (record { issue = stuck_issue; plan = none; commit_exhausted = false; hook_output = none })

abbrev pub agent : Agent
agent = record { name = codes "coder"; can_handle = λ t. true }

batch_example :
    DistinctFrom [] (find_work (agent ∷ []) 1 [] ((task, 0) ∷ (task, 1) ∷ []))
    × (length (find_work (agent ∷ []) 1 [] ((task, 0) ∷ (task, 1) ∷ [])) ≤ 1)
batch_example = find_work-DistinctFrom (agent ∷ []) 1 [] ((task, 0) ∷ (task, 1) ∷ []) (omega arith)

abbrev desk : Desk
desk = record { host = host; scene = scene; window = pos 10; pid = pos 8 }

abbrev board : Board
board = record { leases = taken; history = []; inflight = [] }

task_key : worktree_key task ≡ some key
unfolding worktree_key issue_key
task_key = refl

refused_example : dispatch_one desk board ((task, 0), agent) ≡ board
refused_example =
    dispatch_one-IsLive desk board (task, 0) agent key (written holder_drive (pos 7) key (pos 1000))
      task_key read_taken (drive-IsLive (pos 10))

abbrev run_at : Dict Text → Run
run_at dir = record {
  task = task;
  agent_name = codes "coder";
  py = scene.py;
  pid = pos 7;
  at_start = taken;
  after_agent = dir;
  after_error = dir;
  at_end = dir;
  prepare = ok tt;
  agent_result = ok (record {
    success = true;
    output = [];
    summary = [];
    post_summary = true;
    rate_limited = false;
  });
  on_complete_result = λ result. ok tt;
  on_failure_result = λ e. ok tt;
  shown = λ e. [];
}

token : (dir : Dict Text) → fence_token (run_at dir) ≡ some (pos 1000)
unfolding fence_token
token dir = rw (fence_token, task_key, read_taken) refl

-- The lease is gone.
lost : fence_holds (run_at []) [] ≡ false
unfolding fence_holds fence_token check_fence still_ours read_pipeline_lease parse_lease lookup
lost = rw (fence_holds, task_key, token []) refl

kept : fence_holds (run_at taken) taken ≡ true
unfolding fence_holds fence_token check_fence still_ours time_eq
kept = rw (fence_holds, task_key, token taken, check_fence, read_taken) refl

terminal_example : Without is_terminal (execute_task (run_at []))
terminal_example = execute_task-is_terminal (run_at []) lost

callback_example : Without is_callback (execute_task (run_at []))
callback_example = execute_task-is_callback (run_at []) lost lost

closing_example : Closes (run_at taken) key (execute_task (run_at taken))
unfolding is_unfenced
closing_example =
    execute_task-Closes (run_at taken) key task_key kept kept kept (λ result. refl) (λ e. refl) refl
      refl

abbrev bot_desk : Desk
bot_desk = record {
  host = host;
  scene = scene_with bot_lease delivered;
  window = pos 10;
  pid = pos 7;
}

abbrev free_board : Board
free_board = record { leases = []; history = []; inflight = [] }

own_dispatch_example :
    ((dispatch_one bot_desk free_board ((task, 0), agent)).inflight ≡ [])
    ⊎ (((dispatch_one bot_desk free_board ((task, 0), agent)).inflight ≡ ((task, 0), agent) ∷ [])
        × (read_pipeline_lease bot_desk.scene.py
              (dispatch_one bot_desk free_board ((task, 0), agent)).leases
              key
            ≡ some (written holder_bot (pos 7) key (pos 1000))))
own_dispatch_example = dispatch_one-own bot_desk free_board (task, 0) agent key refl task_key
