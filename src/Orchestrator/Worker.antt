-- ===== src/Orchestrator/Worker.antt =====
-- `_execute_task`: a worker's effects, in their order. Other processes act between its calls, so
-- each fence check reads the lease directory of its own moment.
use loony_dev.Prelude.{
  ℤ, Bool, true, false, List, [], ◌∷◌, ◌++◌, Option, none, some, if◌then◌else◌, Text, codes,
}
use loony_dev.Prelude.Dictionary.{Dict}
use loony_dev.Prelude.Values.{Python}
use loony_dev.Lease.Staleness.{holder_bot}
use loony_dev.Lease.Acquire.{check_fence, read_pipeline_lease}
use loony_dev.Github.Client.{
  Result, ok, raise, Exception, lease_fenced_error, rate_limited_error, runtime_error,
}
use loony_dev.Tasks.Kinds.{Task, task_type, worktree_key}
use loony_dev.Tasks.Host.{TaskResult}

pub data Effect : Type 0 where
  write_running_snapshot : Effect
  emit : (event_type what state_tone actor_kind : Text) → Effect
  complete : TaskResult → Effect
  fail : Exception → Effect
  finalize_snapshot : (outcome : Text) → Effect
  release_lease : (key : Text) (holder : Text) (token : Option ℤ) → Effect

-- One run of a task: how its steps end, and the lease directory at the start and at each of the
-- three fence checks.
pub record Run : Type 0 where
  pub task : Task
  pub agent_name : Text
  pub py : Python
  pub pid : ℤ
  pub at_start : Dict Text
  pub after_agent : Dict Text
  pub after_error : Dict Text
  pub at_end : Dict Text
  pub prepare : Result (Unit {0})
  pub agent_result : Result TaskResult
  pub on_complete_result : TaskResult → Result (Unit {0})
  pub on_failure_result : Exception → Result (Unit {0})
  pub shown : Exception → Text

-- `_set_fence_token`
unfoldable pub fence_token : Run → Option ℤ
fence_token r = elim (worktree_key r.task) [
  | none ↦ none
  | some k ↦ elim (read_pipeline_lease r.py r.at_start k) [
    | none ↦ none
    | some lease ↦ lease.started_at
  ]
]

-- `_check_fence`, where `false` is `LeaseFencedError`
unfoldable pub fence_holds : Run → Dict Text → Bool
fence_holds r dir = elim (worktree_key r.task) [
  | none ↦ true
  | some k ↦ check_fence r.py r.pid (fence_token r) dir k
]

-- Tasks with no pipeline are not instrumented.
unfoldable pub for_pipeline : Run → Effect → List Effect
for_pipeline r e = elim (worktree_key r.task) [ none ↦ [] | some k ↦ e ∷ [] ]

unfoldable pub stand_down : Run → List Effect
stand_down r = for_pipeline r (
    emit (codes "terminal") (task_type r.task ++ codes " stood down (fenced)") (codes "none")
      (codes "system"))

unfoldable pub error_event : Run → Text → List Effect
error_event r what =
    for_pipeline r
      (emit (codes "error") (task_type r.task ++ what) (codes "blocked") (codes "system"))

unfoldable pub release : Run → List Effect
release r = elim (worktree_key r.task) [
  | none ↦ []
  | some k ↦ release_lease k holder_bot (fence_token r) ∷ []
]

-- The `finally` block.
unfoldable pub finally : Run → Text → Bool → List Effect
unfolding release
finally r outcome true = []
finally r outcome false =
    if fence_holds r r.at_end
    then for_pipeline r (
        emit (codes "terminal")
          (task_type r.task ++ (codes " finished (" ++ (outcome ++ codes ")"))) (codes "none")
          (codes "capo"))
      ++ (for_pipeline r (finalize_snapshot outcome) ++ release r)
    else stand_down r

-- The `except` branches: `reported` says that `on_failure` ran already.
unfoldable pub on_exception : Run → Bool → Exception → List Effect
unfolding finally
on_exception r reported e =
    if fence_holds r r.after_error
    then error_event r (codes " failed: " ++ r.shown e)
      ++ ((if reported then [] else fail e ∷ []) ++ finally r (codes "failed") false)
    else stand_down r ++ finally r (codes "failed") true

unfoldable pub raised : Run → Bool → Exception → List Effect
unfolding on_exception
raised r reported lease_fenced_error = stand_down r ++ finally r (codes "failed") true
raised r reported e = on_exception r reported e

-- After a callback that may raise itself.
unfoldable pub after_callback : Run → Bool → Text → Result (Unit {0}) → List Effect
unfolding raised finally
after_callback r reported outcome (ok done) = finally r outcome false
after_callback r reported outcome (raise e) = raised r reported e

unfoldable pub reported_failure : Run → Text → Exception → List Effect
unfolding after_callback
reported_failure r what e =
    error_event r what ++ fail e ∷ after_callback r true (codes "failed") (r.on_failure_result e)

unfoldable pub handle_result : Run → TaskResult → List Effect
unfolding reported_failure
handle_result r result =
    if result.success
    then complete result ∷ after_callback r false (codes "idle") (r.on_complete_result result)
    else if result.rate_limited
    then reported_failure r (codes " rate-limited: " ++ result.summary)
        (rate_limited_error result.summary)
    else reported_failure r (codes " failed: " ++ result.summary) (runtime_error result.summary)

unfoldable pub agent_returned : Run → Result TaskResult → List Effect
unfolding handle_result
agent_returned r (raise e) = raised r false e
agent_returned r (ok result) =
    if fence_holds r r.after_agent
    then handle_result r result
    else raised r false lease_fenced_error

unfoldable pub prepared : Run → Result (Unit {0}) → List Effect
unfolding agent_returned
prepared r (raise e) = raised r false e
prepared r (ok done) =
    for_pipeline r (
      emit (codes "phase_enter")
        (codes "Agent " ++ (r.agent_name ++ (codes " starting " ++ task_type r.task)))
        (codes "active") (codes "bot"))
    ++ agent_returned r r.agent_result

unfoldable pub execute_task : Run → List Effect
unfolding prepared
execute_task r =
    for_pipeline r write_running_snapshot
    ++ (for_pipeline r (
          emit (codes "dispatched") (codes "Dispatched " ++ task_type r.task) (codes "active")
            (codes "capo"))
        ++ prepared r r.prepare)
