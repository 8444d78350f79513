-- ===== src/Orchestrator/Sessions.antt =====
-- loony_dev/pipeline_session.py, and the worktree that the orchestrator keeps for a pipeline:
-- `_pipeline_session_for`, `_ensure_pipeline_worktree`, `_remove_worktree`.
use loony_dev.Prelude.{
  Bool, true, false, List, [], ◌∷◌, ◌++◌, Option, none, some, if◌then◌else◌, Text, codes,
}
use loony_dev.Prelude.Dictionary.{Dict, lookup, insert}
use loony_dev.Prelude.Values.{Python}
use loony_dev.Github.Client.{
  Result, ok, raise, Stateful, ◌>>=◌, ◌>>◌, pure, throw, value_error, runtime_error,
}
use loony_dev.Tasks.Kinds.{
  Task, cleanup_stuck, resolve_conflicts, fix_ci, address_review, plan_issue, implement_issue,
  worktree_key, target_branch, session_key, branch_name,
}

pub record PipelineSession : Type 0 where
  pub pipeline_key : Text
  pub branch : Text
  pub base : Option Text
  pub worktree_path : Text
  pub session_id : Option Text
  pub session_key : Option Text
  pub live : Bool

-- What a session is derived from besides the task: `worktree_root / key`, `session_id_for` of the
-- repository (a UUID of version 5), the default branch of the checkout, and the runtime.
pub record Place : Type 0 where
  pub py : Python
  pub under_root : Text → Text
  pub session_id_for : Text → Text
  pub default_branch : Text

-- `if value:`
unfoldable pub nonempty : Option Text → Option Text
nonempty none = none
nonempty (some []) = none
nonempty (some (c ∷ s)) = some (c ∷ s)

-- The branch and the base of a task without a branch to work on.
unfoldable pub own_branch : Place → Text → Task → Text × Option Text
own_branch place key (plan_issue t) = (branch_name place.py t.issue, some place.default_branch)
own_branch place key (implement_issue t) = (branch_name place.py t.issue, some place.default_branch)
own_branch place key (cleanup_stuck item hours) = (key, some place.default_branch)
own_branch place key (resolve_conflicts pr branch) = (key, some place.default_branch)
own_branch place key (fix_ci pr checks) = (key, some place.default_branch)
own_branch place key (address_review pr) = (key, some place.default_branch)

unfoldable pub branch_and_base : Place → Text → Task → Text × Option Text
unfolding nonempty own_branch
branch_and_base place key task = elim (nonempty (target_branch task)) [
  | some target ↦ (target, none)
  | none ↦ own_branch place key task
]

abbrev id_of : Place → Option Text → Option Text
id_of place none = none
id_of place (some key) = some (place.session_id_for key)

unfoldable pub for_key : Place → Task → Text → PipelineSession
unfolding branch_and_base
for_key place task key = record {
  pipeline_key = key;
  branch = (branch_and_base place key task).0;
  base = (branch_and_base place key task).1;
  worktree_path = place.under_root key;
  session_id = id_of place (nonempty (session_key task));
  session_key = session_key task;
  live = false;
}

-- `PipelineSession.for_task`
unfoldable pub for_task : Place → Task → Result PipelineSession
unfolding for_key
for_task place task = elim (worktree_key task) [
  | none ↦ raise value_error
  | some key ↦ ok (for_key place task key)
]

-- `self._pipeline_sessions`
abbrev pub Sessions : Type 0
Sessions = Dict PipelineSession

unfoldable pub get_or_create : Place → Task → Text → Sessions → PipelineSession × Sessions
unfolding for_key
get_or_create place task key sessions = elim (lookup key sessions) [
  | some ps ↦ (ps, sessions)
  | none ↦ (for_key place task key, insert key (for_key place task key) sessions)
]

unfoldable pub pipeline_session_for : Place → Task → Sessions → Option PipelineSession × Sessions
unfolding get_or_create
pipeline_session_for place task sessions = elim (worktree_key task) [
  | none ↦ (none, sessions)
  | some key ↦ let (ps, sessions') = get_or_create place task key sessions in (some ps, sessions')
]

-- The calls that touch the worktrees.
pub data WorktreeCall : Type 0 where
  reset_branch_to_upstream : (branch : Text) → WorktreeCall
  mkdir_parent : (path : Text) → WorktreeCall
  create_worktree : (branch path : Text) (base : Option Text) → WorktreeCall
  trust_directory : (path : Text) → WorktreeCall
  record_session_worktree : (key path branch session_id : Text) → WorktreeCall
  install_commands : (path : Text) → WorktreeCall
  add_local_exclude : (path pattern : Text) → WorktreeCall
  sync_worktree_to_upstream : (path target : Text) → WorktreeCall
  remove_worktree : (path : Text) → WorktreeCall

-- Whether a call returned, or raised an `OSError` or another exception.
pub data Outcome : Type 0 where
  returned os_error other_error : Outcome

-- The calls made so far.
abbrev pub Trace : Type 0
Trace = List (WorktreeCall × Outcome)

-- How a call ends after the calls before it.
abbrev pub Checkout : Type 0
Checkout = Trace → WorktreeCall → Outcome

abbrev pub succeeded : Outcome → Bool
succeeded returned = true
succeeded os_error = false
succeeded other_error = false

module _ (git : Checkout) where
  unfoldable pub attempt : WorktreeCall → Stateful Trace Outcome
  attempt c tr = (ok (git tr c), tr ++ (c, git tr c) ∷ [])

  abbrev or_raise : Outcome → Stateful Trace (Unit {0})
  or_raise returned = pure tt
  or_raise os_error = throw (runtime_error (codes "OSError"))
  or_raise other_error = throw (runtime_error (codes "error"))

  -- `except OSError: log`
  abbrev unless_os_error : Outcome → Stateful Trace (Unit {0})
  unless_os_error returned = pure tt
  unless_os_error os_error = pure tt
  unless_os_error other_error = throw (runtime_error (codes "error"))

  unfoldable pub perform : WorktreeCall → Stateful Trace (Unit {0})
  unfolding attempt
  perform c = attempt c >>= or_raise

  -- The slash commands; the exclude is added where they were installed.
  abbrev exclude_after : Text → Outcome → Stateful Trace (Unit {0})
  exclude_after path returned =
      attempt (add_local_exclude path (codes ".claude/commands/")) >>= unless_os_error
  exclude_after path os_error = pure tt
  exclude_after path other_error = throw (runtime_error (codes "error"))

  -- `_record_pipeline_session`, which never raises.
  unfoldable pub record_pipeline_session :
      Place → Task → PipelineSession → Stateful Trace (Unit {0})
  unfolding attempt
  record_pipeline_session place task ps = elim (session_key task) [
    | none ↦ pure tt
    | some key ↦
        attempt (
          record_session_worktree ps.pipeline_key ps.worktree_path ps.branch
            (place.session_id_for key))
        >>= λ _. pure tt
  ]

  unfoldable pub reset_target : Option Text → Stateful Trace (Unit {0})
  unfolding perform
  reset_target none = pure tt
  reset_target (some target) = perform (reset_branch_to_upstream target)

  -- The steps of a first use, up to `ps.live = True`.
  unfoldable pub materialize :
      Place → Task → PipelineSession → Option Text → Stateful Trace (Unit {0})
  unfolding reset_target record_pipeline_session
  materialize place task ps target =
      reset_target target
      >> perform (mkdir_parent ps.worktree_path)
      >> perform (create_worktree ps.branch ps.worktree_path ps.base)
      >> perform (trust_directory ps.worktree_path)
      >> record_pipeline_session place task ps
      >> (attempt (install_commands ps.worktree_path) >>= exclude_after ps.worktree_path)

  abbrev sync_target : PipelineSession → Option Text → Stateful Trace (Unit {0})
  sync_target ps none = pure tt
  sync_target ps (some target) = perform (sync_worktree_to_upstream ps.worktree_path target)

  abbrev made_live : PipelineSession → Result (Unit {0}) → PipelineSession
  made_live ps (ok done) = record ps { live = true }
  made_live ps (raise e) = ps

  unfoldable pub ensure_pipeline_worktree :
      Place
      → PipelineSession
      → Task
      → Option Text
      → Trace
      → Result (Unit {0}) × PipelineSession × Trace
  unfolding materialize
  ensure_pipeline_worktree place ps task target tr =
      if ps.live
      then (let (r, tr') = sync_target ps (nonempty target) tr in (r, ps, tr'))
      else (let (r, tr') = materialize place task ps (nonempty target) tr in
          (r, made_live ps r, tr'))

  -- `_remove_worktree` of a path
  unfoldable pub remove_worktree_at : Text → Trace → Bool × Trace
  remove_worktree_at path tr = (
    succeeded (git tr (remove_worktree path)),
    tr ++ (remove_worktree path, git tr (remove_worktree path)) ∷ [],
  )
