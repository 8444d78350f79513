-- ===== src/Tasks/Kinds.antt =====
-- The tasks of loony_dev/tasks as data, with their type, priority, keys and branches.
use loony_dev.Prelude.{ℕ, Bool, List, ◌++◌, Option, none, some, Text, codes, print_ℕ, ◌≡◌, refl}
use loony_dev.Prelude.Values.{Python}
use loony_dev.Slug.{slugify}
use loony_dev.Github.Items.{Issue, PullRequest, Item, CheckRun, Comment}
use loony_dev.Tasks.IssueNumber.{issue_number, branch_issue-print_ℕ}

pub record IssueTask : Type 0 where
  pub issue : Issue
  pub plan : Option Text
  pub commit_exhausted : Bool
  pub hook_output : Option Text

pub record PlanningTask : Type 0 where
  pub issue : Issue
  pub existing_plan : Option Text
  pub new_comments : List Comment
  pub existing_plan_comment_id : Option ℕ

pub data Task : Type 0 where
  cleanup_stuck : (item : Item) (threshold_hours : ℕ) → Task
  resolve_conflicts : (pr : PullRequest) (default_branch : Text) → Task
  fix_ci : (pr : PullRequest) (failed_checks : List CheckRun) → Task
  address_review : (pr : PullRequest) → Task
  plan_issue : PlanningTask → Task
  implement_issue : IssueTask → Task

unfoldable pub task_type : Task → Text
task_type (cleanup_stuck item hours) = codes "cleanup_stuck"
task_type (resolve_conflicts pr branch) = codes "resolve_conflicts"
task_type (fix_ci pr checks) = codes "fix_ci"
task_type (address_review pr) = codes "address_review"
task_type (plan_issue t) = codes "plan_issue"
task_type (implement_issue t) = codes "implement_issue"

unfoldable pub priority : Task → ℕ
priority (cleanup_stuck item hours) = 5
priority (resolve_conflicts pr branch) = 10
priority (fix_ci pr checks) = 15
priority (address_review pr) = 20
priority (plan_issue t) = 30
priority (implement_issue t) = 40

unfoldable pub issue_key : ℕ → Text
issue_key n = codes "issue-" ++ print_ℕ n

unfoldable pub pr_key : ℕ → Text
pr_key n = codes "pr-" ++ print_ℕ n

abbrev keys_of : Option ℕ → ℕ → Text × Text
keys_of (some n) p = (codes "issue:" ++ print_ℕ n, issue_key n)
keys_of none p = (codes "pr:" ++ print_ℕ p, pr_key p)

-- The session key and the worktree key of a task on a pull request.
unfoldable pub issue_or_pr_keys : PullRequest → Text × Text
issue_or_pr_keys pr = keys_of (issue_number pr) pr.number

unfoldable pub worktree_key : Task → Option Text
worktree_key (cleanup_stuck item hours) = none
worktree_key (resolve_conflicts pr branch) = some (issue_or_pr_keys pr).1
worktree_key (fix_ci pr checks) = some (issue_or_pr_keys pr).1
worktree_key (address_review pr) = some (issue_or_pr_keys pr).1
worktree_key (plan_issue t) = some (issue_key t.issue.number)
worktree_key (implement_issue t) = some (issue_key t.issue.number)

abbrev session_of : ℕ → Text
session_of n = codes "issue:" ++ print_ℕ n

unfoldable pub session_key : Task → Option Text
session_key (cleanup_stuck item hours) = none
session_key (resolve_conflicts pr branch) = some (issue_or_pr_keys pr).0
session_key (fix_ci pr checks) = some (issue_or_pr_keys pr).0
session_key (address_review pr) = some (issue_or_pr_keys pr).0
session_key (plan_issue t) = some (session_of t.issue.number)
session_key (implement_issue t) = some (session_of t.issue.number)

unfoldable pub target_branch : Task → Option Text
target_branch (cleanup_stuck item hours) = none
target_branch (resolve_conflicts pr branch) = some pr.branch
target_branch (fix_ci pr checks) = some pr.branch
target_branch (address_review pr) = some pr.branch
target_branch (plan_issue t) = none
target_branch (implement_issue t) = none

-- The pull request of a task that works on one, `task.pr`.
abbrev pub pr_of : Task → Option PullRequest
pr_of (cleanup_stuck item hours) = none
pr_of (resolve_conflicts pr branch) = some pr
pr_of (fix_ci pr checks) = some pr
pr_of (address_review pr) = some pr
pr_of (plan_issue t) = none
pr_of (implement_issue t) = none

-- The feature branch of an issue, for planning and implementation alike.
unfoldable pub branch_name : Python → Issue → Text
branch_name py i = codes "issue-" ++ (print_ℕ i.number ++ (codes "/" ++ slugify py i.title))

-- A pull request whose branch is the feature branch of an issue has the keys of the issue's own
-- tasks, so that all phases share one session and one worktree.
pub issue_or_pr_keys-branch_name :
    (py : Python) (t : IssueTask) (p : PlanningTask) (pr : PullRequest)
    → pr.branch ≡ branch_name py t.issue
    → p.issue.number ≡ t.issue.number
    → (some (issue_or_pr_keys pr).0 ≡ session_key (implement_issue t))
      × (some (issue_or_pr_keys pr).1 ≡ worktree_key (implement_issue t))
      × (session_key (plan_issue p) ≡ session_key (implement_issue t))
      × (worktree_key (plan_issue p) ≡ worktree_key (implement_issue t))
unfolding issue_or_pr_keys session_key worktree_key issue_number branch_name
issue_or_pr_keys-branch_name py t p pr e same =
    let found = branch_issue-print_ℕ t.issue.number (slugify py t.issue.title) in
    rw (e, found, same) (refl, refl, refl, refl)
