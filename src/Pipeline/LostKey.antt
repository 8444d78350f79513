-- ===== src/Pipeline/LostKey.antt =====
-- The pull request that `pr_review_action` of tasks/pr_review_task.py hands to its task.
use loony_dev.Prelude.{true, ℕ, none, some, ◌≡◌, refl}
use loony_dev.Github.Client.{ok}
use loony_dev.Github.Items.{PullRequest}
use loony_dev.Tasks.Kinds.{Task, issue_key, pr_key, issue_or_pr_keys, worktree_key}
use loony_dev.Tasks.IssueNumber.{issue_number, branch_issue, body_issue, title_issue}
use loony_dev.Tasks.Due.{Repo, pr_review_action}
use loony_dev.Pipeline.Gates.{pr_review_action_lem, review_of_lem}

-- For a pull request whose body alone names issue n, the review task has the worktree of the
-- pull request, while the pull request itself has the key of issue n.
pub pr_review_action-worktree_key :
    (repo : Repo) (pr : PullRequest) (t : Task) (n : ℕ)
    → pr_review_action repo pr ≡ ok (some t)
    → branch_issue pr.branch ≡ none
    → body_issue true pr.body ≡ some n
    → title_issue pr.title ≡ none
    → (worktree_key t ≡ some (pr_key pr.number)) × ((issue_or_pr_keys pr).1 ≡ issue_key n)
unfolding worktree_key issue_or_pr_keys issue_number body_issue
pr_review_action-worktree_key repo pr t n found branch_e body_e title_e =
    let (assigned, working, failed, (inline, read, made)) = pr_review_action_lem repo pr t found in
    let (new, is, number, branch, title, body, about, rest) = review_of_lem pr _ t made in
    (rw (is, number, branch, title, body, branch_e, title_e) refl, rw (branch_e, body_e) refl)
