-- ===== src/Pipeline/Gates.antt =====
-- When the rungs of the ladder yield a task, each guard of loony_dev/tasks at once.
use mathlib.Core.Option.{some-injective, none-ne-some}
use loony_dev.Prelude.{
  Bool, not, ap, keep, keep, Bool, true, false, not, List, [], ◌∷◌, Option, none, some,
  if◌then◌else◌, mem_text, is_nonempty, keep, ◌≡◌, refl, arith, sym,
}
use loony_dev.Github.Client.{Result, ok, raise}
use loony_dev.Github.Items.{
  Comment, fetched, Issue, PullRequest, Comment, issue, pull_request, is_assigned_to, fetched,
  in_progress, in_error,
}
use loony_dev.Tasks.Kinds.{
  address_review, Task, cleanup_stuck, resolve_conflicts, fix_ci, address_review,
}
use loony_dev.Tasks.Due.{
  ◌>>=◌, review_of, new_since_bot, assemble_comments, pr_review_action, Repo, before_cutoff,
  conflicting, ci_already_handled, stuck_issue_action, stuck_pr_action, conflict_action,
  ci_failure_action, pr_review_action,
}

abbrev pub answer_of : Result (Option Task) → Option Task
answer_of (ok answer) = answer
answer_of (raise e) = none

-- A guard that was passed.
pub guard_lem :
    (guard : Bool) (rest : Result (Option Task)) (t : Task)
    → (if guard then ok none else rest) ≡ ok (some t)
    → (guard ≡ false) × (rest ≡ ok (some t))
guard_lem true rest t e = absurd (none-ne-some t (ap answer_of e))
guard_lem false rest t e = (refl, e)

pub not-false : (b : Bool) → not b ≡ false → b ≡ true
not-false b e = ground arith

pub stuck_issue_action_lem :
    (repo : Repo) (i : Issue) (t : Task)
    → stuck_issue_action repo i ≡ some t
    → (some (cleanup_stuck (issue i) repo.threshold_hours) ≡ some t)
      × (mem_text in_progress i.labels ≡ true)
      × (mem_text in_error i.labels ≡ false)
      × (before_cutoff i.updated_at repo.cutoff ≡ true)
unfolding stuck_issue_action
stuck_issue_action_lem repo i t e = ground arith

pub stuck_pr_action_lem :
    (repo : Repo) (pr : PullRequest) (t : Task)
    → stuck_pr_action repo pr ≡ some t
    → (some (cleanup_stuck (pull_request pr) repo.threshold_hours) ≡ some t)
      × (is_assigned_to pr repo.bot_name ≡ true)
      × (mem_text in_progress pr.labels ≡ true)
      × (mem_text in_error pr.labels ≡ false)
      × (before_cutoff pr.updated_at repo.cutoff ≡ true)
unfolding stuck_pr_action
stuck_pr_action_lem repo pr t e = ground arith

pub conflict_action_lem :
    (repo : Repo) (pr : PullRequest) (t : Task)
    → conflict_action repo pr ≡ some t
    → (some (resolve_conflicts pr repo.default_branch) ≡ some t)
      × (is_assigned_to pr repo.bot_name ≡ true)
      × (mem_text in_progress pr.labels ≡ false)
      × (mem_text in_error pr.labels ≡ false)
      × (conflicting pr.mergeable ≡ true)
unfolding conflict_action
conflict_action_lem repo pr t e = ground arith

pub ci_failure_action_lem :
    (repo : Repo) (pr : PullRequest) (t : Task)
    → ci_failure_action repo pr ≡ some t
    → (some (fix_ci pr (repo.failing pr.head_sha)) ≡ some t)
      × (is_assigned_to pr repo.bot_name ≡ true)
      × (mem_text in_progress pr.labels ≡ false)
      × (mem_text in_error pr.labels ≡ false)
      × (is_nonempty pr.head_sha ≡ true)
      × (is_nonempty (repo.failing pr.head_sha) ≡ true)
      × (ci_already_handled repo pr ≡ false)
unfolding ci_failure_action
ci_failure_action_lem repo pr t e = ground arith

pub review_of_lem :
    (pr : PullRequest) (comments : List Comment) (t : Task)
    → review_of pr comments ≡ some t
    → (new : PullRequest) × (t ≡ address_review new)
      × (new.number ≡ pr.number)
      × (new.branch ≡ pr.branch)
      × (new.title ≡ pr.title)
      × (new.body ≡ [])
      × (new.new_comments ≡ comments)
      × (is_nonempty comments ≡ true)
unfolding review_of
review_of_lem pr [] t e = absurd (none-ne-some t e)
review_of_lem pr (c ∷ cs) t e = (
  record pr {
    body = [];
    author = [];
    head_sha = [];
    mergeable = none;
    updated_at = none;
    assignees = [];
    new_comments = c ∷ cs;
  },
  sym (some-injective _ t e),
  refl,
  refl,
  refl,
  refl,
  refl,
  refl,
)

reviewed_lem :
    (repo : Repo) (pr : PullRequest) (t : Task) (inline : Option (List Comment))
    → (fetched inline >>= λ found.
        let new_comments = new_since_bot repo.bot_name (assemble_comments pr found) in
        ok (review_of pr (keep (λ c. repo.authorized c.author) new_comments)))
      ≡ ok (some t)
    → (found : List Comment) × (inline ≡ some found)
      × (review_of pr (
            keep
              (λ c. repo.authorized c.author)
              (new_since_bot repo.bot_name (assemble_comments pr found)))
          ≡ some t)
unfolding fetched
reviewed_lem repo pr t none e = absurd (none-ne-some t (ap answer_of e))
reviewed_lem repo pr t (some found) e = (found, refl, ap answer_of e)

-- A review task exists only for a pull request of the bot that is neither in progress nor in
-- error; it is about new comments, at least one, and those are the authorized ones of the new
-- comments since the last answer.
pub pr_review_action_lem :
    (repo : Repo) (pr : PullRequest) (t : Task)
    → pr_review_action repo pr ≡ ok (some t)
    → (is_assigned_to pr repo.bot_name ≡ true)
      × (mem_text in_progress pr.labels ≡ false)
      × (mem_text in_error pr.labels ≡ false)
      × ((inline : List Comment) × (repo.inline_of pr.number ≡ some inline)
          × (review_of pr (
                keep
                  (λ c. repo.authorized c.author)
                  (new_since_bot repo.bot_name (assemble_comments pr inline)))
              ≡ some t))
unfolding pr_review_action fetched
pr_review_action_lem repo pr t e =
    let (a, e1) = guard_lem (not (is_assigned_to pr repo.bot_name)) _ t e in
    let (b, e2) = guard_lem (mem_text in_progress pr.labels) _ t e1 in
    let (c, e3) = guard_lem (mem_text in_error pr.labels) _ t e2 in
    (
      not-false (is_assigned_to pr repo.bot_name) a,
      b,
      c,
      reviewed_lem repo pr t (repo.inline_of pr.number) e3,
    )
