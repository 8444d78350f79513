-- ===== src/Pipeline/Ladder.antt =====
-- `Pipeline.discover` and `Pipeline.next_task` of loony_dev/pipeline.py.
use loony_dev.Prelude.{
  List, [], ◌∷◌, ◌++◌, map, Option, none, some, if◌then◌else◌, ◌==◌, any_of, Text, text_eq,
}
use loony_dev.Github.Client.{Result, ok, raise}
use loony_dev.Github.Items.{
  Issue, PullRequest, ready_for_planning, ready_for_development, in_progress,
}
use loony_dev.Tasks.Kinds.{Task, issue_key, issue_or_pr_keys}
use loony_dev.Tasks.Due.{
  Repo, stuck_issue_action, stuck_pr_action, conflict_action, ci_failure_action, pr_review_action,
  planning_action, issue_action,
}

pub record Pipeline : Type 0 where
  pub pipeline_key : Text
  pub issue : Option Issue
  pub pr : Option PullRequest

-- `issues_by_number.setdefault(issue.number, issue)`, for the issues in order.
unfoldable pub by_number : List Issue → List Issue → List Issue
by_number found [] = found
by_number found (i ∷ rest) =
    let with_it = by_number (found ++ i ∷ []) rest in
    let without_it = by_number found rest in
    if any_of (λ j. j.number == i.number) found then without_it else with_it

unfoldable pub of_issue : Issue → Pipeline
of_issue i = record { pipeline_key = issue_key i.number; issue = some i; pr = none }

-- A pull request joins a pipeline that has none, and is dropped where there is one.
unfoldable pub with_pr : Pipeline → PullRequest → Pipeline
with_pr p pr = elim p.pr [ some other ↦ p | none ↦ record p { pr = some pr } ]

-- The pipeline of the pull request's key, or a new one behind the others.
unfoldable pub attach : List Pipeline → PullRequest → List Pipeline
attach [] pr = record { pipeline_key = (issue_or_pr_keys pr).1; issue = none; pr = some pr } ∷ []
attach (p ∷ ps) pr =
    let rest = attach ps pr in
    if text_eq p.pipeline_key (issue_or_pr_keys pr).1 then with_pr p pr ∷ ps else p ∷ rest

unfoldable pub attach_all : List Pipeline → List PullRequest → List Pipeline
attach_all ps [] = ps
attach_all ps (pr ∷ prs) = attach_all (attach ps pr) prs

-- The enumeration, from the issues of a label and the open pull requests. The numbers of the
-- issues are distinct, so each makes a pipeline.
unfoldable pub discover : (Text → List Issue) → List PullRequest → List Pipeline
discover issues_of prs =
    let issues =
      issues_of ready_for_planning ++ (issues_of ready_for_development ++ issues_of in_progress) in
    attach_all (map of_issue (by_number [] issues)) prs

-- `task = ...; if task is not None: return task`, before the rest of the ladder.
unfoldable pub or_next : Result (Option Task) → Result (Option Task) → Result (Option Task)
or_next (ok none) rest = rest
or_next (ok (some t)) rest = ok (some t)
or_next (raise e) rest = raise e

-- A rung for a facet that may be missing.
unfoldable pub rung {ℓ} :
    {A : Type ℓ} → Option A → (A → Result (Option Task)) → Result (Option Task)
rung none action = ok none
rung (some a) action = action a

unfoldable pub next_task : Repo → Pipeline → Result (Option Task)
unfolding or_next rung
next_task repo p = or_next (rung p.issue (λ i. ok (stuck_issue_action repo i))) (
    or_next (rung p.pr (λ pr. ok (stuck_pr_action repo pr))) (
      or_next (rung p.pr (λ pr. ok (conflict_action repo pr))) (
        or_next (rung p.pr (λ pr. ok (ci_failure_action repo pr))) (
          or_next (rung p.pr (pr_review_action repo))
            (or_next (rung p.issue (planning_action repo)) (rung p.issue (issue_action repo)))))))
