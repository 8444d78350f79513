-- ===== src/Tasks/Handlers.antt =====
-- `on_start`, `on_complete` and `on_failure` of every task of loony_dev/tasks, as actions.
use loony_dev.Tasks.Host.{TaskResult, Host, marker_for, status_notes, assign_reviewer}
use loony_dev.Prelude.{
  ℕ, Bool, true, [], ◌∷◌, ◌++◌, Option, none, some, Text, codes, mem_text, print_ℕ, if◌then◌else◌,
}
use loony_dev.Github.Client.{Action, Exception, rate_limited_error, ◌>>=◌, ◌>>◌, pure}
use loony_dev.Github.Items.{
  PullRequest, Item, issue, pull_request, item_number, ready_for_planning, ready_for_development,
  in_progress, post_comment, patch_comment, label_item, unlabel_item, assign_item,
}
use loony_dev.Github.Failures.{check_and_post_failure, ci_failure_marker, failure_marker_prefix}
use loony_dev.Tasks.Markers.{
  success_marker, success_marker_prefix, failure_marker, plan_marker, plan_marker_prefix,
}
use loony_dev.Tasks.Kinds.{
  Task, PlanningTask, cleanup_stuck, resolve_conflicts, fix_ci, address_review, plan_issue,
  implement_issue,
}
use loony_dev.Tasks.RevisionNote.{split_revision_note, plan_to_post}

unfoldable pub on_start : Host → Task → Action (Unit {0})
on_start host (cleanup_stuck item hours) = post_comment host.gh (item_number item) (
    codes "This item has been `in-progress` for over "
    ++ (print_ℕ hours
        ++ codes
            " hours with no activity. The worker likely stopped unexpectedly. Resetting to allow retry."))
on_start host (resolve_conflicts pr branch) = do
  _ ← label_item host.gh pr.number in_progress
  assign_item host.gh pr.number
on_start host (fix_ci pr checks) = do
  _ ← label_item host.gh pr.number in_progress
  assign_item host.gh pr.number
on_start host (address_review pr) = do
  _ ← label_item host.gh pr.number in_progress
  assign_item host.gh pr.number
on_start host (plan_issue t) = assign_item host.gh t.issue.number
on_start host (implement_issue t) = do
  _ ←
      if mem_text ready_for_planning t.issue.labels
      then unlabel_item host.gh t.issue.number ready_for_planning
      else pure true
  _ ← unlabel_item host.gh t.issue.number ready_for_development
  _ ← label_item host.gh t.issue.number in_progress
  assign_item host.gh t.issue.number

post_note : Host → ℕ → Text → Action (Unit {0})
post_note host n [] = pure tt
post_note host n (c ∷ s) = post_comment host.gh n (codes "**Revision note:**\n\n" ++ c ∷ s)

-- A plan is posted, or put in the place of the plan it revises with a note on the revision.
post_plan : Host → PlanningTask → Text → Text → Action (Unit {0})
unfolding post_note
post_plan host t body note = elim t.existing_plan_comment_id [
  | none ↦ post_comment host.gh t.issue.number body
  | some id ↦ do patch_comment host.gh id body; post_note host t.issue.number note
]

abbrev pub blank_line : Text
blank_line = codes "\n\n"

reset_item : Host → Item → Action (Unit {0})
reset_item host (issue i) = do
  _ ← unlabel_item host.gh i.number in_progress
  _ ← label_item host.gh i.number ready_for_development
  pure tt
reset_item host (pull_request p) = do _ ← unlabel_item host.gh p.number in_progress; pure tt

abbrev review_note : TaskResult → Text
review_note result =
    if result.post_summary
    then codes "\n\nReview comments addressed.\n\n" ++ result.summary
    else codes "\n\nNo changes needed."

unfoldable pub on_complete : Host → Task → TaskResult → Action (Unit {0})
unfolding reset_item post_plan assign_reviewer
on_complete host (cleanup_stuck item hours) result = reset_item host item
on_complete host (resolve_conflicts pr branch) result = do
  _ ← unlabel_item host.gh pr.number in_progress
  post_comment host.gh pr.number
      (success_marker ++ (codes "\n\nMerge conflicts resolved.\n\n" ++ result.summary))
on_complete host (fix_ci pr checks) result = do
  _ ← unlabel_item host.gh pr.number in_progress
  post_comment host.gh pr.number
      (ci_failure_marker ++ (codes "\n\nCI failures addressed.\n\n" ++ result.summary))
on_complete host (address_review pr) result = do
  _ ← unlabel_item host.gh pr.number in_progress
  let marker = marker_for success_marker_prefix success_marker pr.new_comments
  post_comment host.gh pr.number (marker ++ review_note result)
on_complete host (plan_issue t) result =
    let marker = marker_for plan_marker_prefix plan_marker t.new_comments in
    let body = marker ++ (blank_line ++ plan_to_post result.summary) in
    post_plan host t body (split_revision_note result.summary).1
on_complete host (implement_issue t) result = do
  _ ← unlabel_item host.gh t.issue.number in_progress
  post_comment host.gh t.issue.number (
      success_marker
      ++ (codes "\n\nImplementation complete."
          ++ (status_notes t ++ (blank_line ++ result.summary))))
  assign_reviewer host t.issue

-- The failure is posted unless the error is a rate limit; the answer tells whether it was put in
-- error, and is `none` for a rate limit.
unfoldable pub report_failure : Host → Item → Text → Exception → Action (Option Bool)
report_failure host item body (rate_limited_error summary) = pure none
report_failure host item body error = do
  in_error ←
      check_and_post_failure host.gh host.fetch item body host.bot_name
        host.repeated_failure_threshold host.owner
  pure (some in_error)

restore : Host → ℕ → Option Bool → Action (Unit {0})
restore host n (some true) = pure tt
restore host n _ = do _ ← label_item host.gh n ready_for_development; pure tt

unfoldable pub failure_body : Host → Task → Exception → Text
failure_body host (cleanup_stuck item hours) error = []
failure_body host (resolve_conflicts pr branch) error =
    failure_marker
    ++ (codes "\n\nFailed to resolve merge conflicts: "
        ++ (host.shown error ++ codes "\n\nManual intervention is required."))
failure_body host (fix_ci pr checks) error =
    ci_failure_marker
    ++ (codes "\n\nFailed to fix CI failures: "
        ++ (host.shown error ++ codes "\n\nManual intervention is required."))
failure_body host (address_review pr) error =
    marker_for failure_marker_prefix failure_marker pr.new_comments
    ++ (codes "\n\nFailed to address review comments: " ++ host.shown error)
failure_body host (plan_issue t) error =
    failure_marker ++ (codes "\n\nPlanning failed: " ++ host.shown error)
failure_body host (implement_issue t) error =
    failure_marker ++ (codes "\n\nImplementation failed: " ++ host.shown error)

pr_failure : Host → PullRequest → Text → Exception → Action (Unit {0})
unfolding report_failure
pr_failure host pr body error = do
  _ ← unlabel_item host.gh pr.number in_progress
  _ ← report_failure host (pull_request pr) body error
  pure tt

unfoldable pub on_failure : Host → Task → Exception → Action (Unit {0})
unfolding pr_failure restore failure_body
on_failure host (cleanup_stuck item hours) error = pure tt
on_failure host (resolve_conflicts pr branch) error =
    pr_failure host pr (failure_body host (resolve_conflicts pr branch) error) error
on_failure host (fix_ci pr checks) error =
    pr_failure host pr (failure_body host (fix_ci pr checks) error) error
on_failure host (address_review pr) error =
    pr_failure host pr (failure_body host (address_review pr) error) error
on_failure host (plan_issue t) error = do
  _ ← report_failure host (issue t.issue) (failure_body host (plan_issue t) error) error
  pure tt
on_failure host (implement_issue t) error = do
  _ ← unlabel_item host.gh t.issue.number in_progress
  answer ← report_failure host (issue t.issue) (failure_body host (implement_issue t) error) error
  restore host t.issue.number answer
