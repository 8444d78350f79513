-- ===== src/Tasks/Due.antt =====
-- When a task is due: the pure predicates `..._action` of loony_dev/tasks.
use loony_dev.Prelude.{
  ℕ, ℤ, leb_ℤ, Bool, false, not, ◌&&◌, List, [], ◌∷◌, ◌++◌, Option, none, some, if◌then◌else◌, Text,
  codes, text_eq, text_lt, mem_text, starts_with, keep, any_of, is_nonempty, contains,
}
use loony_dev.Prelude.Sorting.{sort_by}
use loony_dev.Github.Client.{Result, ok, raise}
use loony_dev.Github.Failures.{ci_failure_marker}
use loony_dev.Github.Items.{
  Issue, PullRequest, issue, pull_request, CheckRun, Comment, has_other_assignee, is_assigned_to,
  fetched, ready_for_planning, ready_for_development, in_progress, in_error,
}
use loony_dev.Tasks.Markers.{plan_marker_prefix, success_marker_prefix, decode_last_seen, plan_text}
use loony_dev.Tasks.Kinds.{
  Task, cleanup_stuck, resolve_conflicts, fix_ci, address_review, plan_issue, implement_issue,
}

infixl 5 ◌>>=◌
abbrev pub ◌>>=◌ {ℓ κ} : {A : Type ℓ} {B : Type κ} → Result A → (A → Result B) → Result B
ok a >>= f = f a
raise e >>= f = raise e

-- What the predicates read of the repository in one tick: its settings, and the answers of the
-- service. `authorized` is `repo.is_authorized`, `comments_of` and `inline_of` are the fetches,
-- `failing` is `CheckRun.list_failing`, `cutoff` is now less the threshold.
pub record Repo : Type 0 where
  pub bot_name : Text
  pub authorized : Text → Bool
  pub comments_of : ℕ → Option (List Comment)
  pub inline_of : ℕ → Option (List Comment)
  pub failing : Text → List CheckRun
  pub default_branch : Text
  pub threshold_hours : ℕ
  pub cutoff : ℤ
  pub parse_datetime : Text → Option ℤ

abbrev pub before_cutoff : Option ℤ → ℤ → Bool
before_cutoff none cutoff = false
before_cutoff (some updated) cutoff = not (leb_ℤ cutoff updated)

unfoldable pub stuck_issue_action : Repo → Issue → Option Task
stuck_issue_action repo i =
    if not (mem_text in_progress i.labels)
    then none
    else if mem_text in_error i.labels
    then none
    else if before_cutoff i.updated_at repo.cutoff
    then some (cleanup_stuck (issue i) repo.threshold_hours)
    else none

unfoldable pub stuck_pr_action : Repo → PullRequest → Option Task
stuck_pr_action repo pr =
    if not (is_assigned_to pr repo.bot_name)
    then none
    else if not (mem_text in_progress pr.labels)
    then none
    else if mem_text in_error pr.labels
    then none
    else if before_cutoff pr.updated_at repo.cutoff
    then some (cleanup_stuck (pull_request pr) repo.threshold_hours)
    else none

abbrev pub conflicting : Option Text → Bool
conflicting none = false
conflicting (some m) = text_eq m (codes "CONFLICTING")

unfoldable pub conflict_action : Repo → PullRequest → Option Task
conflict_action repo pr =
    if not (is_assigned_to pr repo.bot_name)
    then none
    else if mem_text in_progress pr.labels
    then none
    else if mem_text in_error pr.labels
    then none
    else if not (conflicting pr.mergeable)
    then none
    else some (resolve_conflicts pr repo.default_branch)

abbrev pub at_or_after : Option ℤ → Option ℤ → Bool
at_or_after (some t) (some updated) = leb_ℤ updated t
at_or_after _ _ = false

unfoldable pub ci_already_handled : Repo → PullRequest → Bool
ci_already_handled repo pr =
    any_of
      (λ c.
        contains ci_failure_marker c.body
        && text_eq c.author repo.bot_name
        && at_or_after (repo.parse_datetime c.created_at) pr.updated_at)
      pr.comments

unfoldable pub ci_failure_action : Repo → PullRequest → Option Task
ci_failure_action repo pr =
    if not (is_assigned_to pr repo.bot_name)
    then none
    else if mem_text in_progress pr.labels
    then none
    else if mem_text in_error pr.labels
    then none
    else if not (is_nonempty pr.head_sha)
    then none
    else if not (is_nonempty (repo.failing pr.head_sha))
    then none
    else if ci_already_handled repo pr
    then none
    else some (fix_ci pr (repo.failing pr.head_sha))

-- The last comment of the bot that begins with a prefix, and the comments behind it.
unfoldable pub last_marked : Text → Text → List Comment → Option (Comment × List Comment)
last_marked bot prefix [] = none
last_marked bot prefix (c ∷ cs) = elim (last_marked bot prefix cs) [
  | some found ↦ some found
  | none ↦ if text_eq c.author bot && starts_with prefix c.body then some (c, cs) else none
]

abbrev pub not_bot : Text → Comment → Bool
not_bot bot c = not (text_eq c.author bot)

-- The comments of others behind a marker: later than its last-seen time, where it has one.
unfoldable pub since_marker : Text → List Comment → Option (Comment × List Comment) → List Comment
since_marker bot comments none = keep (not_bot bot) comments
since_marker bot comments (some (marker, behind)) = elim (decode_last_seen marker.body) [
  | some last_seen ↦ keep (λ c. not_bot bot c && text_lt last_seen c.created_at) comments
  | none ↦ keep (not_bot bot) behind
]

unfoldable pub new_since_bot : Text → List Comment → List Comment
new_since_bot bot comments =
    since_marker bot comments (last_marked bot success_marker_prefix comments)

unfoldable pub assemble_comments : PullRequest → List Comment → List Comment
assemble_comments pr inline =
    sort_by (λ a b. text_lt a.created_at b.created_at)
      (pr.comments ++ (keep (λ r. is_nonempty r.body) pr.reviews ++ inline))

-- The copy keeps what the constructor is given, and defaults for the rest.
unfoldable pub review_of : PullRequest → List Comment → Option Task
review_of pr [] = none
review_of pr (c ∷ cs) = some (
    address_review (record pr {
      body = [];
      author = [];
      head_sha = [];
      mergeable = none;
      updated_at = none;
      assignees = [];
      new_comments = c ∷ cs;
    }))

unfoldable pub pr_review_action : Repo → PullRequest → Result (Option Task)
pr_review_action repo pr =
    if not (is_assigned_to pr repo.bot_name)
    then ok none
    else if mem_text in_progress pr.labels
    then ok none
    else if mem_text in_error pr.labels
    then ok none
    else do
      inline ← fetched (repo.inline_of pr.number)
      let new_comments = new_since_bot repo.bot_name (assemble_comments pr inline)
      ok (review_of pr (keep (λ c. repo.authorized c.author) new_comments))

abbrev pub plan_of : Option (Comment × List Comment) → Option Text
plan_of none = none
plan_of (some (marker, behind)) = some (plan_text marker.body)

unfoldable pub revision : Issue → Text → Option ℕ → List Comment → Option Task
revision i plan id [] = none
revision i plan id (c ∷ cs) = some (
    plan_issue (record {
      issue = i;
      existing_plan = some plan;
      new_comments = c ∷ cs;
      existing_plan_comment_id = id;
    }))

-- A first plan, or a revision on the authorized feedback.
unfoldable pub plan_or_revise :
    Repo → Issue → List Comment → Option (Comment × List Comment) → Option Task
unfolding revision
plan_or_revise repo i comments none = some (
    plan_issue (record {
      issue = i;
      existing_plan = none;
      new_comments = since_marker repo.bot_name comments none;
      existing_plan_comment_id = none;
    }))
plan_or_revise repo i comments (some (marker, behind)) =
    revision i (plan_text marker.body) marker.id (
      keep (λ c. repo.authorized c.author)
        (since_marker repo.bot_name comments (some (marker, behind))))

unfoldable pub planning_action : Repo → Issue → Result (Option Task)
planning_action repo i =
    if not (mem_text ready_for_planning i.labels)
    then ok none
    else if has_other_assignee i repo.bot_name
    then ok none
    else if mem_text in_error i.labels
    then ok none
    else if mem_text ready_for_development i.labels
    then ok none
    else do
      comments ← fetched (repo.comments_of i.number)
      ok (plan_or_revise repo i comments (last_marked repo.bot_name plan_marker_prefix comments))

unfoldable pub issue_action : Repo → Issue → Result (Option Task)
issue_action repo i =
    if not (mem_text ready_for_development i.labels)
    then ok none
    else if has_other_assignee i repo.bot_name
    then ok none
    else if mem_text in_error i.labels
    then ok none
    else do
      comments ← fetched (repo.comments_of i.number)
      ok (
          some (
            implement_issue (record {
              issue = i;
              plan = plan_of (last_marked repo.bot_name plan_marker_prefix comments);
              commit_exhausted = false;
              hook_output = none;
            })))
