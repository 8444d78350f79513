-- ===== src/Examples/Handlers.antt =====
-- The theorems on the handlers, at a concrete host.
use native.Mathlib.Omega.{arith}
use loony_dev.Prelude.{
  ◌&&◌, Bool, true, false, not, ◌||◌, [], ◌∷◌, none, some, codes, mem_text, text_eq, ◌≡◌, refl,
}
use loony_dev.Github.Client.{try_call, ok, called_process_error}
use loony_dev.Github.Items.{
  label_item, unlabel_item, assign_item, PullRequest, in_progress, ready_for_development, in_error,
}
use loony_dev.Github.Failures.{is_repeated, recent_bot_failures}
use loony_dev.Tasks.Kinds.{IssueTask, implement_issue, address_review}
use loony_dev.Tasks.Due.{
  issue_action, planning_action, conflict_action, ci_failure_action, pr_review_action,
}
use loony_dev.Tasks.Host.{Host}
use loony_dev.Tasks.Handlers.{on_start, on_failure, failure_body}
use loony_dev.Tasks.Labels.{labelled, on_start-issue_action, on_start-pull_request, HasLabelsAfter}
use loony_dev.Tasks.Failure.{is_rate_limit, on_failure-labels}
use loony_dev.Examples.Pipelines.{repo, stuck_issue, outside_pr}

abbrev pub host : Host
host = record {
  gh = λ h c. true;
  fetch = λ h n. some [];
  shown = λ e. codes "error";
  bot_name = codes "bot";
  repeated_failure_threshold = 2;
  owner = codes "ann";
  search_title = λ n. none;
  search_any = λ n. none;
  get_pr = λ n. none;
}

abbrev pub ready : IssueTask
ready = record {
  issue = record stuck_issue { labels = ready_for_development ∷ [] };
  plan = none;
  commit_exhausted = false;
  hook_output = none;
}

relabelled : (x y : Bool) → (x || false) ≡ (x || (not y && (y || false)))
relabelled x y = ground arith

started :
    HasLabelsAfter 1
      (ready_for_development ∷ [])
      (on_start host (implement_issue ready) []).1
      (in_progress ∷ [])
unfolding on_start labelled mem_text label_item unlabel_item assign_item try_call
started label = relabelled (text_eq in_progress label) (text_eq ready_for_development label)

start_example :
    (mem_text in_progress stuck_issue.labels ≡ true)
    × (issue_action repo stuck_issue ≡ ok none)
    × (planning_action repo stuck_issue ≡ ok none)
start_example = on_start-issue_action host (λ h c. refl) ready repo stuck_issue started

abbrev working_pr : PullRequest
working_pr = record outside_pr { labels = in_progress ∷ [] }

started_pr : HasLabelsAfter 5 [] (on_start host (address_review outside_pr) []).1 (in_progress ∷ [])
unfolding on_start labelled mem_text label_item unlabel_item assign_item try_call
started_pr label = ground arith

start_pr_example :
    (conflict_action repo working_pr ≡ none)
    × (ci_failure_action repo working_pr ≡ none)
    × (pr_review_action repo working_pr ≡ ok none)
start_pr_example =
    on_start-pull_request host (λ h c. refl) (address_review outside_pr) outside_pr working_pr repo
      refl started_pr

failure_example :
    let after = (on_failure host (implement_issue ready) called_process_error []).1 in
    let repeated =
      is_repeated
        (failure_body host (implement_issue ready) called_process_error)
        2
        (recent_bot_failures (codes "bot") 2 []) in
    (labelled 1 in_progress (mem_text in_progress ready.issue.labels) after ≡ false)
    × (labelled 1 in_error (mem_text in_error ready.issue.labels) after
        ≡ (repeated || mem_text in_error ready.issue.labels))
    × (labelled 1 ready_for_development (mem_text ready_for_development ready.issue.labels) after
        ≡ (not repeated || mem_text ready_for_development ready.issue.labels))
unfolding is_rate_limit
failure_example =
    on_failure-labels host (λ h c. refl) ready called_process_error [] refl (λ h. refl)
