-- ===== src/Examples/Pipelines.antt =====
-- The theorems on pipelines, at concrete issues and pull requests.
use mathlib.Core.List.{Memᴰ}
use loony_dev.Prelude.{
  strip, ◌++◌, starts_with, is_space, lstrip, int_of, All, ◌≤◌, pos, true, false, List, [], ◌∷◌,
  none, some, Text, codes, text_eq, mem_text, ◌≡◌, refl,
}
use loony_dev.Prelude.Sorting.{sort_by, insert_by}
use loony_dev.Github.Client.{ok}
use loony_dev.Github.Items.{
  Issue, PullRequest, Comment, in_progress, is_assigned_to, fetched, issue,
}
use loony_dev.Tasks.Kinds.{
  Task, IssueTask, PlanningTask, cleanup_stuck, address_review, worktree_key, priority, issue_key,
  pr_key, issue_or_pr_keys, branch_name,
}
use loony_dev.Tasks.IssueNumber.{
  keyword, referred, reference, after_word, bounded, at_boundary, is_word, lower_ascii, span_digits,
  number_of, branch_issue, body_issue, title_issue,
}
use loony_dev.Tasks.Due.{
  Repo, stuck_issue_action, pr_review_action, assemble_comments, new_since_bot, since_marker,
  last_marked, review_of,
}
use loony_dev.Tasks.Markers.{
  encode_marker, decode_last_seen, success_marker_prefix, plan_marker_prefix, is_token,
  decode_last_seen-encode_marker,
}
use loony_dev.Pipeline.Ladder.{Pipeline, next_task, or_next, rung, discover}
use loony_dev.Pipeline.Keys.{rungs}
use loony_dev.Pipeline.Worktrees.{Keyed, KeyOf, next_task-worktree_key}
use loony_dev.Pipeline.Priorities.{next_task-priority}
use loony_dev.Pipeline.LostKey.{pr_review_action-worktree_key}
use loony_dev.Pipeline.Discovery.{Distinct, discover-Distinct}
use loony_dev.Examples.Samples.{python_with, drive_lease}

abbrev pub stuck_issue : Issue
stuck_issue = record {
  number = 1;
  title = codes "Title";
  body = [];
  author = codes "ann";
  updated_at = some (pos 0);
  labels = in_progress ∷ [];
  assignees = [];
}

abbrev remark : Comment
remark = record {
  author = codes "ann";
  body = codes "Please";
  created_at = codes "2026";
  id = none;
  path = none;
  line = none;
  kind = codes "conversation";
  html_url = none;
  thread_id = none;
  in_reply_to_id = none;
}

abbrev pub outside_pr : PullRequest
outside_pr = record {
  number = 5;
  branch = codes "fix";
  title = codes "Fix";
  body = codes "closes #1";
  author = codes "ann";
  head_sha = [];
  mergeable = none;
  updated_at = none;
  labels = [];
  comments = remark ∷ [];
  reviews = [];
  assignees = codes "bot" ∷ [];
  new_comments = [];
}

abbrev pub repo : Repo
repo = record {
  bot_name = codes "bot";
  authorized = λ user. true;
  comments_of = λ n. some [];
  inline_of = λ n. some [];
  failing = λ sha. [];
  default_branch = codes "main";
  threshold_hours = 12;
  cutoff = pos 10;
  parse_datetime = λ text. none;
}

abbrev stuck_pipeline : Pipeline
stuck_pipeline = record { pipeline_key = issue_key 1; issue = some stuck_issue; pr = none }

abbrev cleanup : Task
cleanup = cleanup_stuck (issue stuck_issue) 12

stuck_next : next_task repo stuck_pipeline ≡ ok (some cleanup)
unfolding next_task or_next rung stuck_issue_action mem_text text_eq
stuck_next = refl

stuck-Keyed : Keyed stuck_pipeline
stuck-Keyed = (refl, tt)

key_example : KeyOf (issue_key 1) none cleanup
key_example = next_task-worktree_key repo stuck_pipeline cleanup stuck-Keyed stuck_next

first_rung : Memᴰ (ok (some cleanup)) (rungs repo stuck_pipeline)
unfolding rungs rung stuck_issue_action mem_text text_eq
first_rung = Memᴰ.head refl

priority_example : priority cleanup ≤ priority cleanup
priority_example = next_task-priority repo stuck_pipeline cleanup cleanup stuck_next first_rung

abbrev answer : Task
answer = address_review (record outside_pr {
  body = [];
  author = [];
  head_sha = [];
  mergeable = none;
  updated_at = none;
  assignees = [];
  new_comments = remark ∷ [];
})

answer_due : pr_review_action repo outside_pr ≡ ok (some answer)
unfolding pr_review_action is_assigned_to mem_text text_eq fetched assemble_comments new_since_bot
    since_marker last_marked review_of sort_by insert_by
answer_due = refl

no_branch : branch_issue outside_pr.branch ≡ none
unfolding branch_issue starts_with
no_branch = refl

in_body : body_issue true outside_pr.body ≡ some 1
unfolding body_issue keyword referred reference after_word bounded at_boundary is_word lower_ascii
    is_space lstrip span_digits number_of int_of strip
in_body = refl

no_title : title_issue outside_pr.title ≡ none
unfolding title_issue starts_with
no_title = refl

lost_example :
    (worktree_key answer ≡ some (pr_key 5)) × ((issue_or_pr_keys outside_pr).1 ≡ issue_key 1)
lost_example =
    pr_review_action-worktree_key repo outside_pr answer 1 answer_due no_branch in_body no_title

abbrev issues : Text → List Issue
issues label = stuck_issue ∷ []

keys_example :
    Distinct (discover issues (outside_pr ∷ [])) × All Keyed (discover issues (outside_pr ∷ []))
keys_example = discover-Distinct issues (outside_pr ∷ [])

abbrev work : IssueTask
work = record { issue = stuck_issue; plan = none; commit_exhausted = false; hook_output = none }

abbrev planning : PlanningTask
planning = record {
  issue = stuck_issue;
  existing_plan = none;
  new_comments = [];
  existing_plan_comment_id = none;
}

abbrev own_pr : PullRequest
own_pr = record outside_pr { branch = branch_name (python_with drive_lease) stuck_issue }

marker_example :
    (decode_last_seen (encode_marker success_marker_prefix (codes "2026") ++ codes "\n")
      ≡ some (codes "2026"))
    × (decode_last_seen (encode_marker (codes "<!-- loony-failure") (codes "2026") ++ codes "\n")
        ≡ some (codes "2026"))
    × (decode_last_seen (encode_marker plan_marker_prefix (codes "2026") ++ codes "\n")
        ≡ some (codes "2026"))
unfolding is_token is_space
marker_example =
    decode_last_seen-encode_marker (codes "026") (codes "\n") b'2'
      (refl, (refl, (refl, (refl, tt))))
