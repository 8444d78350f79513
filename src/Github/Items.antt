-- ===== src/Github/Items.antt =====
-- Comments, issues and pull requests, with the shared writes of `GitHubItem`.
use loony_dev.Prelude.{ℕ, ℤ, Bool, not, List, Option, none, some, Text, codes, text_eq, any_of}
use loony_dev.Github.Client.{
  Service, Action, try_call, call, comment, edit_comment, add_label, remove_label, add_assignee,
  add_reviewer, ◌>>=◌, pure, Result, ok, raise, comment_fetch_error,
}

pub record Comment : Type 0 where
  pub author : Text
  pub body : Text
  pub created_at : Text
  pub id : Option ℕ
  pub path : Option Text
  pub line : Option ℕ
  pub kind : Text
  pub html_url : Option Text
  pub thread_id : Option Text
  pub in_reply_to_id : Option ℕ

pub record Issue : Type 0 where
  pub number : ℕ
  pub title : Text
  pub body : Text
  pub author : Text
  pub updated_at : Option ℤ
  pub labels : List Text
  pub assignees : List Text

pub record CheckRun : Type 0 where
  pub name : Text
  pub status : Text
  pub conclusion : Text
  pub details_url : Option Text

-- Of an assignee only the login is read.
pub record PullRequest : Type 0 where
  pub number : ℕ
  pub branch : Text
  pub title : Text
  pub body : Text
  pub author : Text
  pub head_sha : Text
  pub mergeable : Option Text
  pub updated_at : Option ℤ
  pub labels : List Text
  pub comments : List Comment
  pub reviews : List Comment
  pub assignees : List Text
  pub new_comments : List Comment

abbrev pub ready_for_planning : Text
ready_for_planning = codes "ready-for-planning"

abbrev pub ready_for_development : Text
ready_for_development = codes "ready-for-development"

abbrev pub in_progress : Text
in_progress = codes "in-progress"

abbrev pub in_error : Text
in_error = codes "in-error"

unfoldable pub has_other_assignee : Issue → Text → Bool
has_other_assignee issue user = any_of (λ login. not (text_eq login user)) issue.assignees

unfoldable pub issue_assigned_to : Issue → Text → Bool
issue_assigned_to issue user = any_of (λ login. text_eq login user) issue.assignees

unfoldable pub is_assigned_to : PullRequest → Text → Bool
is_assigned_to pr user = any_of (λ login. text_eq login user) pr.assignees

-- What `GitHubItem` knows of itself: `author` is `getattr(self, "author", "")`, and the comments
-- are fetched for an issue and at hand for a pull request.
pub data Item : Type 0 where
  issue : Issue → Item
  pull_request : PullRequest → Item

abbrev pub item_number : Item → ℕ
item_number (issue i) = i.number
item_number (pull_request p) = p.number

abbrev pub item_author : Item → Text
item_author (issue i) = i.author
item_author (pull_request p) = p.author

module _ (gh : Service) where
  unfoldable pub post_comment : ℕ → Text → Action (Unit {0})
  unfolding call
  post_comment n body = call gh (comment n body)

  unfoldable pub patch_comment : ℕ → Text → Action (Unit {0})
  unfolding call
  patch_comment id body = call gh (edit_comment id body)

  -- `True` on success
  unfoldable pub label_item : ℕ → Text → Action Bool
  unfolding try_call
  label_item n label = try_call gh (add_label n label)

  unfoldable pub unlabel_item : ℕ → Text → Action Bool
  unfolding try_call
  unlabel_item n label = try_call gh (remove_label n label)

  -- A failure is only logged.
  unfoldable pub assign_item : ℕ → Action (Unit {0})
  unfolding try_call
  assign_item n = do _ ← try_call gh (add_assignee n (codes "@me")); pure tt

  unfoldable pub request_review : ℕ → Text → Action (Unit {0})
  unfolding call
  request_review n reviewer = call gh (add_reviewer n reviewer)

-- A fetch that fails is `CommentFetchError`.
unfoldable pub fetched : Option (List Comment) → Result (List Comment)
fetched none = raise comment_fetch_error
fetched (some comments) = ok comments
