-- ===== src/Tasks/Host.antt =====
-- What the callbacks of loony_dev/tasks share: the result of an agent, the host, the markers with a
-- last-seen time, and the reviewer of an implementation.
use loony_dev.Prelude.{
  ℕ, Bool, List, [], ◌∷◌, ◌++◌, Option, none, some, Text, codes, text_eq, text_lt, is_nonempty,
  if◌then◌else◌, leb, take, length, ◌||◌, not,
}
use loony_dev.Prelude.Sorting.{sort_by}
use loony_dev.Github.Client.{Service, Action, History, Exception, ok, pure}
use loony_dev.Github.Items.{Comment, Issue, PullRequest, request_review}
use loony_dev.Tasks.Markers.{encode_marker}
use loony_dev.Tasks.Kinds.{IssueTask}

pub record TaskResult : Type 0 where
  pub success : Bool
  pub output : Text
  pub summary : Text
  pub post_summary : Bool
  pub rate_limited : Bool

-- What the handlers read and call: the service, the fetch of an issue's comments, `str(error)`,
-- the settings of `Repo`, the two searches of `find_pr` and `PullRequest.get`, which all may fail.
pub record Host : Type 0 where
  pub gh : Service
  pub fetch : History → ℕ → Option (List Comment)
  pub shown : Exception → Text
  pub bot_name : Text
  pub repeated_failure_threshold : ℕ
  pub owner : Text
  pub search_title : ℕ → Option (List (ℕ × Text))
  pub search_any : ℕ → Option (List (ℕ × Text))
  pub get_pr : ℕ → Option PullRequest

-- `max((c.created_at for c in comments), default="")`
unfoldable pub last_seen_of : List Comment → Text
last_seen_of [] = []
last_seen_of (c ∷ cs) =
    let later = last_seen_of cs in if text_lt c.created_at later then later else c.created_at

unfoldable pub marker_for : Text → Text → List Comment → Text
unfolding last_seen_of
marker_for prefix plain comments =
    if is_nonempty (last_seen_of comments)
    then encode_marker prefix (last_seen_of comments)
    else plain

unfoldable pub sanitize_hook_output : Text → Text
sanitize_hook_output output =
    if leb (length output) 500 then output else take 500 output ++ codes "\n[truncated]"

unfoldable pub hook_details : Option Text → Text
unfolding sanitize_hook_output
hook_details none = []
hook_details (some []) = []
hook_details (some (c ∷ s)) =
    codes "\n\n<details><summary>Hook output</summary>\n\n```\n"
    ++ (sanitize_hook_output (c ∷ s) ++ codes "\n```\n</details>")

unfoldable pub status_notes : IssueTask → Text
unfolding hook_details
status_notes t =
    if t.commit_exhausted
    then codes
        "\n\n⚠\u{fe0f} Pre-commit/pre-push hooks failed after exhausting all retries. Committed as [WIP]."
      ++ hook_details t.hook_output
    else []

-- The newest of the pull requests that a search names.
unfoldable pub newest : List (ℕ × Text) → Option ℕ
newest prs = elim (sort_by (λ a b. text_lt b.1 a.1) prs) [ [] ↦ none | p ∷ rest ↦ some p.0 ]

unfoldable pub searched : Host → Option (List (ℕ × Text)) → Option PullRequest
unfolding newest
searched host none = none
searched host (some prs) = elim (newest prs) [ none ↦ none | some n ↦ host.get_pr n ]

abbrev pub or_else_pr : Option PullRequest → Option PullRequest → Option PullRequest
or_else_pr (some pr) other = some pr
or_else_pr none other = other

unfoldable pub find_pr : Host → ℕ → Option PullRequest
unfolding searched
find_pr host n =
    or_else_pr (searched host (host.search_title n)) (searched host (host.search_any n))

-- `try: ... except Exception: log`
abbrev pub swallow : Action (Unit {0}) → Action (Unit {0})
swallow m h = (ok tt, (m h).1)

-- The reviewer is the author of the issue, unless there is none, or it is the bot.
unfoldable pub assign_reviewer : Host → Issue → Action (Unit {0})
unfolding find_pr
assign_reviewer host i =
    if not (is_nonempty i.author) || text_eq i.author host.bot_name
    then pure tt
    else elim (find_pr host i.number) [
      | none ↦ pure tt
      | some pr ↦ swallow (request_review host.gh pr.number i.author)
    ]
