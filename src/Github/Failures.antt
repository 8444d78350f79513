-- ===== src/Github/Failures.antt =====
-- `_normalize_failure_body` and `check_and_post_failure` of loony_dev/github/issue.py.
use loony_dev.Prelude.{
  ℕ, ◌+◌, Bool, true, false, ◌&&◌, ◌||◌, List, [], ◌∷◌, ◌++◌, Option, if◌then◌else◌, leb, ◌==◌,
  Text, codes, text_eq, strip, splitlines, starts_with, ends_with, join, keep, last_n, all_of,
  length, print_ℕ,
}
use loony_dev.Github.Client.{Service, Action, ok, ◌>>=◌, ◌>>◌, pure, History}
use loony_dev.Github.Items.{
  Comment, Item, issue, pull_request, item_number, item_author, in_error, fetched, post_comment,
  label_item,
}

abbrev pub failure_marker_prefix : Text
failure_marker_prefix = codes "<!-- loony-failure"

abbrev pub ci_failure_marker : Text
ci_failure_marker = codes "<!-- loony-ci-failure -->"

abbrev pub in_error_marker : Text
in_error_marker = codes "<!-- loony-in-error -->"

is_marker_line : Text → Bool
is_marker_line line =
    starts_with (codes "<!--") (strip line) && ends_with (codes "-->") (strip line)

drop_markers : List Text → List Text
unfolding is_marker_line
drop_markers [] = []
drop_markers (line ∷ lines) = elim (is_marker_line line) [
  | true ↦ drop_markers lines
  | false ↦ line ∷ lines
]

unfoldable pub normalize_failure_body : Text → Text
unfolding drop_markers
normalize_failure_body body =
    strip (join (codes "\n") (drop_markers (splitlines false [] (strip body))))

is_bot_failure : Text → Comment → Bool
is_bot_failure bot c =
    text_eq c.author bot
    && (starts_with failure_marker_prefix c.body || starts_with ci_failure_marker c.body)

-- Python's `xs[-n:]`, which is the whole list for n = 0.
abbrev pub python_last : ℕ → List Comment → List Comment
python_last n xs = if n == 0 then xs else last_n n xs

unfoldable pub recent_bot_failures : Text → ℕ → List Comment → List Comment
unfolding is_bot_failure
recent_bot_failures bot n comments = python_last n (keep (is_bot_failure bot) comments)

-- `getattr(self, "author", "") or fallback_owner`
abbrev pub or_owner : Text → Text → Text
or_owner [] owner = owner
or_owner (c ∷ s) owner = c ∷ s

unfoldable pub in_error_notice : ℕ → Text → Text → Text
in_error_notice n owner body =
    in_error_marker
    ++ (codes "\n\nI've encountered the same failure "
        ++ (print_ℕ (n + 1)
            ++ (codes " time(s) in a row and will stop retrying. @"
                ++ (owner
                    ++ (codes ", please review.\n\n<details><summary>Repeated failure</summary>\n\n"
                        ++ (body ++ codes "\n\n</details>"))))))

-- The comments of an item: a fetch for an issue, those at hand for a pull request.
unfoldable pub get_comments : (History → ℕ → Option (List Comment)) → Item → Action (List Comment)
get_comments fetch (issue i) h = (fetched (fetch h i.number), h)
get_comments fetch (pull_request p) h = (ok p.comments, h)

-- All of the last n failures, and n of them, are this failure.
unfoldable pub is_repeated : Text → ℕ → List Comment → Bool
is_repeated body n recent =
    leb n (length recent)
    && all_of (λ c. text_eq (normalize_failure_body c.body) (normalize_failure_body body)) recent

module _ (gh : Service) (fetch : History → ℕ → Option (List Comment)) where
  -- The answer after posting a body.
  unfoldable pub post_and_answer : ℕ → Text → Bool → Action Bool
  post_and_answer n body answer = do post_comment gh n body; pure answer

  unfoldable pub escalate : Item → Text → ℕ → Text → Action Bool
  unfolding post_and_answer
  escalate item body n fallback = do
    labelled ← label_item gh (item_number item) in_error
    let notice = in_error_notice n (or_owner (item_author item) fallback) body
    post_and_answer (item_number item) (if labelled then notice else body) labelled

  unfoldable pub check_and_post_failure : Item → Text → Text → ℕ → Text → Action Bool
  unfolding escalate
  check_and_post_failure item body bot n fallback = do
    comments ← get_comments fetch item
    let repeated = is_repeated body n (recent_bot_failures bot n comments)
    elim repeated [
      | true ↦ escalate item body n fallback
      | false ↦ post_and_answer (item_number item) body false
    ]
