-- ===== src/Tasks/Failure.antt =====
-- What `on_failure` and `check_and_post_failure` leave behind.
use loony_dev.Prelude.{
  arith, Bool, true, false, not, ◌||◌, List, [], ◌∷◌, ◌++◌, some, Text, text_eq, mem_text, ◌≡◌,
  refl, inl, inr, Bool-cases,
}
use loony_dev.Github.Client.{
  and_then, ◌>>=◌, pure, lease_fenced_error, value_error, called_process_error, comment, add_label,
  remove_label, History, Exception, rate_limited_error, called_process_error, comment_fetch_error,
  lease_fenced_error, value_error, runtime_error, ok, try_call, call,
}
use loony_dev.Github.Items.{
  fetched, Comment, Issue, Item, issue, ready_for_development, in_progress, in_error, label_item,
  unlabel_item, post_comment, fetched,
}
use loony_dev.Github.Failures.{
  in_error_notice, or_owner, escalate, post_and_answer, get_comments, check_and_post_failure,
  recent_bot_failures, is_repeated, get_comments,
}
use loony_dev.Tasks.Kinds.{
  Task, IssueTask, cleanup_stuck, resolve_conflicts, fix_ci, address_review, plan_issue,
  implement_issue,
}
use loony_dev.Tasks.Labels.{labelled, Accepts, ==_refl}
use loony_dev.Tasks.Host.{Host}
use loony_dev.Tasks.Handlers.{on_failure, failure_body, report_failure}

-- The bodies of the comments that a history posted.
unfoldable pub posted : History → List Text
posted [] = []
posted ((comment n body, true) ∷ h) = body ∷ posted h
posted (_ ∷ h) = posted h

unfoldable pub is_rate_limit : Exception → Bool
is_rate_limit (rate_limited_error summary) = true
is_rate_limit _ = false

-- A rate limit posts no comment, whatever the task and the service.
pub on_failure_rate_limited :
    (host : Host) (t : Task) (summary : Text)
    → posted (on_failure host t (rate_limited_error summary) []).1 ≡ []
unfolding on_failure posted report_failure label_item unlabel_item try_call
on_failure_rate_limited host (cleanup_stuck item hours) summary = refl
on_failure_rate_limited host (resolve_conflicts pr branch) summary = refl
on_failure_rate_limited host (fix_ci pr checks) summary = refl
on_failure_rate_limited host (address_review pr) summary = refl
on_failure_rate_limited host (plan_issue t) summary = refl
on_failure_rate_limited host (implement_issue t) summary = refl

report_failure_other :
    (host : Host) (item : Item) (body : Text) (error : Exception)
    → is_rate_limit error ≡ false
    → report_failure host item body error ≡ (do
      repeated ←
          check_and_post_failure host.gh host.fetch item body host.bot_name
            host.repeated_failure_threshold host.owner
      pure (some repeated))
unfolding report_failure is_rate_limit
report_failure_other host item body (rate_limited_error summary) other = ground arith
report_failure_other host item body called_process_error other = refl
report_failure_other host item body comment_fetch_error other = refl
report_failure_other host item body lease_fenced_error other = refl
report_failure_other host item body value_error other = refl
report_failure_other host item body (runtime_error message) other = refl

module _ (host : Host) (accepts : Accepts host.gh) where
  -- With a service that accepts the calls, an implementation that met a rate limit leaves its
  -- issue ready for development and no longer in progress, and does not put it in error.
  pub on_failure_rate_limited-labels :
      (t : IssueTask) (summary : Text)
      → let after = (on_failure host (implement_issue t) (rate_limited_error summary) []).1 in
        (labelled t.issue.number in_progress (mem_text in_progress t.issue.labels) after ≡ false)
        × (labelled t.issue.number ready_for_development
              (mem_text ready_for_development t.issue.labels)
              after
            ≡ true)
        × (labelled t.issue.number in_error (mem_text in_error t.issue.labels) after
            ≡ mem_text in_error t.issue.labels)
  unfolding on_failure labelled report_failure label_item unlabel_item try_call text_eq
  on_failure_rate_limited-labels t summary =
      (simp (accepts, ==_refl), simp (accepts, ==_refl), simp (accepts, ==_refl))

  -- The calls of a failure that is new, and of one that is repeated.
  check_and_post_failure-first :
      (i : Issue) (body : Text) (comments : List Comment) (h : History)
      → host.fetch h i.number ≡ some comments
      → is_repeated body host.repeated_failure_threshold
          (recent_bot_failures host.bot_name host.repeated_failure_threshold comments)
        ≡ false
      → check_and_post_failure host.gh host.fetch
          (issue i)
          body
          host.bot_name
          host.repeated_failure_threshold
          host.owner
          h
        ≡ (ok false, h ++ (comment i.number body, true) ∷ [])
  unfolding check_and_post_failure post_comment call try_call post_and_answer get_comments fetched
  check_and_post_failure-first i body comments h read e =
      rw (get_comments, read, fetched, and_then, e, accepts h (comment i.number body)) refl

  check_and_post_failure-repeated :
      (i : Issue) (body : Text) (comments : List Comment) (h : History)
      → host.fetch h i.number ≡ some comments
      → is_repeated body host.repeated_failure_threshold
          (recent_bot_failures host.bot_name host.repeated_failure_threshold comments)
        ≡ true
      → check_and_post_failure host.gh host.fetch
          (issue i)
          body
          host.bot_name
          host.repeated_failure_threshold
          host.owner
          h
        ≡ (
          ok true,
          (h ++ (add_label i.number in_error, true) ∷ [])
              ++ (
                comment i.number (
                    in_error_notice host.repeated_failure_threshold
                      (or_owner i.author host.owner)
                      body),
                true,
              )
                ∷ [],
        )
  unfolding check_and_post_failure post_comment call try_call escalate post_and_answer get_comments
      fetched label_item
  check_and_post_failure-repeated i body comments h read e =
      let notice =
        in_error_notice host.repeated_failure_threshold (or_owner i.author host.owner) body in
      rw
        (
          get_comments,
          read,
          fetched,
          and_then,
          e,
          accepts h (add_label i.number in_error),
          accepts (h ++ (add_label i.number in_error, true) ∷ []) (comment i.number notice),
        )
        refl

  -- With a service that accepts the calls, any other error of an implementation takes the issue
  -- out of progress, and either puts it in error, when the last failures were all this one, or
  -- makes it ready for development again.
  pub on_failure-labels :
      (t : IssueTask) (error : Exception) (comments : List Comment)
      → is_rate_limit error ≡ false
      → ((h : History) → host.fetch h t.issue.number ≡ some comments)
      → let after = (on_failure host (implement_issue t) error []).1 in
        let repeated =
          is_repeated
            (failure_body host (implement_issue t) error)
            host.repeated_failure_threshold
            (recent_bot_failures host.bot_name host.repeated_failure_threshold comments) in
        (labelled t.issue.number in_progress (mem_text in_progress t.issue.labels) after ≡ false)
        × (labelled t.issue.number in_error (mem_text in_error t.issue.labels) after
            ≡ (repeated || mem_text in_error t.issue.labels))
        × (labelled t.issue.number ready_for_development
              (mem_text ready_for_development t.issue.labels)
              after
            ≡ (not repeated || mem_text ready_for_development t.issue.labels))
  unfolding on_failure labelled label_item unlabel_item try_call text_eq failure_body
  on_failure-labels t error comments other read =
      let body = failure_body host (implement_issue t) error in
      let n = host.repeated_failure_threshold in
      let h : History = (remove_label t.issue.number in_progress, true) ∷ [] in
      let reported = report_failure_other host (issue t.issue) body error other in
      elim (Bool-cases (is_repeated body n (recent_bot_failures host.bot_name n comments))) [
        | inl e ↦
            let posts = check_and_post_failure-repeated t.issue body comments h (read h) e in
            rw (e, accepts [] (remove_label t.issue.number in_progress), reported, posts)
              (simp ==_refl, simp ==_refl, simp ==_refl)
        | inr e ↦
            let posts = check_and_post_failure-first t.issue body comments h (read h) e in
            rw (e, accepts [] (remove_label t.issue.number in_progress), reported, posts)
              (simp (accepts, ==_refl), simp (accepts, ==_refl), simp (accepts, ==_refl))
      ]
