-- ===== src/Tasks/Labels.antt =====
-- The labels that `on_start` of loony_dev/tasks leaves behind.
use loony_dev.Tasks.Due.{
  Repo, issue_action, planning_action, conflict_action, ci_failure_action, pr_review_action,
}
use std.Path.{subst}
use mathlib.Core.Option.{some-injective, none-ne-some}
use loony_dev.Prelude.{
  none, some, ◌∙◌, ℕ, ◌==◌, ==_iff, Bool, true, false, not, ◌&&◌, ◌||◌, List, [], ◌∷◌, Text,
  text_eq, mem_text, ◌≡◌, refl, inl, inr, Bool-cases,
}
use loony_dev.Github.Client.{ok, Service, Call, add_label, remove_label, History, try_call}
use loony_dev.Github.Items.{
  Issue, is_assigned_to, PullRequest, ready_for_planning, ready_for_development, in_progress,
  label_item, unlabel_item, assign_item,
}
use loony_dev.Tasks.Kinds.{
  plan_issue, cleanup_stuck, address_review, fix_ci, resolve_conflicts, Task, pr_of, IssueTask,
  implement_issue,
}
use loony_dev.Tasks.Host.{Host}
use loony_dev.Tasks.Handlers.{on_start}

-- Whether an item has a label after the calls of a history, from whether it had it before.
unfoldable pub labelled : ℕ → Text → Bool → History → Bool
labelled n label had [] = had
labelled n label had ((add_label m l, true) ∷ h) =
    labelled n label ((m == n) && text_eq l label || had) h
labelled n label had ((remove_label m l, true) ∷ h) =
    labelled n label (not ((m == n) && text_eq l label) && had) h
labelled n label had (_ ∷ h) = labelled n label had h

-- A service that accepts every call.
abbrev pub Accepts : Service → Type 0
Accepts gh = (h : History) (c : Call) → gh h c ≡ true

pub ==_refl : (n : ℕ) → (n == n) ≡ true
==_refl n = (==_iff n n).1 refl

-- `after` is the list of labels of item `n` once the calls of a history were made.
abbrev pub HasLabelsAfter : ℕ → List Text → History → List Text → Type 0
HasLabelsAfter n before h after =
    (label : Text) → mem_text label after ≡ labelled n label (mem_text label before) h

module _ (host : Host) (accepts : Accepts host.gh) where
  on_start-labels :
      (t : IssueTask)
      → (labelled t.issue.number in_progress
            (mem_text in_progress t.issue.labels)
            (on_start host (implement_issue t) []).1
          ≡ true)
        × (labelled t.issue.number ready_for_development
              (mem_text ready_for_development t.issue.labels)
              (on_start host (implement_issue t) []).1
            ≡ false)
        × (labelled t.issue.number ready_for_planning
              (mem_text ready_for_planning t.issue.labels)
              (on_start host (implement_issue t) []).1
            ≡ false)
  unfolding on_start labelled label_item unlabel_item assign_item try_call text_eq
  on_start-labels t = elim (Bool-cases (mem_text ready_for_planning t.issue.labels)) [
    | inl e ↦ (simp (e, accepts, ==_refl), simp (e, accepts, ==_refl), simp (e, accepts, ==_refl))
    | inr e ↦ (simp (e, accepts, ==_refl), simp (e, accepts, ==_refl), simp (e, accepts, ==_refl))
  ]

  -- With a service that accepts the calls, an issue whose implementation was started is labelled
  -- in-progress, and neither its planning nor its implementation is due, whatever else changed.
  pub on_start-issue_action :
      (t : IssueTask) (repo : Repo) (i : Issue)
      → HasLabelsAfter t.issue.number t.issue.labels
          (on_start host (implement_issue t) []).1
          i.labels
      → (mem_text in_progress i.labels ≡ true)
        × (issue_action repo i ≡ ok none)
        × (planning_action repo i ≡ ok none)
  unfolding issue_action planning_action
  on_start-issue_action t repo i after =
      let (working, ready, planning) = on_start-labels t in
      (
        after in_progress ∙ working,
        rw (after ready_for_development ∙ ready) refl,
        rw (after ready_for_planning ∙ planning) refl,
      )

  started_pr :
      (t : Task) {p : PullRequest} (pr : PullRequest)
      → p ≡ pr
      → labelled p.number in_progress (mem_text in_progress p.labels) (on_start host t []).1 ≡ true
      → labelled pr.number in_progress (mem_text in_progress pr.labels) (on_start host t []).1
        ≡ true
  started_pr t pr e h =
      subst
        (λ q.
          labelled q.number in_progress (mem_text in_progress q.labels) (on_start host t []).1
          ≡ true)
        e h

  on_start-labels_pr :
      (t : Task) (pr : PullRequest)
      → pr_of t ≡ some pr
      → labelled pr.number in_progress (mem_text in_progress pr.labels) (on_start host t []).1
        ≡ true
  unfolding on_start labelled label_item assign_item try_call text_eq
  on_start-labels_pr (resolve_conflicts p branch) pr e =
      started_pr (resolve_conflicts p branch) pr (some-injective p pr e) (simp (accepts, ==_refl))
  on_start-labels_pr (fix_ci p checks) pr e =
      started_pr (fix_ci p checks) pr (some-injective p pr e) (simp (accepts, ==_refl))
  on_start-labels_pr (address_review p) pr e =
      started_pr (address_review p) pr (some-injective p pr e) (simp (accepts, ==_refl))
  on_start-labels_pr (cleanup_stuck item hours) pr e = absurd (none-ne-some pr e)
  on_start-labels_pr (plan_issue p) pr e = absurd (none-ne-some pr e)
  on_start-labels_pr (implement_issue p) pr e = absurd (none-ne-some pr e)

  -- Once a task on a pull request was started with a service that accepts the calls, no rung of
  -- the ladder but the cleanup of stuck items applies to the pull request.
  pub on_start-pull_request :
      (t : Task) (pr now : PullRequest) (repo : Repo)
      → pr_of t ≡ some pr
      → HasLabelsAfter pr.number pr.labels (on_start host t []).1 now.labels
      → (conflict_action repo now ≡ none)
        × (ci_failure_action repo now ≡ none)
        × (pr_review_action repo now ≡ ok none)
  unfolding conflict_action ci_failure_action pr_review_action
  on_start-pull_request t pr now repo kind after =
      let working = after in_progress ∙ on_start-labels_pr t pr kind in
      elim (Bool-cases (is_assigned_to now repo.bot_name)) [
        | inl e ↦ rw (e, working) (refl, refl, refl)
        | inr e ↦ rw e (refl, refl, refl)
      ]
