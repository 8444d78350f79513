-- ===== src/Pipeline/Worktrees.antt =====
-- The worktree of a pipeline's task against the key of the pipeline.
use loony_dev.Prelude.{
  ℕ, true, List, [], ◌∷◌, Option, none, some, Text, ◌≡◌, ◌≢◌, refl, ◌⊎◌, inl, inr, All, sym, ap,
  ◌∙◌, Option-cases,
}
use std.Path.{subst}
use mathlib.Core.Option.{some-injective, none-ne-some}
use loony_dev.Github.Client.{Result, ok}
use loony_dev.Github.Items.{Comment, Item, Issue, PullRequest}
use loony_dev.Tasks.Kinds.{
  Task, issue_key, issue_or_pr_keys, worktree_key, cleanup_stuck, address_review,
}
use loony_dev.Tasks.IssueNumber.{issue_number, branch_issue, body_issue, title_issue}
use loony_dev.Tasks.Due.{
  Repo, conflict_action, ci_failure_action, pr_review_action, planning_action, issue_action,
  review_of,
}
use loony_dev.Pipeline.Ladder.{Pipeline, next_task, rung}
use loony_dev.Pipeline.Gates.{
  answer_of, stuck_issue_action_lem, stuck_pr_action_lem, conflict_action_lem,
  ci_failure_action_lem, pr_review_action_lem, review_of_lem,
}
use loony_dev.Pipeline.IssueGates.{planning_action_lem, issue_action_lem}
use loony_dev.Pipeline.Keys.{First, here, there, rungs, next_task-First}

abbrev IssueKeyed : Text → Option Issue → Type 0
IssueKeyed k none = Unit {0}
IssueKeyed k (some i) = k ≡ issue_key i.number

abbrev pub PrKeyed : Text → Option PullRequest → Type 0
PrKeyed k none = Unit {0}
PrKeyed k (some pr) = k ≡ (issue_or_pr_keys pr).1

-- The key of a pipeline is the key of its issue, and of its pull request.
abbrev pub Keyed : Pipeline → Type 0
Keyed p = IssueKeyed p.pipeline_key p.issue × PrKeyed p.pipeline_key p.pr

-- The issue of a pull request is found in its body, and not in its branch.
abbrev pub NamedInBody : PullRequest → Type 0
NamedInBody pr = (branch_issue pr.branch ≡ none) × (body_issue true pr.body ≢ none)

abbrev pub KeyOf : Text → Option PullRequest → Task → Type 0
KeyOf k facet t =
    (worktree_key t ≡ none)
    ⊎ ((worktree_key t ≡ some k)
        ⊎ ((pr : PullRequest) × (facet ≡ some pr)
            × (pr_review : PullRequest) × (t ≡ address_review pr_review)
            × NamedInBody pr))

-- What holds of the task of every rung.
abbrev pub Tasked {κ} : (Task → Type κ) → Result (Option Task) → Type κ
Tasked P r = (t : Task) → r ≡ ok (some t) → P t

First-All {κ} :
    (P : Task → Type κ) (t : Task) (rs : List (Result (Option Task)))
    → First t rs
    → All (Tasked P) rs
    → P t
First-All P t [] f h = elim f [ ]
First-All P t (r ∷ rs) (here _ _ e) h = h.0 t e
First-All P t (r ∷ rs) (there _ _ e f) h = First-All P t rs f h.1

-- A rung for a missing facet yields nothing.
pub rung_lem {ℓ κ} :
    {A : Type ℓ} (P : Task → Type κ) (facet : Option A) (action : A → Result (Option Task))
    → ((a : A) (t : Task) → facet ≡ some a → action a ≡ ok (some t) → P t)
    → Tasked P (rung facet action)
unfolding rung
rung_lem P none action h t e = absurd (none-ne-some t (ap answer_of e))
rung_lem P (some a) action h t e = h a t refl e

-- The keys of the copy of a pull request that a review task works on.
review-key :
    (pr new : PullRequest)
    → new.number ≡ pr.number
    → new.branch ≡ pr.branch
    → new.title ≡ pr.title
    → new.body ≡ []
    → ((issue_or_pr_keys new).1 ≡ (issue_or_pr_keys pr).1) ⊎ NamedInBody pr
unfolding issue_or_pr_keys issue_number body_issue title_issue
review-key pr new number branch title body = elim (Option-cases (branch_issue pr.branch)) [
  | inr (n, e) ↦ inl (rw (number, branch, e) refl)
  | inl e ↦ elim (Option-cases (body_issue true pr.body)) [
    | inl e' ↦ inl (rw (number, branch, title, body, e, e') refl)
    | inr (n, e') ↦ inr (e, λ empty. none-ne-some n (sym empty ∙ e'))
  ]
]

module _ (k : Text) (facet : Option PullRequest) where
  cleanup-KeyOf :
      (item : Item) (hours : ℕ) (t : Task)
      → some (cleanup_stuck item hours) ≡ some t
      → KeyOf k facet t
  unfolding worktree_key
  cleanup-KeyOf item hours t e = rw (sym (some-injective _ t e)) (inl refl)

  same-KeyOf : (t u : Task) → u ≡ t → worktree_key u ≡ some k → KeyOf k facet t
  same-KeyOf t u e key = rw (sym e) (inr (inl key))

  review-KeyOf :
      (pr : PullRequest) (comments : List Comment) (t : Task)
      → facet ≡ some pr
      → k ≡ (issue_or_pr_keys pr).1
      → review_of pr comments ≡ some t
      → KeyOf k facet t
  unfolding worktree_key
  review-KeyOf pr comments t e key found =
      let (new, is, number, branch, title, body, about, rest) = review_of_lem pr comments t found in
      elim (review-key pr new number branch title body) [
        | inl same ↦ rw is (inr (inl (ap some (same ∙ sym key))))
        | inr named ↦ inr (inr (pr, e, new, is, named))
      ]

module _ (repo : Repo) (p : Pipeline) (keyed : Keyed p) where
  pr-key : (pr : PullRequest) → p.pr ≡ some pr → p.pipeline_key ≡ (issue_or_pr_keys pr).1
  pr-key pr e = subst (PrKeyed p.pipeline_key) e keyed.1

  issue-key : (i : Issue) → p.issue ≡ some i → p.pipeline_key ≡ issue_key i.number
  issue-key i e = subst (IssueKeyed p.pipeline_key) e keyed.0

  pr-rungs : All (Tasked (KeyOf p.pipeline_key p.pr)) (
      rung p.pr (λ pr. ok (conflict_action repo pr))
      ∷ rung p.pr (λ pr. ok (ci_failure_action repo pr))
      ∷ rung p.pr (pr_review_action repo)
      ∷ [])
  unfolding worktree_key
  pr-rungs = (
    rung_lem (KeyOf p.pipeline_key p.pr) p.pr _ (λ pr t e found.
        same-KeyOf p.pipeline_key p.pr t _
          (some-injective _ t (conflict_action_lem repo pr t (ap answer_of found)).0)
          (ap some (sym (pr-key pr e)))),
    (
      rung_lem (KeyOf p.pipeline_key p.pr) p.pr _ (λ pr t e found.
          same-KeyOf p.pipeline_key p.pr t _
            (some-injective _ t (ci_failure_action_lem repo pr t (ap answer_of found)).0)
            (ap some (sym (pr-key pr e)))),
      (
        rung_lem (KeyOf p.pipeline_key p.pr) p.pr _ (λ pr t e found.
            let (assigned, working, failed, (inline, read, made)) =
              pr_review_action_lem repo pr t found in
            review-KeyOf p.pipeline_key p.pr pr _ t e (pr-key pr e) made),
        tt,
      ),
    ),
  )

  issue-rungs :
      All
        (Tasked (KeyOf p.pipeline_key p.pr))
        (rung p.issue (planning_action repo) ∷ rung p.issue (issue_action repo) ∷ [])
  unfolding worktree_key
  issue-rungs = (
    rung_lem (KeyOf p.pipeline_key p.pr) p.issue _ (λ i t e found.
        let (a, b, c, d, (work, is, same)) = planning_action_lem repo i t found in
        same-KeyOf p.pipeline_key p.pr t _ (sym is) (rw same (ap some (sym (issue-key i e))))),
    (
      rung_lem (KeyOf p.pipeline_key p.pr) p.issue _ (λ i t e found.
          let (a, b, c, (work, is, same, fresh)) = issue_action_lem repo i t found in
          same-KeyOf p.pipeline_key p.pr t _ (sym is) (rw same (ap some (sym (issue-key i e))))),
      tt,
    ),
  )

  rungs-KeyOf : All (Tasked (KeyOf p.pipeline_key p.pr)) (rungs repo p)
  unfolding rungs
  rungs-KeyOf = (
    rung_lem (KeyOf p.pipeline_key p.pr) p.issue _ (λ i t e found.
        cleanup-KeyOf p.pipeline_key p.pr _ _ t
          (stuck_issue_action_lem repo i t (ap answer_of found)).0),
    (
      rung_lem (KeyOf p.pipeline_key p.pr) p.pr _ (λ pr t e found.
          cleanup-KeyOf p.pipeline_key p.pr _ _ t
            (stuck_pr_action_lem repo pr t (ap answer_of found)).0),
      (pr-rungs.0, (pr-rungs.1.0, (pr-rungs.1.1.0, issue-rungs))),
    ),
  )

-- The task of a pipeline with its key has no worktree, or the worktree of that key, or it answers
-- a review of a pull request whose issue is found only in the body.
pub next_task-worktree_key :
    (repo : Repo) (p : Pipeline) (t : Task)
    → Keyed p
    → next_task repo p ≡ ok (some t)
    → KeyOf p.pipeline_key p.pr t
next_task-worktree_key repo p t keyed e =
    First-All (KeyOf p.pipeline_key p.pr) t (rungs repo p) (next_task-First repo p t e)
      (rungs-KeyOf repo p keyed)
