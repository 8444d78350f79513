-- ===== src/Pipeline/Keys.antt =====
-- The rung that a pipeline's task comes from, and what follows: its key and its priority.
use loony_dev.Prelude.{List, [], ◌∷◌, Option, none, some, ◌≡◌, refl, ◌⊎◌, inl, inr, ap}
use mathlib.Core.Option.{none-ne-some}
use loony_dev.Github.Client.{Result, ok, raise}
use loony_dev.Tasks.Kinds.{Task}
use loony_dev.Tasks.Due.{
  Repo, stuck_issue_action, stuck_pr_action, conflict_action, ci_failure_action, pr_review_action,
  planning_action, issue_action,
}
use loony_dev.Pipeline.Ladder.{Pipeline, next_task, or_next, rung}
use loony_dev.Pipeline.Gates.{answer_of}

-- The rungs, in the order of the ladder.
unfoldable pub rungs : Repo → Pipeline → List (Result (Option Task))
rungs repo p =
    rung p.issue (λ i. ok (stuck_issue_action repo i))
    ∷ rung p.pr (λ pr. ok (stuck_pr_action repo pr))
    ∷ rung p.pr (λ pr. ok (conflict_action repo pr))
    ∷ rung p.pr (λ pr. ok (ci_failure_action repo pr))
    ∷ rung p.pr (pr_review_action repo)
    ∷ rung p.issue (planning_action repo)
    ∷ rung p.issue (issue_action repo)
    ∷ []

-- The first rung of a list that yields a task yields this one, and none before it fails.
pub data First (t : Task) : List (Result (Option Task)) → Type 0 where
  here :
      (r : Result (Option Task)) (rest : List (Result (Option Task)))
      → r ≡ ok (some t)
      → First t (r ∷ rest)
  there :
      (r : Result (Option Task)) (rest : List (Result (Option Task)))
      → r ≡ ok none
      → First t rest
      → First t (r ∷ rest)

or_next-cases :
    (a b : Result (Option Task)) (t : Task)
    → or_next a b ≡ ok (some t)
    → (a ≡ ok (some t)) ⊎ ((a ≡ ok none) × (b ≡ ok (some t)))
unfolding or_next
or_next-cases (ok none) b t e = inr (refl, e)
or_next-cases (ok (some u)) b t e = inl e
or_next-cases (raise x) b t e = absurd (none-ne-some t (ap answer_of e))

-- The ladder over a list.
climb : List (Result (Option Task)) → Result (Option Task)
climb [] = ok none
climb (r ∷ []) = r
climb (r ∷ s ∷ rest) = or_next r (climb (s ∷ rest))

climb-First : (t : Task) (rs : List (Result (Option Task))) → climb rs ≡ ok (some t) → First t rs
unfolding climb
climb-First t [] e = absurd (none-ne-some t (ap answer_of e))
climb-First t (r ∷ []) e = here r [] e
climb-First t (r ∷ s ∷ rest) e = elim (or_next-cases r (climb (s ∷ rest)) t e) [
  | inl found ↦ here r (s ∷ rest) found
  | inr (passed, later) ↦ there r (s ∷ rest) passed (climb-First t (s ∷ rest) later)
]

-- The task of a pipeline is the one of the first rung that yields a task, and no rung before it
-- fails.
pub next_task-First :
    (repo : Repo) (p : Pipeline) (t : Task)
    → next_task repo p ≡ ok (some t)
    → First t (rungs repo p)
unfolding next_task climb rungs
next_task-First repo p t e = climb-First t (rungs repo p) e
