-- ===== src/Pipeline/Priorities.antt =====
-- The priorities along the ladder of `Pipeline.next_task`, pipeline.py.
use loony_dev.Prelude.{ℕ, ◌≤◌, List, [], ◌∷◌, Option, some, ◌≡◌, sym, ap, ◌∙◌, arith}
use mathlib.Core.Option.{some-injective, none-ne-some}
use mathlib.Core.List.{Memᴰ}
use loony_dev.Github.Client.{Result, ok}
use loony_dev.Tasks.Kinds.{Task, priority}
use loony_dev.Tasks.Due.{Repo}
use loony_dev.Pipeline.Ladder.{Pipeline, next_task}
use loony_dev.Pipeline.Gates.{
  answer_of, stuck_issue_action_lem, stuck_pr_action_lem, conflict_action_lem,
  ci_failure_action_lem, pr_review_action_lem, review_of_lem,
}
use loony_dev.Pipeline.IssueGates.{planning_action_lem, issue_action_lem}
use loony_dev.Pipeline.Keys.{First, here, there, rungs, next_task-First}
use loony_dev.Pipeline.Worktrees.{rung_lem, Tasked}

-- The tasks of each result have one priority, from n on, and the later ones no less.
abbrev Ranked : ℕ → List (Result (Option Task)) → Type 0
Ranked n [] = Unit {0}
Ranked n (r ∷ rs) = (m : ℕ) × (n ≤ m) × Tasked (λ t. priority t ≡ m) r × Ranked m rs

Ranked-le :
    (n : ℕ) (rs : List (Result (Option Task))) (u : Task)
    → Ranked n rs
    → Memᴰ (ok (some u)) rs
    → n ≤ priority u
Ranked-le n [] u ranked there_is = elim there_is [ ]
Ranked-le n (r ∷ rs) u (m, le, same, ranked) (Memᴰ.head e) = let at = same u (sym e) in omega arith
Ranked-le n (r ∷ rs) u (m, le, same, ranked) (Memᴰ.tail later) =
    let at = Ranked-le m rs u ranked later in omega arith

First-le :
    (n : ℕ) (t u : Task) (rs : List (Result (Option Task)))
    → First t rs
    → Ranked n rs
    → Memᴰ (ok (some u)) rs
    → priority t ≤ priority u
First-le n t u [] first ranked there_is = elim there_is [ ]
First-le n t u (r ∷ rs) (here _ _ e) (m, le, same, ranked) (Memᴰ.head e') =
    let at = same t e in let at_u = same u (sym e') in omega arith
First-le n t u (r ∷ rs) (here _ _ e) (m, le, same, ranked) (Memᴰ.tail later) =
    let at = same t e in let later_u = Ranked-le m rs u ranked later in omega arith
First-le n t u (r ∷ rs) (there _ _ e f) (m, le, same, ranked) (Memᴰ.head e') =
    absurd (none-ne-some u (ap answer_of (sym e ∙ sym e')))
First-le n t u (r ∷ rs) (there _ _ e f) (m, le, same, ranked) (Memᴰ.tail later) =
    First-le m t u rs f ranked later

rungs-Ranked : (repo : Repo) (p : Pipeline) → Ranked 5 (rungs repo p)
unfolding rungs priority
rungs-Ranked repo p = (
  5,
  omega arith,
  rung_lem (λ t. priority t ≡ 5) p.issue _
      (λ i t e found.
        ap priority
          (sym (some-injective _ t (stuck_issue_action_lem repo i t (ap answer_of found)).0))),
  (
    5,
    omega arith,
    rung_lem (λ t. priority t ≡ 5) p.pr _
        (λ pr t e found.
          ap priority
            (sym (some-injective _ t (stuck_pr_action_lem repo pr t (ap answer_of found)).0))),
    (
      10,
      omega arith,
      rung_lem (λ t. priority t ≡ 10) p.pr _
          (λ pr t e found.
            ap priority
              (sym (some-injective _ t (conflict_action_lem repo pr t (ap answer_of found)).0))),
      (
        15,
        omega arith,
        rung_lem (λ t. priority t ≡ 15) p.pr _
            (λ pr t e found.
              ap priority (
                sym (some-injective _ t (ci_failure_action_lem repo pr t (ap answer_of found)).0))),
        (
          20,
          omega arith,
          rung_lem (λ t. priority t ≡ 20) p.pr _
              (λ pr t e found.
                let (assigned, working, failed, (inline, read, made)) =
                  pr_review_action_lem repo pr t found in
                ap priority (review_of_lem pr _ t made).1),
          (
            30,
            omega arith,
            rung_lem (λ t. priority t ≡ 30) p.issue _
                (λ i t e found.
                  let (a, b, c, d, (work, is, same)) = planning_action_lem repo i t found in
                  ap priority is),
            (
              40,
              omega arith,
              rung_lem (λ t. priority t ≡ 40) p.issue _
                  (λ i t e found.
                    let (a, b, c, (work, is, same, fresh)) = issue_action_lem repo i t found in
                    ap priority is),
              tt,
            ),
          ),
        ),
      ),
    ),
  ),
)

-- No task that a rung of the pipeline would yield is more urgent than the task it yields.
pub next_task-priority :
    (repo : Repo) (p : Pipeline) (t u : Task)
    → next_task repo p ≡ ok (some t)
    → Memᴰ (ok (some u)) (rungs repo p)
    → priority t ≤ priority u
next_task-priority repo p t u e there_is =
    First-le 5 t u (rungs repo p) (next_task-First repo p t e) (rungs-Ranked repo p) there_is
