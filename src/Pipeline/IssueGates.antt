-- ===== src/Pipeline/IssueGates.antt =====
-- When the rungs for an issue yield a task: planning and implementation.
use loony_dev.Pipeline.Gates.{answer_of, guard_lem, not-false}
use mathlib.Core.Option.{some-injective, none-ne-some}
use loony_dev.Tasks.Markers.{plan_marker_prefix}
use loony_dev.Prelude.{
  not, ap, keep, keep, ℕ, true, false, not, List, [], ◌∷◌, Option, none, some, Text, mem_text, keep,
  ◌≡◌, refl, sym,
}
use loony_dev.Github.Client.{ok}
use loony_dev.Github.Items.{
  Comment, fetched, ready_for_planning, ready_for_development, has_other_assignee, Issue, Comment,
  has_other_assignee, fetched, ready_for_planning, ready_for_development, in_error,
}
use loony_dev.Tasks.Kinds.{
  IssueTask, implement_issue, IssueTask, PlanningTask, plan_issue, implement_issue, Task,
  plan_issue, implement_issue,
}
use loony_dev.Tasks.Due.{
  ◌>>=◌, revision, since_marker, last_marked, plan_of, plan_or_revise, planning_action,
  issue_action, planning_action, issue_action, plan_or_revise, last_marked, plan_of, Repo,
  planning_action, issue_action,
}

revision_lem :
    (i : Issue) (plan : Text) (id : Option ℕ) (comments : List Comment) (t : Task)
    → revision i plan id comments ≡ some t
    → (p : PlanningTask) × (t ≡ plan_issue p) × (p.issue ≡ i)
unfolding revision
revision_lem i plan id [] t e = absurd (none-ne-some t e)
revision_lem i plan id (c ∷ cs) t e = (_, sym (some-injective _ t e), refl)

plan_or_revise_lem :
    (repo : Repo) (i : Issue) (comments : List Comment) (t : Task)
    (marked : Option (Comment × List Comment))
    → plan_or_revise repo i comments marked ≡ some t
    → (p : PlanningTask) × (t ≡ plan_issue p) × (p.issue ≡ i)
unfolding plan_or_revise
plan_or_revise_lem repo i comments t none e = (_, sym (some-injective _ t e), refl)
plan_or_revise_lem repo i comments t (some (marker, behind)) e =
    revision_lem i _ _
      (keep (λ c. repo.authorized c.author)
        (since_marker repo.bot_name comments (some (marker, behind))))
      t e

planned_lem :
    (repo : Repo) (i : Issue) (t : Task) (comments : Option (List Comment))
    → (fetched comments >>= λ found.
        ok (plan_or_revise repo i found (last_marked repo.bot_name plan_marker_prefix found)))
      ≡ ok (some t)
    → (p : PlanningTask) × (t ≡ plan_issue p) × (p.issue ≡ i)
unfolding fetched
planned_lem repo i t none e = absurd (none-ne-some t (ap answer_of e))
planned_lem repo i t (some found) e = plan_or_revise_lem repo i found t _ (ap answer_of e)

implemented_lem :
    (repo : Repo) (i : Issue) (t : Task) (comments : Option (List Comment))
    → (fetched comments >>= λ found. ok (
        some (
          implement_issue (record {
            issue = i;
            plan = plan_of (last_marked repo.bot_name plan_marker_prefix found);
            commit_exhausted = false;
            hook_output = none;
          }))))
      ≡ ok (some t)
    → (w : IssueTask) × (t ≡ implement_issue w) × (w.issue ≡ i) × (w.commit_exhausted ≡ false)
unfolding fetched
implemented_lem repo i t none e = absurd (none-ne-some t (ap answer_of e))
implemented_lem repo i t (some found) e = (_, sym (some-injective _ t (ap answer_of e)), refl, refl)

pub planning_action_lem :
    (repo : Repo) (i : Issue) (t : Task)
    → planning_action repo i ≡ ok (some t)
    → (mem_text ready_for_planning i.labels ≡ true)
      × (has_other_assignee i repo.bot_name ≡ false)
      × (mem_text in_error i.labels ≡ false)
      × (mem_text ready_for_development i.labels ≡ false)
      × ((p : PlanningTask) × (t ≡ plan_issue p) × (p.issue ≡ i))
unfolding planning_action
planning_action_lem repo i t e =
    let (a, e1) = guard_lem (not (mem_text ready_for_planning i.labels)) _ t e in
    let (b, e2) = guard_lem (has_other_assignee i repo.bot_name) _ t e1 in
    let (c, e3) = guard_lem (mem_text in_error i.labels) _ t e2 in
    let (d, e4) = guard_lem (mem_text ready_for_development i.labels) _ t e3 in
    (
      not-false (mem_text ready_for_planning i.labels) a,
      b,
      c,
      d,
      planned_lem repo i t (repo.comments_of i.number) e4,
    )

pub issue_action_lem :
    (repo : Repo) (i : Issue) (t : Task)
    → issue_action repo i ≡ ok (some t)
    → (mem_text ready_for_development i.labels ≡ true)
      × (has_other_assignee i repo.bot_name ≡ false)
      × (mem_text in_error i.labels ≡ false)
      × ((w : IssueTask) × (t ≡ implement_issue w) × (w.issue ≡ i) × (w.commit_exhausted ≡ false))
unfolding issue_action
issue_action_lem repo i t e =
    let (a, e1) = guard_lem (not (mem_text ready_for_development i.labels)) _ t e in
    let (b, e2) = guard_lem (has_other_assignee i repo.bot_name) _ t e1 in
    let (c, e3) = guard_lem (mem_text in_error i.labels) _ t e2 in
    (
      not-false (mem_text ready_for_development i.labels) a,
      b,
      c,
      implemented_lem repo i t (repo.comments_of i.number) e3,
    )
