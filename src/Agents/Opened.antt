-- ===== src/Agents/Opened.antt =====
-- The last phase of `execute_issue`: the pull request.
use loony_dev.Prelude.{
  Bool, false, List, [], ◌∷◌, ◌++◌, Text, codes, contains, ◌≡◌, refl, ◌∙◌, inl, inr, Bool-cases,
}
use std.Path.{subst}
use loony_dev.Git.Commit.{Completed, succeeds}
use loony_dev.Tasks.Host.{TaskResult}
use loony_dev.Tasks.Kinds.{IssueTask}
use loony_dev.Agents.Turns.{
  Event, create_pr, Work, World, Step, next, finish, raised, go_on, pure, note,
}
use loony_dev.Agents.Coding.{
  Plan, create_pull_request, run_pr_create, pr_title, created, generate_pr_body, generate_summary,
  publish, finished,
}
use loony_dev.Agents.Quiet.{is_loud, loud, loud-note, NoSuccess, Quiet, bind-Quiet}
use loony_dev.Agents.QuietPhases.{generate_pr_body-Quiet, generate_summary-Quiet}
use loony_dev.Agents.Story.{IsStop}

-- Whether a run ends with a success.
unfoldable pub is_success : Step TaskResult → Bool
is_success (next r) = r.success
is_success (finish r) = r.success
is_success (raised e) = false

-- Phase 4: a pull request is opened or not; without one there is no success.
pub data Opened (title : Text) (before : List Event) : Bool → List Event → Type 0 where
  unopened : {now : List Event} → now ≡ before → Opened title before false now
  opened :
      {now : List Event} (b : Bool)
      → now ≡ before ++ create_pr title ∷ []
      → Opened title before b now

pub NoSuccess-is_success : (s : Step TaskResult) → IsStop s → is_success s ≡ false
unfolding is_success
NoSuccess-is_success (next r) h = absurd h
NoSuccess-is_success (finish r) h = h
NoSuccess-is_success (raised e) h = refl

module _ (world : World) (plan : Plan) (t : IssueTask) where
  created-loud : (p : Completed) → Quiet (created world plan t p)
  created-loud p w = elim (Bool-cases (succeeds p)) [
    | inl a ↦ rw a (refl, tt)
    | inr a ↦
        elim (Bool-cases (
          contains (codes "a pull request already exists")
            (world.shell.lower (p.stdout ++ (codes "\n" ++ p.stderr))))) [
              | inl b ↦ rw (a, b) (refl, tt)
              | inr b ↦ rw (a, b) (refl, tt)
            ]
  ]

  -- The summary, after a step.
  summarized : Text → Step (Unit {0}) → Work → Step TaskResult × Work
  summarized output step w =
      let (s, w') = go_on step (λ _. generate_summary world plan t output) w in
      go_on s (λ summary. pure (finished world plan t output summary)) w'

  summarized-loud :
      (output : Text) (step : Step (Unit {0})) (w : Work)
      → loud (summarized output step w).1 ≡ loud w
  unfolding summarized
  summarized-loud output (next a) w =
      (bind-Quiet (generate_summary world plan t output)
        (λ summary. pure (finished world plan t output summary))
        (generate_summary-Quiet world plan t output) (λ summary w. (refl, tt)) w).0
  summarized-loud output (finish r) w = refl
  summarized-loud output (raised e) w = refl

  run_pr_create-loud :
      (title : Text) (w : Work)
      → loud (run_pr_create world plan t title w).1 ≡ loud w ++ create_pr title ∷ []
  unfolding run_pr_create is_loud
  run_pr_create-loud title w =
      (created-loud (world.pr_create w title) (note (create_pr title) w)).0
      ∙ loud-note (create_pr title) w

  -- A pull request with the title, and the summary.
  publish_titled : Text → Text → Step Text → Work → Step TaskResult × Work
  unfolding summarized
  publish_titled output title body w =
      let (s, w') = go_on body (λ _. run_pr_create world plan t title) w in summarized output s w'

  publish_titled-Opened :
      (output title : Text) (body : Step Text) (w : Work)
      → NoSuccess body
      → Opened title
          (loud w)
          (is_success (publish_titled output title body w).0)
          (loud (publish_titled output title body w).1)
  unfolding publish_titled summarized is_success
  publish_titled-Opened output title (next b) w h =
      let (s, w') = run_pr_create world plan t title w in
      opened _ (summarized-loud output s w' ∙ run_pr_create-loud title w)
  publish_titled-Opened output title (finish r) w h = rw h (unopened refl)
  publish_titled-Opened output title (raised e) w h = unopened refl

  pub publish-Opened :
      (output : Text) (exhausted : Bool) (w : Work)
      → Opened
          (pr_title world plan t exhausted)
          (loud w)
          (is_success (publish world plan t output exhausted w).0)
          (loud (publish world plan t output exhausted w).1)
  unfolding publish create_pull_request publish_titled summarized
  publish-Opened output exhausted w =
      let body = generate_pr_body world plan t w in
      let (same, safe) = generate_pr_body-Quiet world plan t w in
      subst
        (λ before.
          Opened (pr_title world plan t exhausted) before
            (is_success (publish world plan t output exhausted w).0)
            (loud (publish world plan t output exhausted w).1))
        same (publish_titled-Opened output (pr_title world plan t exhausted) body.0 body.1 safe)
