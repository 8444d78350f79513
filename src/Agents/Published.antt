-- ===== src/Agents/Published.antt =====
-- The commits and the pull request of a whole run of `execute_issue`.
use loony_dev.Prelude.{
  ℕ, ◌≤◌, ◌<◌, Bool, true, false, List, [], ◌∷◌, ◌++◌, Text, ◌≡◌, refl, sym, ap, ◌∙◌, arith,
}
use std.Path.{subst}
use mathlib.Core.List.{append-nil, append_assoc}
use loony_dev.Tasks.Kinds.{IssueTask}
use loony_dev.Agents.Turns.{
  Event, committed, create_pr, close_session, mark_idle, cleanup_context, Work, World, Step, next,
  finish, raised, Phase, go_on, ◌>>=◌, ◌>>◌, note,
}
use loony_dev.Agents.Coding.{
  Plan, commit_phase, pr_title, review_phase, generate_commit_message, implement, publish,
  after_implement, phases, execute_issue,
}
use loony_dev.Agents.Quiet.{is_loud, loud, loud-note_quiet, NoSuccess, bind-Quiet}
use loony_dev.Agents.QuietPhases.{
  implement-Quiet, review_phase-Quiet, generate_commit_message-Quiet,
}
use loony_dev.Agents.Story.{fails, IsStop, Commits, by_commit, by_wip, no_wip, commit_phase-Commits}
use loony_dev.Agents.Opened.{is_success, Opened, unopened, opened, publish-Opened}

-- All that a run may do, after what was done before: failed attempts, then a commit with its
-- hooks, or one commit without them, and after a commit that succeeded a pull request. A success
-- needs the pull request.
pub data Story (world : World) (plan : Plan) (t : IssueTask) (before : List Event)
    : Bool → List Event → Type 0 where
  no_commit :
      {now : List Event} (n : ℕ)
      → n ≤ plan.max_commits
      → now ≡ before ++ fails n
      → Story world plan t before false now
  unpublished :
      {now : List Event} (n : ℕ)
      → n < plan.max_commits
      → now ≡ before ++ (fails n ++ committed false true ∷ [])
      → Story world plan t before false now
  published :
      {now : List Event} (n : ℕ) (success : Bool)
      → n < plan.max_commits
      → now
        ≡ before
          ++ (fails n
              ++ committed false true ∷ create_pr (pr_title world plan t t.commit_exhausted) ∷ [])
      → Story world plan t before success now
  wip :
      {now : List Event} (n : ℕ) (committed_wip : Bool)
      → n ≤ plan.max_commits
      → now ≡ before ++ (fails n ++ committed true committed_wip ∷ [])
      → Story world plan t before false now
  published_wip :
      {now : List Event} (n : ℕ) (success : Bool)
      → n ≤ plan.max_commits
      → now
        ≡ before ++ (fails n ++ committed true true ∷ create_pr (pr_title world plan t true) ∷ [])
      → Story world plan t before success now

module _ (world : World) (plan : Plan) (t : IssueTask) where
  regroup :
      (before : List Event) (n : ℕ) (e p : Event)
      → (before ++ (fails n ++ e ∷ [])) ++ p ∷ [] ≡ before ++ (fails n ++ e ∷ p ∷ [])
  regroup before n e p =
      append_assoc before (fails n ++ e ∷ []) (p ∷ [])
      ∙ ap (λ es. before ++ es) (append_assoc (fails n) (e ∷ []) (p ∷ []))

  Opened-commit :
      (before middle now : List Event) (n : ℕ) (success : Bool)
      → n < plan.max_commits
      → middle ≡ before ++ (fails n ++ committed false true ∷ [])
      → Opened (pr_title world plan t t.commit_exhausted) middle success now
      → Story world plan t before success now
  Opened-commit before middle now n success lt e (unopened h) = unpublished n lt (h ∙ e)
  Opened-commit before middle now n success lt e (opened b h) = published n b lt (
      h
      ∙ ap (λ es. es ++ create_pr (pr_title world plan t t.commit_exhausted) ∷ []) e
      ∙ regroup before n _ _)

  Opened-wip :
      (before middle now : List Event) (n : ℕ) (success : Bool)
      → n ≤ plan.max_commits
      → middle ≡ before ++ (fails n ++ committed true true ∷ [])
      → Opened (pr_title world plan t true) middle success now
      → Story world plan t before success now
  Opened-wip before middle now n success le e (unopened h) = wip n true le (h ∙ e)
  Opened-wip before middle now n success le e (opened b h) =
      published_wip n b le
        (h ∙ ap (λ es. es ++ create_pr (pr_title world plan t true) ∷ []) e ∙ regroup before n _ _)

  stopped :
      (before now : List Event) (output : Text) (s : Step Bool) (w : Work)
      → IsStop s
      → (is_success (go_on s (publish world plan t output) w).0 ≡ false)
        × (loud (go_on s (publish world plan t output) w).1 ≡ loud w)
  unfolding is_success
  stopped before now output (next b) w h = absurd h
  stopped before now output (finish r) w h = (h, refl)
  stopped before now output (raised e) w h = (refl, refl)

  after_commit :
      (before : List Event) (output : Text) (s : Step Bool) (w : Work)
      → Commits t plan.max_commits before s (loud w)
      → Story world plan t before
          (is_success (go_on s (publish world plan t output) w).0)
          (loud (go_on s (publish world plan t output) w).1)
  after_commit before output (next x) w (by_commit n lt e) =
      Opened-commit before (loud w) _ n _ lt e
        (publish-Opened world plan t output t.commit_exhausted w)
  after_commit before output (next x) w (by_wip n le e) =
      Opened-wip before (loud w) _ n _ le e (publish-Opened world plan t output true w)
  after_commit before output s w (Commits.no_commit n h le e) =
      let (failed, same) = stopped before before output s w h in
      subst (λ b. Story world plan t before b (loud (go_on s (publish world plan t output) w).1))
        (sym failed) (no_commit n le (same ∙ e))
  after_commit before output s w (no_wip n b h le e) =
      let (failed, same) = stopped before before output s w h in
      subst (λ b. Story world plan t before b (loud (go_on s (publish world plan t output) w).1))
        (sym failed) (wip n b le (same ∙ e))

  -- Phase 3, after a step that yields its message.
  messaged :
      (before : List Event) (s : Step Text) (w : Work)
      → loud w ≡ before
      → NoSuccess s
      → Commits t plan.max_commits before
          (go_on s (commit_phase world plan t) w).0
          (loud (go_on s (commit_phase world plan t) w).1)
  unfolding fails
  messaged before (next m) w e h =
      subst
        (λ b.
          Commits t plan.max_commits b (commit_phase world plan t m w).0
            (loud (commit_phase world plan t m w).1))
        e (commit_phase-Commits world plan t m w)
  messaged before (finish r) w e h =
      Commits.no_commit 0 h (omega arith) (e ∙ sym (append-nil before))
  messaged before (raised x) w e h =
      Commits.no_commit 0 tt (omega arith) (e ∙ sym (append-nil before))

  after_implement-Story :
      (output : Text) (w : Work)
      → Story world plan t
          (loud w)
          (is_success (after_implement world plan t output w).0)
          (loud (after_implement world plan t output w).1)
  unfolding after_implement
  after_implement-Story output w =
      let ready : Phase Text = review_phase world plan t >> generate_commit_message world plan t in
      let (same, safe) =
        bind-Quiet (review_phase world plan t) (λ _. generate_commit_message world plan t)
          (review_phase-Quiet world plan t) (λ _. generate_commit_message-Quiet world plan t) w in
      let committed_by : Phase Bool = ready >>= commit_phase world plan t in
      after_commit (loud w) output (committed_by w).0 (committed_by w).1
        (messaged (loud w) (ready w).0 (ready w).1 same safe)

  implemented :
      (before : List Event) (s : Step Text) (w : Work)
      → loud w ≡ before
      → NoSuccess s
      → Story world plan t before
          (is_success (go_on s (after_implement world plan t) w).0)
          (loud (go_on s (after_implement world plan t) w).1)
  unfolding is_success fails
  implemented before (next output) w e h =
      subst
        (λ b.
          Story world plan t b (is_success (after_implement world plan t output w).0)
            (loud (after_implement world plan t output w).1))
        e (after_implement-Story output w)
  implemented before (finish r) w e h =
      rw h (no_commit 0 (omega arith) (e ∙ sym (append-nil before)))
  implemented before (raised x) w e h = no_commit 0 (omega arith) (e ∙ sym (append-nil before))

-- Whatever the CLI, the hooks, the reviewer and the lease answer, a run of execute_issue makes at
-- most max_commit_retries commits with hooks, all but the last failed; where none succeeds it
-- makes at most one commit without hooks. It opens at most one pull request, only after a commit
-- that succeeded, titled [WIP] if that was made without hooks; and it returns a success only
-- after that.
pub execute_issue-Story :
    (world : World) (plan : Plan) (t : IssueTask) (w : Work)
    → Story world plan t
        (loud w)
        (is_success (execute_issue world plan t w).0)
        (loud (execute_issue world plan t w).1)
unfolding execute_issue phases is_loud
execute_issue-Story world plan t w =
    let (same, safe) = implement-Quiet world plan t w in
    let ended = phases world plan t w in
    let closed = note close_session ended.1 in
    let idle = note mark_idle closed in
    subst (Story world plan t (loud w) (is_success ended.0))
      (sym (
        loud-note_quiet cleanup_context idle refl
        ∙ loud-note_quiet mark_idle closed refl
        ∙ loud-note_quiet close_session ended.1 refl))
      (implemented world plan t (loud w) (implement world plan t w).0 (implement world plan t w).1
        same safe)
