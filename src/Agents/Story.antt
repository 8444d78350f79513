-- ===== src/Agents/Story.antt =====
-- Which commits and pull requests a run of `execute_issue` makes, in their order.
use loony_dev.Prelude.{
  ℕ, zero, suc, ◌+◌, ◌-◌, ◌==◌, ◌≤◌, ◌<◌, Bool, true, false, List, [], ◌∷◌, ◌++◌, Option, none,
  some, Text, codes, ◌≡◌, refl, sym, ap, ◌∙◌, arith,
}
use std.Path.{subst}
use mathlib.Core.List.{append-nil, append_assoc}
use loony_dev.Github.Client.{Exception}
use loony_dev.Agents.Turns.{failed_with}
use loony_dev.Git.Commit.{Pushed, done, hook_failure, git_error, commit_and_push}
use loony_dev.Tasks.Host.{TaskResult}
use loony_dev.Tasks.Kinds.{IssueTask}
use loony_dev.Agents.Turns.{
  failed_with, Event, committed, commit_exhausted, Work, World, Step, next, finish, raised, Phase,
  go_on, ◌>>=◌, ◌>>◌, pure, note, emit,
}
use loony_dev.Agents.Coding.{
  Plan, Attempts, is_done, try_commit, on_pushed, before_retry, commit_attempts, on_wip, commit_wip,
  after_attempts, commit_phase, git_failure,
}
use loony_dev.Agents.Quiet.{is_loud, loud, loud-note, loud-note_quiet, NoSuccess}
use loony_dev.Agents.QuietPhases.{before_retry-Quiet}

-- Attempts that failed.
unfoldable pub fails : ℕ → List Event
fails zero = []
fails (suc n) = committed false false ∷ fails n

-- How the attempts end, with at most `left` of them, after the commits before.
pub data Ends (left : ℕ) (before : List Event) : Step Attempts → List Event → Type 0 where
  won :
      {now : List Event} (n : ℕ) (a : Attempts)
      → n < left
      → a.succeeded ≡ true
      → now ≡ before ++ (fails n ++ committed false true ∷ [])
      → Ends left before (next a) now
  lost :
      {now : List Event} (n : ℕ) (a : Attempts)
      → n ≤ left
      → a.succeeded ≡ false
      → now ≡ before ++ fails n
      → Ends left before (next a) now
  gave_up :
      {now : List Event} (n : ℕ) (r : TaskResult)
      → n ≤ left
      → r.success ≡ false
      → now ≡ before ++ fails n
      → Ends left before (finish r) now
  broke :
      {now : List Event} {e : Exception} (n : ℕ)
      → n ≤ left
      → now ≡ before ++ fails n
      → Ends left before (raised e) now

module _ (world : World) (plan : Plan) (t : IssueTask) where
  abbrev pushed_by : Text → Bool → Work → Pushed
  pushed_by message no_verify w =
      (commit_and_push world.shell message plan.branch no_verify w.commands).0

  try_commit-loud :
      (message : Text) (no_verify : Bool) (w : Work)
      → loud (try_commit world plan t message no_verify w).1
        ≡ loud w ++ committed no_verify (is_done world plan t (pushed_by message no_verify w)) ∷ []
  unfolding try_commit loud is_loud note
  try_commit-loud message no_verify w =
      let result = commit_and_push world.shell message plan.branch no_verify w.commands in
      loud-note (committed no_verify (is_done world plan t result.0))
        (record w { commands = result.1 })

  -- One more failed attempt before the others.
  after_failure :
      (left : ℕ) (before now : List Event) (s : Step Attempts)
      → Ends left (before ++ committed false false ∷ []) s now
      → Ends (suc left) before s now
  unfolding fails
  after_failure left before now (next x) (won n a lt ok e) =
      won (suc n) a (omega arith) ok (e ∙ append_assoc before _ _)
  after_failure left before now (next x) (lost n a le ok e) =
      lost (suc n) a (omega arith) ok (e ∙ append_assoc before _ _)
  after_failure left before now (finish x) (gave_up n r le ok e) =
      gave_up (suc n) r (omega arith) ok (e ∙ append_assoc before _ _)
  after_failure left before now (raised x) (broke n le e) =
      broke (suc n) (omega arith) (e ∙ append_assoc before _ _)

  -- A quiet phase before the others.
  after_quiet :
      (left : ℕ) (before : List Event) (f : Text → Phase Attempts) (s : Step Text) (w : Work)
      → loud w ≡ before
      → NoSuccess s
      → ((message : Text) (w' : Work)
          → Ends left (loud w') (f message w').0 (loud (f message w').1))
      → Ends left before (go_on s f w).0 (loud (go_on s f w).1)
  unfolding fails
  after_quiet left before f (next m) w e k h =
      subst (λ b. Ends left b (f m w).0 (loud (f m w).1)) e (h m w)
  after_quiet left before f (finish r) w e k h =
      gave_up 0 r (omega arith) k (e ∙ sym (append-nil before))
  after_quiet left before f (raised x) w e k h = broke 0 (omega arith) (e ∙ sym (append-nil before))

  on_pushed-Ends :
      (left : ℕ) (last : Bool) (message : Text) (hook : Option Text) (retry : Text → Phase Attempts)
      (pushed : Pushed) (before : List Event) (w : Work)
      → loud w ≡ before ++ committed false (is_done world plan t pushed) ∷ []
      → ((output : Text) (w' : Work)
          → Ends left (loud w') (retry output w').0 (loud (retry output w').1))
      → Ends
          (suc left)
          before
          (on_pushed world plan t last message hook retry pushed w).0
          (loud (on_pushed world plan t last message hook retry pushed w).1)
  unfolding is_done fails git_failure failed_with
  on_pushed-Ends left last message hook retry done before w e h = won 0 _ (omega arith) refl e
  on_pushed-Ends left last message hook retry (git_error output) before w e h =
      gave_up 1 _ (omega arith) refl e
  on_pushed-Ends left last message hook retry Pushed.called_process_error before w e h =
      broke 1 (omega arith) e
  on_pushed-Ends left true message hook retry (hook_failure output) before w e h =
      lost 1 _ (omega arith) refl e
  on_pushed-Ends left false message hook retry (hook_failure output) before w e h =
      after_failure left before (loud (retry output w).1) (retry output w).0
        (subst (λ b. Ends left b (retry output w).0 (loud (retry output w).1)) e (h output w))

  commit_attempts-Ends :
      (left attempt : ℕ) (message : Text) (hook : Option Text) (w : Work)
      → Ends left
          (loud w)
          (commit_attempts world plan t left attempt message hook w).0
          (loud (commit_attempts world plan t left attempt message hook w).1)
  unfolding commit_attempts try_commit fails
  commit_attempts-Ends zero attempt message hook w =
      lost 0 _ (omega arith) refl (sym (append-nil (loud w)))
  commit_attempts-Ends (suc left) attempt message hook w =
      let retry : Text → Phase Attempts = λ output.
        before_retry world plan t message output >>= λ message'.
        commit_attempts world plan t left (attempt + 1) message' (some output) in
      on_pushed-Ends left (attempt == plan.max_commits - 1) message hook retry
        (pushed_by message false w) (loud w) (try_commit world plan t message false w).1
        (try_commit-loud message false w)
        (λ output w'.
          let (quiet, safe) = before_retry-Quiet world plan t message output w' in
          after_quiet left (loud w')
            (λ message'. commit_attempts world plan t left (attempt + 1) message' (some output))
            (before_retry world plan t message output w').0
            (before_retry world plan t message output w').1 quiet safe
            (λ message' w''. commit_attempts-Ends left (attempt + 1) message' (some output) w''))

-- A step that returns no success and does not go on.
abbrev pub IsStop {ℓ} : {A : Type ℓ} → Step A → Type 0
IsStop (next a) = ⊥
IsStop (finish r) = r.success ≡ false
IsStop (raised e) = Unit {0}

-- How phase 3 ends.
pub data Commits (t : IssueTask) (max : ℕ) (before : List Event)
    : Step Bool → List Event → Type 0 where
  by_commit :
      {now : List Event} (n : ℕ)
      → n < max
      → now ≡ before ++ (fails n ++ committed false true ∷ [])
      → Commits t max before (next t.commit_exhausted) now
  by_wip :
      {now : List Event} (n : ℕ)
      → n ≤ max
      → now ≡ before ++ (fails n ++ committed true true ∷ [])
      → Commits t max before (next true) now
  no_commit :
      {s : Step Bool} {now : List Event} (n : ℕ)
      → IsStop s
      → n ≤ max
      → now ≡ before ++ fails n
      → Commits t max before s now
  no_wip :
      {s : Step Bool} {now : List Event} (n : ℕ) (b : Bool)
      → IsStop s
      → n ≤ max
      → now ≡ before ++ (fails n ++ committed true b ∷ [])
      → Commits t max before s now

module _ (world : World) (plan : Plan) (t : IssueTask) where
  on_wip-Commits :
      (n : ℕ) (before : List Event) (pushed : Pushed) (w : Work)
      → n ≤ plan.max_commits
      → loud w ≡ before ++ (fails n ++ committed true (is_done world plan t pushed) ∷ [])
      → let ended = on_wip world plan t pushed w in
        let after : Step Bool × Work = go_on ended.0 (λ _. pure true) ended.1 in
        Commits t plan.max_commits before after.0 (loud after.1)
  unfolding is_done git_failure failed_with
  on_wip-Commits n before done w le e = by_wip n le e
  on_wip-Commits n before (hook_failure output) w le e = no_wip n false refl le e
  on_wip-Commits n before (git_error output) w le e = no_wip n false refl le e
  on_wip-Commits n before Pushed.called_process_error w le e = no_wip n false tt le e

  commit_wip-Commits :
      (n : ℕ) (before : List Event) (a : Attempts) (w : Work)
      → n ≤ plan.max_commits
      → loud w ≡ before ++ fails n
      → let after : Step Bool × Work = (commit_wip world plan t a >> pure true) w in
        Commits t plan.max_commits before after.0 (loud after.1)
  unfolding commit_wip emit try_commit is_loud
  commit_wip-Commits n before a w le e =
      let noted = note (commit_exhausted a.hook_output) w in
      let wip = codes "[WIP] " ++ a.message in
      let pushed = pushed_by world plan t wip true noted in
      on_wip-Commits n before pushed (try_commit world plan t wip true noted).1 le (
        try_commit-loud world plan t wip true noted
        ∙ ap (λ es. es ++ committed true (is_done world plan t pushed) ∷ [])
            (loud-note_quiet (commit_exhausted a.hook_output) w refl ∙ e)
        ∙ append_assoc before (fails n) _)

  after_attempts-Commits :
      (before : List Event) (s : Step Attempts) (w : Work)
      → Ends plan.max_commits before s (loud w)
      → let after = go_on s (after_attempts world plan t) w in
        Commits t plan.max_commits before after.0 (loud after.1)
  unfolding after_attempts
  after_attempts-Commits before (next x) w (won n a lt ok e) =
      rw (after_attempts, ok) (by_commit n lt e)
  after_attempts-Commits before (next x) w (lost n a le ok e) =
      rw (after_attempts, ok) (commit_wip-Commits n before a w le e)
  after_attempts-Commits before (finish x) w (gave_up n r le ok e) = no_commit n ok le e
  after_attempts-Commits before (raised x) w (broke n le e) = no_commit n tt le e

  pub commit_phase-Commits :
      (message : Text) (w : Work)
      → let after = commit_phase world plan t message w in
        Commits t plan.max_commits (loud w) after.0 (loud after.1)
  unfolding commit_phase
  commit_phase-Commits message w =
      let ended = commit_attempts world plan t plan.max_commits 0 message none w in
      after_attempts-Commits (loud w) ended.0 ended.1
        (commit_attempts-Ends world plan t plan.max_commits 0 message none w)
