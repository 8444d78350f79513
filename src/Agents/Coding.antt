-- ===== src/Agents/Coding.antt =====
-- loony_dev/agents/coding.py: the phases of `execute_issue` for an issue task.
use loony_dev.Prelude.{
  ℕ, zero, suc, ◌+◌, ◌-◌, ◌==◌, Bool, true, false, not, ◌&&◌, List, [], ◌∷◌, ◌++◌, Option, none,
  some, if◌then◌else◌, Text, codes, strip, is_nonempty, starts_with, splitlines, contains, any_of,
  last_n, print_ℕ,
}
use loony_dev.Github.Client.{called_process_error}
use loony_dev.Git.Commit.{
  Completed, succeeds, Pushed, done, hook_failure, git_error, commit_and_push,
}
use loony_dev.Tasks.Kinds.{IssueTask}
use loony_dev.Tasks.Host.{TaskResult}
use loony_dev.Agents.Turns.{
  no_flag, review, committed, commit_exhausted, create_pr, close_session, mark_idle,
  cleanup_context, Review, review_failed, no_issues, issues, World, next, Phase, ◌>>=◌, ◌>>◌, pure,
  return_, throw, note, emit, failed_with, invoke_claude, run_turn, command,
}

-- The settings of a run: the retries, whether CodeRabbit is available, the branch, and the session
-- of its turns.
pub record Plan : Type 0 where
  pub max_review : ℕ
  pub max_commits : ℕ
  pub cr_available : Bool
  pub branch : Text
  pub session_id : Text

-- `session_id_for(task)`, but a fresh one for a branch without commits of its own.
unfoldable pub session_of : ℕ → Option Text → Text → Text
session_of ahead deterministic fresh = elim (ahead == 0) [
  | true ↦ fresh
  | false ↦ elim deterministic [ none ↦ fresh | some [] ↦ fresh | some (c ∷ s) ↦ c ∷ s ]
]

-- Of the lines, the first that is no fence and no heading.
unfoldable pub first_message : List Text → Option Text
unfolding strip
first_message [] = none
first_message (line ∷ lines) =
    let later = first_message lines in
    if is_nonempty (strip line)
      && not (starts_with (codes "```") (strip line))
      && not (starts_with (codes "#") (strip line))
    then some (strip line)
    else later

abbrev first_line : List Text → Text
first_line [] = codes "feat: implement changes"
first_line (line ∷ lines) = line

-- `_parse_commit_message`
unfoldable pub parse_commit_message : Text → Text
unfolding first_message
parse_commit_message raw =
    let lines = splitlines false [] (strip raw) in
    elim (first_message lines) [ some message ↦ message | none ↦ first_line lines ]

unfoldable pub default_message : ℕ → Text
default_message n = codes "feat: implement issue #" ++ print_ℕ n

unfoldable pub closes : ℕ → Text
closes n = codes "Closes #" ++ print_ℕ n

abbrev pub commit_message_rejection : List Text
commit_message_rejection =
    codes "commit message" ∷ codes "conventional commit" ∷ codes "commit-msg" ∷ []

-- The message of the next attempt, what the hook said last, and whether an attempt succeeded.
pub record Attempts : Type 0 where
  pub message : Text
  pub hook_output : Option Text
  pub succeeded : Bool

module _ (world : World) (plan : Plan) (t : IssueTask) where
  abbrev pub says : Completed → Bool
  says p = succeeds p && is_nonempty (strip p.stdout)

  unfoldable pub generate_commit_message : Phase Text
  unfolding invoke_claude parse_commit_message default_message
  generate_commit_message = elim (world.command_turn (codes "commit-message")) [
    | none ↦ pure (default_message t.issue.number)
    | some turn ↦ invoke_claude world no_flag turn >>= λ p.
        pure (if says p then parse_commit_message p.stdout else default_message t.issue.number)
  ]

  unfoldable pub generate_pr_body : Phase Text
  unfolding invoke_claude closes
  generate_pr_body w =
      if not (world.diff w)
      then (next (closes t.issue.number), w)
      else elim (world.command_turn (codes "pr-body")) [
        | none ↦ (next (closes t.issue.number), w)
        | some turn ↦
            (invoke_claude world no_flag turn >>= λ p.
            pure (if says p then strip p.stdout else closes t.issue.number))
              w
      ]

  unfoldable pub generate_summary : Text → Phase Text
  unfolding invoke_claude
  generate_summary output =
      invoke_claude world no_flag (
        codes "Summarize what was done in 2-3 sentences based on this output:\n\n"
        ++ last_n 3000 output)
      >>= λ p. pure (if says p then strip p.stdout else codes "Changes were made successfully.")

  -- The title says whether the commit was made without its hooks.
  unfoldable pub pr_title : Bool → Text
  pr_title exhausted =
      (if exhausted then codes "[WIP] " else [])
      ++ (t.issue.title ++ (codes " (#" ++ (print_ℕ t.issue.number ++ codes ")")))

  -- A pull request that exists already is none the worse.
  abbrev pub created : Completed → Phase (Unit {0})
  created p =
      if succeeds p
      then pure tt
      else if contains (codes "a pull request already exists")
          (world.shell.lower (p.stdout ++ (codes "\n" ++ p.stderr)))
      then pure tt
      else throw called_process_error

  unfoldable pub run_pr_create : Text → Phase (Unit {0})
  unfolding note contains
  run_pr_create title w = created (world.pr_create w title) (note (create_pr title) w)

  unfoldable pub create_pull_request : Bool → Phase (Unit {0})
  unfolding generate_pr_body run_pr_create pr_title
  create_pull_request exhausted = generate_pr_body >>= λ body. run_pr_create (pr_title exhausted)

  unfoldable pub review_turn : Text → Phase Text
  unfolding command run_turn
  review_turn phase =
      command world (codes "fix-review") >>= λ prompt. run_turn world plan.session_id phase prompt

  unfoldable pub hook_turn : Phase Text
  unfolding command run_turn
  hook_turn = command world (codes "fix-hook") >>= λ prompt.
      run_turn world plan.session_id (codes "hook fix") prompt

  unfoldable pub ask_review : Phase Review
  unfolding note
  ask_review w = (next (world.run_review w), note review w)

  -- What follows a review.
  abbrev pub on_issues : Phase (Unit {0}) → Review → Phase (Unit {0})
  on_issues act review_failed = pure tt
  on_issues act no_issues = pure tt
  on_issues act (issues prompt) = act

  abbrev pub unless_last : Bool → Phase (Unit {0}) → Phase (Unit {0})
  unless_last true m = pure tt
  unless_last false m = m

  -- The rounds of phase 2, with `left` to go.
  unfoldable pub review_rounds : ℕ → ℕ → Phase (Unit {0})
  unfolding ask_review review_turn
  review_rounds zero attempt = pure tt
  review_rounds (suc left) attempt =
      ask_review
      >>= on_issues (
          unless_last (attempt == plan.max_review - 1)
            (review_turn (codes "review fix") >> review_rounds left (attempt + 1)))

  unfoldable pub is_done : Pushed → Bool
  is_done done = true
  is_done (hook_failure output) = false
  is_done (git_error output) = false
  is_done Pushed.called_process_error = false

  -- `git.commit_and_push`
  unfoldable pub try_commit : Text → Bool → Phase Pushed
  unfolding commit_and_push is_done note
  try_commit message no_verify w =
      let (pushed, commands) =
        commit_and_push world.shell message plan.branch no_verify w.commands in
      (next pushed, note (committed no_verify (is_done pushed)) (record w { commands = commands }))

  -- A review after a hook was fixed, whose failure is only logged.
  unfoldable pub review_again : Phase (Unit {0})
  unfolding ask_review review_turn
  review_again =
      if plan.cr_available
      then ask_review >>= on_issues (review_turn (codes "post-hook review fix") >> pure tt)
      else pure tt

  -- What stands between two attempts: a new message, or the same one after a fix.
  unfoldable pub before_retry : Text → Text → Phase Text
  unfolding generate_commit_message hook_turn review_again
  before_retry message output =
      if any_of (λ kw. contains kw (world.shell.lower output)) commit_message_rejection
      then generate_commit_message
      else hook_turn >> review_again >> pure message

  unfoldable pub git_failure : Text → Text → TaskResult
  unfolding failed_with
  git_failure what output = failed_with output (what ++ output) false

  -- What follows an attempt; a retry is made unless it was the last.
  abbrev pub on_pushed :
      Bool → Text → Option Text → (Text → Phase Attempts) → Pushed → Phase Attempts
  on_pushed last message hook retry done =
      pure (record { message = message; hook_output = hook; succeeded = true })
  on_pushed last message hook retry (git_error output) =
      return_ (git_failure (codes "git error during commit/push: ") output)
  on_pushed last message hook retry Pushed.called_process_error = throw called_process_error
  on_pushed true message hook retry (hook_failure output) =
      pure (record { message = message; hook_output = some output; succeeded = false })
  on_pushed false message hook retry (hook_failure output) = retry output

  -- The attempts of phase 3, with `left` to go.
  unfoldable pub commit_attempts : ℕ → ℕ → Text → Option Text → Phase Attempts
  unfolding try_commit before_retry
  commit_attempts zero attempt message hook =
      pure (record { message = message; hook_output = hook; succeeded = false })
  commit_attempts (suc left) attempt message hook =
      try_commit message false
      >>= on_pushed (attempt == plan.max_commits - 1) message hook (λ output.
        before_retry message output >>= λ message'.
        commit_attempts left (attempt + 1) message' (some output))

  abbrev pub on_wip : Pushed → Phase (Unit {0})
  on_wip done = pure tt
  on_wip (hook_failure output) =
      return_ (git_failure (codes "Failed to commit even as WIP: ") output)
  on_wip (git_error output) = return_ (git_failure (codes "Failed to commit even as WIP: ") output)
  on_wip Pushed.called_process_error = throw called_process_error

  -- The last commit, without hooks.
  unfoldable pub commit_wip : Attempts → Phase (Unit {0})
  unfolding try_commit emit
  commit_wip a =
      emit (commit_exhausted a.hook_output)
      >> try_commit (codes "[WIP] " ++ a.message) true
      >>= on_wip

  -- Whether the commit was made without its hooks.
  unfoldable pub after_attempts : Attempts → Phase Bool
  unfolding commit_wip
  after_attempts a = if a.succeeded then pure t.commit_exhausted else (commit_wip a >> pure true)

  unfoldable pub commit_phase : Text → Phase Bool
  unfolding commit_attempts after_attempts
  commit_phase message = commit_attempts plan.max_commits 0 message none >>= after_attempts

  unfoldable pub review_phase : Phase (Unit {0})
  unfolding review_rounds
  review_phase = if plan.cr_available then review_rounds plan.max_review 0 else pure tt

  unfoldable pub implement : Phase Text
  unfolding run_turn failed_with
  implement = elim (world.command_turn (codes "implement-issue")) [
    | none ↦
        return_
          (failed_with (codes "CommandNotInstalledError") (codes "CommandNotInstalledError") false)
    | some prompt ↦ run_turn world plan.session_id (codes "implementation") prompt
  ]

  unfoldable pub finished : Text → Text → TaskResult
  finished output summary = record {
    success = true;
    output = output;
    summary = summary;
    post_summary = true;
    rate_limited = false;
  }

  -- Phase 4, and the summary.
  unfoldable pub publish : Text → Bool → Phase TaskResult
  unfolding create_pull_request generate_summary finished
  publish output exhausted = create_pull_request exhausted >> generate_summary output >>= λ summary.
      pure (finished output summary)

  unfoldable pub after_implement : Text → Phase TaskResult
  unfolding review_phase generate_commit_message commit_phase publish
  after_implement output =
      review_phase >> generate_commit_message >>= commit_phase >>= publish output

  -- The body of the `try`.
  unfoldable pub phases : Phase TaskResult
  unfolding implement after_implement
  phases = implement >>= after_implement

  -- The `finally` block comes last, however the body ended.
  unfoldable pub execute_issue : Phase TaskResult
  unfolding phases note
  execute_issue w =
      let (step, w') = phases w in
      (step, note cleanup_context (note mark_idle (note close_session w')))
