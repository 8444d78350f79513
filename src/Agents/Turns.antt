-- ===== src/Agents/Turns.antt =====
-- One turn of the Claude CLI: `_run_claude_cli`, `_CliSession.send_turn` and
-- `CodingAgent._run_turn`. What the CLI, the lease and the reviewer answer may depend on all
-- that was done before.
use loony_dev.Prelude.{
  ℤ, Bool, true, false, not, ◌||◌, List, [], ◌∷◌, ◌++◌, Option, none, some, if◌then◌else◌, Text,
  codes, strip, is_nonempty, take,
}
use loony_dev.Github.Client.{Exception, lease_fenced_error, runtime_error}
use loony_dev.Git.Commit.{Commands, Completed, Shell, succeeds}
use loony_dev.Tasks.Host.{TaskResult}
use loony_dev.Agents.Quota.{Clock, is_quota_error, is_session_not_found, handle_quota_error}

-- The session flags of `claude -p`.
pub data Flag : Type 0 where
  no_flag : Flag
  resume create : (session_id : Text) → Flag

pub data Event : Type 0 where
  claude : Flag → (prompt : Text) → Event
  turn_start turn_complete turn_error heartbeat : Event
  review : Event
  committed : (no_verify success : Bool) → Event
  commit_exhausted : (hook_output : Option Text) → Event
  create_pr : (title : Text) → Event
  close_session mark_idle cleanup_context : Event

-- What a run of the agent changes: the events, the git commands, and the cool-down.
pub record Work : Type 0 where
  pub events : List Event
  pub commands : Commands
  pub disabled_until : Option ℤ

-- How `coderabbit` ends: `CodeRabbitError`, no issues, or the prompt that lists them.
pub data Review : Type 0 where
  review_failed no_issues : Review
  issues : (agent_prompt : Text) → Review

-- `command_turn` is the prompt of an installed slash command with its context file; `none` is
-- `CommandNotInstalledError`. `shown` is `str(rc)`.
pub record World : Type 0 where
  pub clock : Clock
  pub fallback : ℤ
  pub answer : Work → Flag → Text → Completed
  pub fenced : Work → Bool
  pub command_turn : Text → Option Text
  pub run_review : Work → Review
  pub shell : Shell
  pub diff : Work → Bool
  pub pr_create : Work → Text → Completed
  pub shown : ℤ → Text

-- A step goes on, returns from the whole function, or raises.
pub data Step {ℓ} (A : Type ℓ) : Type ℓ where
  next : A → Step A
  finish : TaskResult → Step A
  raised : Exception → Step A

abbrev pub Phase {ℓ} : Type ℓ → Type ℓ
Phase A = Work → Step A × Work

module _ {ℓ κ} {A : Type ℓ} {B : Type κ} where
  abbrev pub go_on : Step A → (A → Phase B) → Phase B
  go_on (next a) f = f a
  go_on (finish r) f = λ w. (finish r, w)
  go_on (raised e) f = λ w. (raised e, w)

  infixl 5 ◌>>=◌ ◌>>◌
  abbrev pub ◌>>=◌ : Phase A → (A → Phase B) → Phase B
  m >>= f = λ w. let (s, w') = m w in go_on s f w'

  abbrev pub ◌>>◌ : Phase A → Phase B → Phase B
  m >> k = m >>= λ _. k

module _ {ℓ} {A : Type ℓ} where
  abbrev pub pure : A → Phase A
  pure a w = (next a, w)

  abbrev pub return_ : TaskResult → Phase A
  return_ r w = (finish r, w)

  abbrev pub throw : Exception → Phase A
  throw e w = (raised e, w)

unfoldable pub note : Event → Work → Work
note e w = record w { events = w.events ++ e ∷ [] }

unfoldable pub emit : Event → Phase (Unit {0})
unfolding note
emit e w = (next tt, note e w)

-- A failed `TaskResult`.
unfoldable pub failed_with : Text → Text → Bool → TaskResult
failed_with output summary rate_limited = record {
  success = false;
  output = output;
  summary = summary;
  post_summary = false;
  rate_limited = rate_limited;
}

-- What `send_turn` yields or raises.
pub data Turn : Type 0 where
  turn_text : Text → Turn
  quota_exceeded : (output : Text) → Turn
  session_error : (message : Text) → Turn

module _ (world : World) where
  -- `_check_fence`
  unfoldable pub check_fence : Phase (Unit {0})
  check_fence w = if world.fenced w then (raised lease_fenced_error, w) else (next tt, w)

  -- `_invoke_claude`, after which a timeout is a return code like another.
  unfoldable pub invoke_claude : Flag → Text → Phase Completed
  unfolding note
  invoke_claude flag prompt w = (next (world.answer w flag prompt), note (claude flag prompt) w)

  abbrev pub both : Completed → Text
  both p = p.stdout ++ (codes "\n" ++ p.stderr)

  -- `--resume`, and `--session-id` where there is no such session.
  unfoldable pub run_claude_cli_inner : Text → Text → Phase Completed
  unfolding invoke_claude
  run_claude_cli_inner session_id prompt = invoke_claude (resume session_id) prompt >>= λ p.
      if succeeds p || not (is_session_not_found world.clock (both p))
      then pure p
      else invoke_claude (create session_id) prompt

  unfoldable pub after_turn : Completed → Phase Completed
  unfolding check_fence emit
  after_turn p =
      if succeeds p
      then check_fence >> emit turn_complete >> emit heartbeat >> pure p
      else (emit turn_error >> pure p)

  unfoldable pub run_claude_cli : Text → Text → Phase Completed
  unfolding run_claude_cli_inner after_turn
  run_claude_cli session_id prompt =
      check_fence
      >> emit turn_start
      >> emit heartbeat
      >> run_claude_cli_inner session_id prompt
      >>= after_turn

  -- `(stderr.strip() or stdout.strip() or f"exit code {rc}")[:500]`
  unfoldable pub detail_of : Completed → Text
  unfolding strip
  detail_of p = take 500 (
      if is_nonempty (strip p.stderr)
      then strip p.stderr
      else if is_nonempty (strip p.stdout)
      then strip p.stdout
      else codes "exit code " ++ world.shown p.returncode)

  unfoldable pub turn_of : Completed → Turn
  unfolding detail_of
  turn_of p =
      if is_quota_error world.clock (both p)
      then quota_exceeded (both p)
      else if succeeds p
      then turn_text p.stdout
      else session_error (
          codes "claude -p failed (rc="
          ++ (world.shown p.returncode ++ (codes "): " ++ detail_of p)))

  -- A quota error disables the agent.
  unfoldable pub settle_turn : Text → Turn → Phase Text
  unfolding failed_with
  settle_turn phase (turn_text text) = pure text
  settle_turn phase (quota_exceeded output) = λ w. (
    finish (failed_with output (codes "Rate limited during " ++ phase) true),
    record w { disabled_until = some (handle_quota_error world.clock world.fallback output) },
  )
  settle_turn phase (session_error message) = return_ (
      failed_with message (codes "Agent error during " ++ (phase ++ (codes ": " ++ message))) false)

  unfoldable pub run_turn : Text → Text → Text → Phase Text
  unfolding run_claude_cli turn_of settle_turn
  run_turn session_id phase prompt =
      run_claude_cli session_id prompt >>= λ p. settle_turn phase (turn_of p)

  -- A slash command whose absence is not caught.
  unfoldable pub command : Text → Phase Text
  command name = elim (world.command_turn name) [
    | some prompt ↦ pure prompt
    | none ↦ throw (runtime_error (codes "CommandNotInstalledError"))
  ]
