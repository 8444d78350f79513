-- ===== src/Agents/Quiet.antt =====
-- The turns of the Claude CLI neither commit nor open a pull request.
use loony_dev.Prelude.{
  Bool, true, false, not, ◌||◌, List, [], ◌∷◌, ◌++◌, if◌then◌else◌, Text, keep, ◌≡◌, refl, ◌∙◌, inl,
  inr, arith, Bool-cases, Option-cases,
}
use mathlib.Core.List.{append-nil}
use loony_dev.Git.Commit.{Completed, succeeds}
use loony_dev.Agents.Quota.{is_session_not_found}
use loony_dev.Agents.Turns.{
  failed_with, both, Flag, Event, claude, turn_start, turn_complete, turn_error, heartbeat, review,
  committed, commit_exhausted, create_pr, close_session, mark_idle, cleanup_context, Work, World,
  Step, next, finish, raised, Phase, go_on, ◌>>=◌, ◌>>◌, pure, note, emit, Turn, turn_text,
  quota_exceeded, session_error, check_fence, invoke_claude, run_claude_cli_inner, after_turn,
  run_claude_cli, turn_of, settle_turn, run_turn, command,
}

-- A commit or a pull request.
unfoldable pub is_loud : Event → Bool
is_loud (committed no_verify success) = true
is_loud (create_pr title) = true
is_loud (claude flag prompt) = false
is_loud turn_start = false
is_loud turn_complete = false
is_loud turn_error = false
is_loud heartbeat = false
is_loud review = false
is_loud (commit_exhausted output) = false
is_loud close_session = false
is_loud mark_idle = false
is_loud cleanup_context = false

unfoldable pub loud : Work → List Event
loud w = keep is_loud w.events

pub keep-append {ℓ} :
    {A : Type ℓ} (p : A → Bool) (xs ys : List A) → keep p (xs ++ ys) ≡ keep p xs ++ keep p ys
keep-append p [] ys = refl
keep-append p (x ∷ xs) ys = ground (arith, keep-append p xs ys)

pub loud-note : (e : Event) (w : Work) → loud (note e w) ≡ loud w ++ keep is_loud (e ∷ [])
unfolding loud note
loud-note e w = keep-append is_loud w.events (e ∷ [])

pub loud-note_quiet : (e : Event) (w : Work) → is_loud e ≡ false → loud (note e w) ≡ loud w
loud-note_quiet e w h = loud-note e w ∙ (rw h (append-nil (loud w)))

-- A step that does not return a success.
abbrev pub NoSuccess {ℓ} : {A : Type ℓ} → Step A → Type 0
NoSuccess (next a) = Unit {0}
NoSuccess (finish r) = r.success ≡ false
NoSuccess (raised e) = Unit {0}

-- A phase that adds no such event, and does not return a success.
abbrev pub Quiet {ℓ} : {A : Type ℓ} → Phase A → Type 0
Quiet m = (w : Work) → (loud (m w).1 ≡ loud w) × NoSuccess (m w).0

module _ {ℓ κ} {A : Type ℓ} {B : Type κ} where
  go_on-Quiet :
      (s : Step A) (f : A → Phase B) (w : Work)
      → NoSuccess s
      → ((a : A) → Quiet (f a))
      → (loud (go_on s f w).1 ≡ loud w) × NoSuccess (go_on s f w).0
  go_on-Quiet (next a) f w k h = h a w
  go_on-Quiet (finish r) f w k h = (refl, k)
  go_on-Quiet (raised e) f w k h = (refl, tt)

  pub bind-Quiet :
      (m : Phase A) (f : A → Phase B) → Quiet m → ((a : A) → Quiet (f a)) → Quiet (m >>= f)
  bind-Quiet m f hm hf w =
      let (later, k) = go_on-Quiet (m w).0 f (m w).1 (hm w).1 hf in (later ∙ (hm w).0, k)

emit-Quiet : (e : Event) → is_loud e ≡ false → Quiet (emit e)
unfolding emit
emit-Quiet e h w = (loud-note_quiet e w h, tt)

pub if-Quiet {ℓ} :
    {A : Type ℓ} (b : Bool) (m k : Phase A) → Quiet m → Quiet k → Quiet (if b then m else k)
if-Quiet true m k hm hk = hm
if-Quiet false m k hm hk = hk

module _ (world : World) where
  check_fence-Quiet : Quiet (check_fence world)
  unfolding check_fence
  check_fence-Quiet w = elim (Bool-cases (world.fenced w)) [
    | inl e ↦ rw (check_fence, e) (refl, tt)
    | inr e ↦ rw (check_fence, e) (refl, tt)
  ]

  pub invoke_claude-Quiet : (flag : Flag) (prompt : Text) → Quiet (invoke_claude world flag prompt)
  unfolding invoke_claude is_loud
  invoke_claude-Quiet flag prompt w = (loud-note_quiet (claude flag prompt) w refl, tt)

  run_claude_cli_inner-Quiet :
      (session_id prompt : Text) → Quiet (run_claude_cli_inner world session_id prompt)
  unfolding run_claude_cli_inner
  run_claude_cli_inner-Quiet session_id prompt =
      bind-Quiet (invoke_claude world (Flag.resume session_id) prompt)
        (λ p.
          if succeeds p || not (is_session_not_found world.clock (both world p))
          then pure p
          else invoke_claude world (Flag.create session_id) prompt)
        (invoke_claude-Quiet (Flag.resume session_id) prompt)
        (λ p.
          if-Quiet (succeeds p || not (is_session_not_found world.clock (both world p))) (pure p)
            (invoke_claude world (Flag.create session_id) prompt) (λ w. (refl, tt))
            (invoke_claude-Quiet (Flag.create session_id) prompt))

  after_turn-Quiet : (p : Completed) → Quiet (after_turn world p)
  unfolding after_turn is_loud
  after_turn-Quiet p =
      if-Quiet (succeeds p) (check_fence world >> emit turn_complete >> emit heartbeat >> pure p)
        (emit turn_error >> pure p)
        (bind-Quiet (check_fence world >> emit turn_complete >> emit heartbeat) (λ _. pure p)
          (bind-Quiet (check_fence world >> emit turn_complete) (λ _. emit heartbeat)
            (bind-Quiet (check_fence world) (λ _. emit turn_complete) check_fence-Quiet
              (λ _. emit-Quiet turn_complete refl))
            (λ _. emit-Quiet heartbeat refl))
          (λ _ w. (refl, tt)))
        (bind-Quiet (emit turn_error) (λ _. pure p) (emit-Quiet turn_error refl)
          (λ _ w. (refl, tt)))

  run_claude_cli-Quiet : (session_id prompt : Text) → Quiet (run_claude_cli world session_id prompt)
  unfolding run_claude_cli is_loud
  run_claude_cli-Quiet session_id prompt =
      bind-Quiet
        (check_fence world
          >> emit turn_start
          >> emit heartbeat
          >> run_claude_cli_inner world session_id prompt)
        (after_turn world)
        (bind-Quiet (check_fence world >> emit turn_start >> emit heartbeat)
          (λ _. run_claude_cli_inner world session_id prompt)
          (bind-Quiet (check_fence world >> emit turn_start) (λ _. emit heartbeat)
            (bind-Quiet (check_fence world) (λ _. emit turn_start) check_fence-Quiet
              (λ _. emit-Quiet turn_start refl))
            (λ _. emit-Quiet heartbeat refl))
          (λ _. run_claude_cli_inner-Quiet session_id prompt))
        after_turn-Quiet

  settle_turn-Quiet : (phase : Text) (turn : Turn) → Quiet (settle_turn world phase turn)
  unfolding settle_turn loud failed_with
  settle_turn-Quiet phase (turn_text text) w = (refl, tt)
  settle_turn-Quiet phase (quota_exceeded output) w = (refl, refl)
  settle_turn-Quiet phase (session_error message) w = (refl, refl)

  pub run_turn-Quiet :
      (session_id phase prompt : Text) → Quiet (run_turn world session_id phase prompt)
  unfolding run_turn
  run_turn-Quiet session_id phase prompt =
      bind-Quiet (run_claude_cli world session_id prompt)
        (λ p. settle_turn world phase (turn_of world p)) (run_claude_cli-Quiet session_id prompt)
        (λ p. settle_turn-Quiet phase (turn_of world p))

  pub command-Quiet : (name : Text) → Quiet (command world name)
  unfolding command
  command-Quiet name w = elim (Option-cases (world.command_turn name)) [
    | inl e ↦ rw (command, e) (refl, tt)
    | inr (prompt, e) ↦ rw (command, e) (refl, tt)
  ]
