-- ===== src/Agents/QuietPhases.antt =====
-- The phases of `execute_issue` that neither commit nor open a pull request.
use loony_dev.Prelude.{
  ℕ, zero, suc, ◌+◌, ◌-◌, ◌==◌, Bool, true, false, ◌++◌, if◌then◌else◌, Text, codes, any_of,
  contains, refl, inl, inr, Bool-cases, Option-cases,
}
use loony_dev.Git.Commit.{Completed}
use loony_dev.Tasks.Kinds.{IssueTask}
use loony_dev.Agents.Turns.{
  failed_with, no_flag, review, Review, review_failed, no_issues, issues, World, Phase, ◌>>=◌, ◌>>◌,
  pure, invoke_claude, run_turn, command,
}
use loony_dev.Prelude.{strip, last_n}
use loony_dev.Agents.Coding.{
  on_issues, unless_last, says, parse_commit_message, default_message, closes,
  commit_message_rejection, Plan, generate_commit_message, generate_pr_body, generate_summary,
  review_turn, hook_turn, ask_review, review_rounds, review_again, before_retry, review_phase,
  implement,
}
use loony_dev.Agents.Quiet.{
  if-Quiet, Quiet, is_loud, loud-note_quiet, bind-Quiet, invoke_claude-Quiet, run_turn-Quiet,
  command-Quiet,
}

module _ (world : World) where
  module _ (plan : Plan) (t : IssueTask) where
    said :
        (choose : Completed → Text) (turn : Text)
        → Quiet (invoke_claude world no_flag turn >>= λ p. pure (choose p))
    said choose turn =
        bind-Quiet (invoke_claude world no_flag turn) (λ p. pure (choose p))
          (invoke_claude-Quiet world no_flag turn) (λ p w. (refl, tt))

    pub generate_commit_message-Quiet : Quiet (generate_commit_message world plan t)
    unfolding generate_commit_message
    generate_commit_message-Quiet w =
        elim (Option-cases (world.command_turn (codes "commit-message"))) [
          | inl e ↦ rw (generate_commit_message, e) (refl, tt)
          | inr (turn, e) ↦
              rw (generate_commit_message, e)
                (said
                  (λ p.
                    if says world plan t p
                    then parse_commit_message p.stdout
                    else default_message t.issue.number)
                  turn w)
        ]

    pub generate_pr_body-Quiet : Quiet (generate_pr_body world plan t)
    unfolding generate_pr_body
    generate_pr_body-Quiet w = elim (Bool-cases (world.diff w)) [
      | inr d ↦ rw (generate_pr_body, d) (refl, tt)
      | inl d ↦ elim (Option-cases (world.command_turn (codes "pr-body"))) [
        | inl e ↦ rw (generate_pr_body, d, e) (refl, tt)
        | inr (turn, e) ↦
            rw (generate_pr_body, d, e)
              (said (λ p. if says world plan t p then strip p.stdout else closes t.issue.number)
                turn w)
      ]
    ]

    pub generate_summary-Quiet : (output : Text) → Quiet (generate_summary world plan t output)
    unfolding generate_summary
    generate_summary-Quiet output =
        said
          (λ p.
            if says world plan t p then strip p.stdout else codes "Changes were made successfully.")
          (codes "Summarize what was done in 2-3 sentences based on this output:\n\n"
            ++ last_n 3000 output)

    review_turn-Quiet : (phase : Text) → Quiet (review_turn world plan t phase)
    unfolding review_turn
    review_turn-Quiet phase =
        bind-Quiet (command world (codes "fix-review")) (run_turn world plan.session_id phase)
          (command-Quiet world (codes "fix-review")) (run_turn-Quiet world plan.session_id phase)

    hook_turn-Quiet : Quiet (hook_turn world plan t)
    unfolding hook_turn
    hook_turn-Quiet =
        bind-Quiet (command world (codes "fix-hook"))
          (run_turn world plan.session_id (codes "hook fix"))
          (command-Quiet world (codes "fix-hook"))
          (run_turn-Quiet world plan.session_id (codes "hook fix"))

    ask_review-Quiet : Quiet (ask_review world plan t)
    unfolding ask_review is_loud
    ask_review-Quiet w = (loud-note_quiet review w refl, tt)

    on_issues-Quiet :
        (act : Phase (Unit {0})) → Quiet act → (r : Review) → Quiet (on_issues world plan t act r)
    on_issues-Quiet act h review_failed w = (refl, tt)
    on_issues-Quiet act h no_issues w = (refl, tt)
    on_issues-Quiet act h (issues prompt) w = h w

    unless_last-Quiet :
        (b : Bool) (m : Phase (Unit {0})) → Quiet m → Quiet (unless_last world plan t b m)
    unless_last-Quiet true m h w = (refl, tt)
    unless_last-Quiet false m h w = h w

    asked :
        (act : Phase (Unit {0}))
        → Quiet act
        → Quiet (ask_review world plan t >>= on_issues world plan t act)
    asked act h =
        bind-Quiet (ask_review world plan t) (on_issues world plan t act) ask_review-Quiet
          (on_issues-Quiet act h)

    review_rounds-Quiet : (left attempt : ℕ) → Quiet (review_rounds world plan t left attempt)
    unfolding review_rounds
    review_rounds-Quiet zero attempt = λ w. (refl, tt)
    review_rounds-Quiet (suc left) attempt =
        let again =
          review_turn world plan t (codes "review fix")
          >> review_rounds world plan t left (attempt + 1) in
        asked (unless_last world plan t (attempt == plan.max_review - 1) again) (
          unless_last-Quiet (attempt == plan.max_review - 1) again (
            bind-Quiet (review_turn world plan t (codes "review fix"))
              (λ _. review_rounds world plan t left (attempt + 1))
              (review_turn-Quiet (codes "review fix"))
              (λ _. review_rounds-Quiet left (attempt + 1))))

    review_again-Quiet : Quiet (review_again world plan t)
    unfolding review_again
    review_again-Quiet =
        let fix = review_turn world plan t (codes "post-hook review fix") >> pure tt in
        if-Quiet plan.cr_available (ask_review world plan t >>= on_issues world plan t fix)
          (pure tt)
          (asked fix (
            bind-Quiet (review_turn world plan t (codes "post-hook review fix")) (λ _. pure tt)
              (review_turn-Quiet (codes "post-hook review fix")) (λ _ w. (refl, tt))))
          (λ w. (refl, tt))

    pub before_retry-Quiet :
        (message output : Text) → Quiet (before_retry world plan t message output)
    unfolding before_retry
    before_retry-Quiet message output =
        if-Quiet (any_of (λ kw. contains kw (world.shell.lower output)) commit_message_rejection)
          (generate_commit_message world plan t)
          (hook_turn world plan t >> review_again world plan t >> pure message)
          generate_commit_message-Quiet
          (bind-Quiet (hook_turn world plan t >> review_again world plan t) (λ _. pure message)
            (bind-Quiet (hook_turn world plan t) (λ _. review_again world plan t) hook_turn-Quiet
              (λ _. review_again-Quiet))
            (λ _ w. (refl, tt)))

    pub review_phase-Quiet : Quiet (review_phase world plan t)
    unfolding review_phase
    review_phase-Quiet =
        if-Quiet plan.cr_available (review_rounds world plan t plan.max_review 0) (pure tt)
          (review_rounds-Quiet plan.max_review 0) (λ w. (refl, tt))

    pub implement-Quiet : Quiet (implement world plan t)
    unfolding implement failed_with
    implement-Quiet w = elim (Option-cases (world.command_turn (codes "implement-issue"))) [
      | inl e ↦ rw (implement, e) (refl, refl)
      | inr (prompt, e) ↦
          rw (implement, e) (run_turn-Quiet world plan.session_id (codes "implementation") prompt w)
    ]
