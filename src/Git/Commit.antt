-- ===== src/Git/Commit.antt =====
-- `GitRepo.commit_and_push`. What git answers is a parameter: it may depend on the commands that
-- were run before.
use loony_dev.Prelude.{
  ℤ, pos, Bool, true, false, List, [], ◌∷◌, ◌++◌, if◌then◌else◌, Text, codes, contains, any_of,
  strip, eqb_ℤ,
}

pub data Command : Type 0 where
  add_all : Command
  commit : (message : Text) (no_verify : Bool) → Command
  push : (branch : Text) → Command
  reset_soft : Command

-- `subprocess.CompletedProcess`
pub record Completed : Type 0 where
  pub returncode : ℤ
  pub stdout : Text
  pub stderr : Text

-- The commands run so far, each with its answer.
abbrev pub Commands : Type 0
Commands = List (Command × Completed)

-- What a command answers after those before it; and `str.lower`.
pub record Shell : Type 0 where
  pub run : Commands → Command → Completed
  pub lower : Text → Text

-- How `commit_and_push` ends; the last is the error of `git add -A`.
pub data Pushed : Type 0 where
  done : Pushed
  hook_failure git_error : (output : Text) → Pushed
  called_process_error : Pushed

abbrev pub hook_keywords : List Text
hook_keywords =
    codes "pre-commit"
    ∷ codes "pre-push"
    ∷ codes "commit-msg"
    ∷ codes "hook failed"
    ∷ codes "hook exited"
    ∷ codes "hook script"
    ∷ []

abbrev pub nothing_to_commit : List Text
nothing_to_commit = codes "nothing to commit" ∷ codes "nothing added to commit" ∷ []

abbrev pub already_up_to_date : List Text
already_up_to_date = codes "everything up-to-date" ∷ codes "already up to date" ∷ []

unfoldable pub succeeds : Completed → Bool
succeeds p = eqb_ℤ p.returncode (pos 0)

-- `f"{stdout}\n{stderr}".strip()`
unfoldable pub output_of : Completed → Text
unfolding strip
output_of p = strip (p.stdout ++ (codes "\n" ++ p.stderr))

module _ (sh : Shell) where
  unfoldable pub mentions : List Text → Text → Bool
  unfolding contains
  mentions keywords output = any_of (λ kw. contains kw (sh.lower output)) keywords

  unfoldable pub after : Command → Commands → Commands
  after c cs = cs ++ (c, sh.run cs c) ∷ []

  -- A push that was rejected: by a hook, after which a new commit is undone, or otherwise.
  unfoldable pub push_rejected : Bool → Text → Commands → Pushed × Commands
  unfolding mentions after
  push_rejected commit_created output cs =
      if mentions already_up_to_date output
      then (done, cs)
      else if mentions hook_keywords output
      then (hook_failure output, if commit_created then after reset_soft cs else cs)
      else (git_error output, cs)

  unfoldable pub run_push : Text → Bool → Commands → Pushed × Commands
  unfolding push_rejected succeeds output_of
  run_push branch commit_created cs =
      let answer = sh.run cs (push branch) in
      if succeeds answer
      then (done, after (push branch) cs)
      else push_rejected commit_created (output_of answer) (after (push branch) cs)

  unfoldable pub run_commit : Text → Text → Bool → Commands → Pushed × Commands
  unfolding run_push
  run_commit message branch no_verify cs =
      let answer = sh.run cs (commit message no_verify) in
      let cs' = after (commit message no_verify) cs in
      if succeeds answer
      then run_push branch true cs'
      else if mentions nothing_to_commit (output_of answer)
      then run_push branch false cs'
      else if mentions hook_keywords (output_of answer)
      then (hook_failure (output_of answer), cs')
      else (git_error (output_of answer), cs')

  unfoldable pub commit_and_push : Text → Text → Bool → Commands → Pushed × Commands
  unfolding run_commit
  commit_and_push message branch no_verify cs =
      if succeeds (sh.run cs add_all)
      then run_commit message branch no_verify (after add_all cs)
      else (called_process_error, after add_all cs)
