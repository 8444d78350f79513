-- ===== src/Git/Undo.antt =====
-- The commits that `commit_and_push` leaves behind.
use loony_dev.Prelude.{
  not, ℕ, ◌+◌, ◌≤◌, Bool, true, false, [], ◌∷◌, ◌++◌, if◌then◌else◌, Text, ◌≡◌, inl, inr, arith,
  Bool-cases, ap,
}
use loony_dev.Git.Commit.{
  hook_keywords, nothing_to_commit, already_up_to_date, add_all, commit, push, reset_soft, Commands,
  Shell, Pushed, done, hook_failure, git_error, called_process_error, succeeds, output_of, mentions,
  after, push_rejected, run_push, run_commit, commit_and_push,
}

abbrev pub counted : Bool → ℕ
counted true = 1
counted false = 0

-- The commits that were made, those that a `git reset --soft` undid, and the resets that failed.
pub record Tally : Type 0 where
  pub made : ℕ
  pub undone : ℕ
  pub failed : ℕ

pub tally : Commands → Tally
tally [] = record { made = 0; undone = 0; failed = 0 }
tally ((commit message no_verify, p) ∷ cs) = record (tally cs) {
  made = counted (succeeds p) + (tally cs).made;
}
tally ((reset_soft, p) ∷ cs) = record (tally cs) {
  undone = counted (succeeds p) + (tally cs).undone;
  failed = counted (not (succeeds p)) + (tally cs).failed;
}
tally ((add_all, p) ∷ cs) = tally cs
tally ((push branch, p) ∷ cs) = tally cs

counted_total : (b : Bool) → counted b + counted (not b) ≡ 1
counted_total true = omega arith
counted_total false = omega arith

-- The tally of one list after another.
pub record IsSum (a b c : Tally) : Type 0 where
  pub made : c.made ≡ a.made + b.made
  pub undone : c.undone ≡ a.undone + b.undone
  pub failed : c.failed ≡ a.failed + b.failed

tally-append : (cs ds : Commands) → IsSum (tally cs) (tally ds) (tally (cs ++ ds))
unfolding tally
tally-append [] ds = record { made = omega arith; undone = omega arith; failed = omega arith }
tally-append ((commit message no_verify, p) ∷ cs) ds =
    let rest = tally-append cs ds in
    record { made = omega (arith, rest.made); undone = rest.undone; failed = rest.failed }
tally-append ((reset_soft, p) ∷ cs) ds =
    let rest = tally-append cs ds in
    record {
      made = rest.made;
      undone = omega (arith, rest.undone);
      failed = omega (arith, rest.failed);
    }
tally-append ((add_all, p) ∷ cs) ds = tally-append cs ds
tally-append ((push branch, p) ∷ cs) ds = tally-append cs ds

-- The end of an attempt. Where a hook rejected it, what was made and not undone is what a reset
-- failed to undo; at every other end nothing was reset. At most one commit is made.
pub Balanced : Pushed → (before after : Tally) → Type 0
Balanced done b a =
    (a.undone ≡ b.undone) × (a.failed ≡ b.failed) × (b.made ≤ a.made) × (a.made ≤ b.made + 1)
Balanced (hook_failure output) b a =
    (a.made + b.undone + b.failed ≡ b.made + a.undone + a.failed)
    × (b.made ≤ a.made)
    × (a.made ≤ b.made + 1)
    × (b.failed ≤ a.failed)
    × (b.undone ≤ a.undone)
Balanced (git_error output) b a =
    (a.undone ≡ b.undone) × (a.failed ≡ b.failed) × (b.made ≤ a.made) × (a.made ≤ b.made + 1)
Balanced called_process_error b a =
    (a.undone ≡ b.undone) × (a.failed ≡ b.failed) × (a.made ≡ b.made)

-- What a command adds.
IsStep : Tally → Tally → (made undone failed : ℕ) → Type 0
IsStep b a m u f = (a.made ≡ b.made + m) × (a.undone ≡ b.undone + u) × (a.failed ≡ b.failed + f)

module _ (sh : Shell) (cs : Commands) where
  after_push : (branch : Text) → IsStep (tally cs) (tally (after sh (push branch) cs)) 0 0 0
  unfolding after tally IsStep
  after_push branch =
      let sum = tally-append cs ((push branch, sh.run cs (push branch)) ∷ []) in
      (sum.made, sum.undone, sum.failed)

  after_add_all : IsStep (tally cs) (tally (after sh add_all cs)) 0 0 0
  unfolding after tally IsStep
  after_add_all =
      let sum = tally-append cs ((add_all, sh.run cs add_all) ∷ []) in
      (sum.made, sum.undone, sum.failed)

  after_reset_soft :
      IsStep
        (tally cs)
        (tally (after sh reset_soft cs))
        0
        (counted (succeeds (sh.run cs reset_soft)))
        (counted (not (succeeds (sh.run cs reset_soft))))
  unfolding after tally IsStep
  after_reset_soft =
      let sum = tally-append cs ((reset_soft, sh.run cs reset_soft) ∷ []) in
      (sum.made, omega (arith, sum.undone), omega (arith, sum.failed))

  after_commit :
      (message : Text) (no_verify : Bool)
      → IsStep
          (tally cs)
          (tally (after sh (commit message no_verify) cs))
          (counted (succeeds (sh.run cs (commit message no_verify))))
          0
          0
  unfolding after tally IsStep
  after_commit message no_verify =
      let sum =
        tally-append cs ((commit message no_verify, sh.run cs (commit message no_verify)) ∷ []) in
      (omega (arith, sum.made), sum.undone, sum.failed)

-- The tally of one attempt that began with another.
Counts : Tally → Pushed × Commands → Type 0
Counts b result = Balanced result.0 b (tally result.1)

module _ (sh : Shell) (branch : Text) (b : Tally) where
  -- The end of a push that a hook rejected.
  hook_failure-Counts :
      (created : Bool) (output : Text) (cs : Commands)
      → IsStep b (tally cs) (counted created) 0 0
      → Counts b (hook_failure output, if created then after sh reset_soft cs else cs)
  unfolding Counts Balanced IsStep
  hook_failure-Counts true output cs h =
      let step = after_reset_soft sh cs in
      let one = counted_total (succeeds (sh.run cs reset_soft)) in ground (arith, h, step, one)
  hook_failure-Counts false output cs h = ground (arith, h)

  push_rejected-Counts :
      (created : Bool) (output : Text) (cs : Commands)
      → IsStep b (tally cs) (counted created) 0 0
      → Counts b (push_rejected sh created output cs)
  unfolding push_rejected Balanced Counts IsStep
  push_rejected-Counts created output cs h =
      elim (Bool-cases (mentions sh already_up_to_date output)) [
        | inl x ↦ rw (push_rejected, x) (ground (arith, h))
        | inr x ↦ elim (Bool-cases (mentions sh hook_keywords output)) [
          | inl y ↦ rw (push_rejected, x, y) (hook_failure-Counts created output cs h)
          | inr y ↦ rw (push_rejected, x, y) (ground (arith, h))
        ]
      ]

  run_push-Counts :
      (created : Bool) (cs : Commands)
      → IsStep b (tally cs) (counted created) 0 0
      → Counts b (run_push sh branch created cs)
  unfolding run_push Counts Balanced IsStep
  run_push-Counts created cs h =
      let answer = sh.run cs (push branch) in
      let step = after_push sh cs branch in
      elim (Bool-cases (succeeds answer)) [
        | inl x ↦ rw (run_push, x) (ground (arith, h, step))
        | inr x ↦
            rw (run_push, x)
              (push_rejected-Counts created (output_of answer) (after sh (push branch) cs)
                (ground (arith, h, step)))
      ]

  run_commit-Counts :
      (message : Text) (no_verify : Bool) (cs : Commands)
      → IsStep b (tally cs) 0 0 0
      → Counts b (run_commit sh message branch no_verify cs)
  unfolding run_commit Counts Balanced IsStep
  run_commit-Counts message no_verify cs h =
      let answer = sh.run cs (commit message no_verify) in
      let cs' = after sh (commit message no_verify) cs in
      let step = after_commit sh cs message no_verify in
      elim (Bool-cases (succeeds answer)) [
        | inl x ↦
            let once = ap counted x in
            rw (run_commit, x)
              (run_push-Counts true cs' (
                omega (arith, h.0, step.0, once),
                omega (arith, h.1, step.1),
                omega (arith, h.2, step.2),
              ))
        | inr x ↦
            let never = ap counted x in
            let same : IsStep b (tally cs') 0 0 0 = (
              omega (arith, h.0, step.0, never),
              omega (arith, h.1, step.1),
              omega (arith, h.2, step.2),
            ) in
            elim (Bool-cases (mentions sh nothing_to_commit (output_of answer))) [
              | inl y ↦ rw (run_commit, x, y) (run_push-Counts false cs' same)
              | inr y ↦ elim (Bool-cases (mentions sh hook_keywords (output_of answer))) [
                | inl z ↦ rw (run_commit, x, y, z) (ground (arith, same))
                | inr z ↦ rw (run_commit, x, y, z) (ground (arith, same))
              ]
            ]
      ]

-- An attempt makes at most one commit. If a hook rejects it, at the commit or at the push, the
-- commits that it has made are those that a `git reset --soft` has undone and those that such a
-- reset has failed to undo, so that a commit stays only where the reset itself fails. At every
-- other end nothing is reset.
pub commit_and_push-Balanced :
    (sh : Shell) (message branch : Text) (no_verify : Bool) (cs : Commands)
    → Balanced
        (commit_and_push sh message branch no_verify cs).0
        (tally cs)
        (tally (commit_and_push sh message branch no_verify cs).1)
unfolding commit_and_push Counts Balanced IsStep
commit_and_push-Balanced sh message branch no_verify cs =
    let step = after_add_all sh cs in
    elim (Bool-cases (succeeds (sh.run cs add_all))) [
      | inl x ↦
          rw (commit_and_push, x)
            (run_commit-Counts sh branch (tally cs) message no_verify (after sh add_all cs) step)
      | inr x ↦ rw (commit_and_push, x) (ground (arith, step))
    ]
