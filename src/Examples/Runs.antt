-- ===== src/Examples/Runs.antt =====
-- The theorems on git and on the agents, at concrete inputs.
use native.Mathlib.Omega.{arith}
use loony_dev.Prelude.{
  ℕ, ◌≤◌, ◌<◌, ◌*◌, pos, ℤ, ◌+ℤ◌, leb_ℤ, true, false, [], ◌∷◌, none, some, if◌then◌else◌, codes,
  ◌≡◌, refl,
}
use loony_dev.Prelude.Values.{ticks_per_second}
use loony_dev.Git.Commit.{
  Command, Completed, add_all, commit, push, reset_soft, Shell, commit_and_push,
}
use loony_dev.Git.Undo.{Balanced, tally, commit_and_push-Balanced}
use loony_dev.Git.Porcelain.{WorktreeInfo, read_worktrees, empty_current}
use loony_dev.Git.Listing.{print_worktrees, IsPrintable, read_worktrees-print_worktrees}
use loony_dev.Prelude.{is_space, ap}
use loony_dev.Agents.Quota.{parse_time, Clock, day, handle_quota_error, is_disabled}
use loony_dev.Agents.Cooldown.{Announces, handle_quota_error-Announces}
use loony_dev.Agents.Turns.{World, Work, no_issues}
use loony_dev.Agents.Coding.{Plan, execute_issue}
use loony_dev.Agents.Quiet.{loud}
use loony_dev.Agents.Opened.{is_success}
use loony_dev.Agents.Published.{Story, execute_issue-Story}
use loony_dev.Examples.Handlers.{ready}

-- The answers of a git whose pushes a hook rejects, and whose resets fail.
abbrev stuck_answer : Command → Completed
stuck_answer add_all = record { returncode = pos 0; stdout = []; stderr = [] }
stuck_answer (commit message no_verify) = record { returncode = pos 0; stdout = []; stderr = [] }
stuck_answer (push branch) = record { returncode = pos 1; stdout = []; stderr = codes "pre-push" }
stuck_answer reset_soft = record { returncode = pos 128; stdout = []; stderr = [] }

abbrev stuck_shell : Shell
stuck_shell = record { run = λ cs c. stuck_answer c; lower = λ t. t }

-- Git answers every command with this.
abbrev shell : Shell
shell = record {
  run = λ cs c. record { returncode = pos 0; stdout = []; stderr = [] };
  lower = λ t. t;
}

commit_example :
    let result = commit_and_push stuck_shell (codes "feat: x") (codes "issue-1/x") false [] in
    Balanced result.0 (tally []) (tally result.1)
commit_example = commit_and_push-Balanced stuck_shell (codes "feat: x") (codes "issue-1/x") false []

abbrev worktree : WorktreeInfo
worktree = record {
  path = codes "/w/issue-1";
  branch = some (codes "issue-1/x");
  head = some (codes "abc");
  detached = false;
  bare = false;
}

worktree-IsPrintable : IsPrintable worktree
unfolding is_space
worktree-IsPrintable = record {
  path_clean = record { front = codes "/w/issue-"; last = 49; split = refl; visible = refl };
  head_clean = record { front = codes "ab"; last = 99; split = refl; visible = refl };
  branch_clean = record { front = codes "issue-1/"; last = 120; split = refl; visible = refl };
}

listing_example : read_worktrees (print_worktrees (worktree ∷ [])) empty_current ≡ worktree ∷ []
listing_example = read_worktrees-print_worktrees (worktree ∷ []) (worktree-IsPrintable, tt)

-- A zone at UTC where it is midnight, and a message with a reset at 2 p.m.
abbrev clock : Clock
clock = record {
  search_reset = λ text. some (codes "2pm", codes "UTC");
  strptime = λ text fmt. some (14, 0);
  lower = λ t. t;
  upper = λ t. t;
  now = pos 0;
  local_now = λ tz. some 0;
  utc_of = λ tz local. pos 0 +ℤ pos local;
}

announced : Announces clock [] (codes "2pm") (codes "UTC") 0 14 0
unfolding parse_time
announced = record {
  matched = refl;
  zone_known = refl;
  time_parsed = refl;
  hour_bound = omega arith;
  minute_bound = omega arith;
  steady = λ d le. ap (λ n. pos 0 +ℤ pos n) (omega arith);
}

cooldown_example :
    let until = handle_quota_error clock (pos 1800) [] in
    (d : ℕ) × (0 < d)
    × (d ≤ day)
    × (until ≡ (pos 0 +ℤ pos d) +ℤ pos (30 * ticks_per_second))
    × ((t : ℤ)
        → is_disabled t (some until)
          ≡ (if leb_ℤ until t then (false, none) else (true, some until)))
cooldown_example =
    handle_quota_error-Announces clock (pos 1800) [] (codes "2pm") (codes "UTC") 0 14 0 announced

abbrev world : World
world = record {
  clock = clock;
  fallback = pos 1800;
  answer = λ w flag prompt. record { returncode = pos 0; stdout = codes "done"; stderr = [] };
  fenced = λ w. false;
  command_turn = λ name. some name;
  run_review = λ w. no_issues;
  shell = shell;
  diff = λ w. true;
  pr_create = λ w title. record { returncode = pos 0; stdout = []; stderr = [] };
  shown = λ z. codes "0";
}

abbrev plan : Plan
plan = record {
  max_review = 3;
  max_commits = 3;
  cr_available = true;
  branch = codes "issue-1/x";
  session_id = codes "s";
}

abbrev idle : Work
idle = record { events = []; commands = []; disabled_until = none }

run_example :
    Story world plan ready
      (loud idle)
      (is_success (execute_issue world plan ready idle).0)
      (loud (execute_issue world plan ready idle).1)
run_example = execute_issue-Story world plan ready idle
