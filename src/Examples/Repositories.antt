-- ===== src/Examples/Repositories.antt =====
-- The theorems on the caches, the retries and the search of a pull request, at concrete inputs.
use native.Mathlib.Omega.{arith}
use loony_dev.Prelude.Sorting.{sort_by}
use loony_dev.Prelude.{
  ◌==◌, if◌then◌else◌, text_eq, ltb, if◌then◌else◌, ℕ, ◌+◌, ◌≤◌, ◌<◌, pos, ◌||◌, [], ◌∷◌, List,
  none, some, Text, codes, mem_text, ◌≡◌, refl, ◌⊎◌,
}
use loony_dev.Github.Retry.{run_gh, Reply, returned, failed}
use loony_dev.Github.Backoff.{Finishes, run_gh-Finishes}
use loony_dev.Repository.Roles.{permitted}
use loony_dev.Repository.Permissions.{
  Collaborators, PermissionCache, permission_of, get_user_permission, Access, is_authorized,
}
use loony_dev.Repository.Freshness
use loony_dev.Repository.Freshness.{is_authorized-IsRecent}
use loony_dev.Repository.CheckRuns.{Answer, check_runs, list_failing, CheckRunsCache}
use loony_dev.Repository.Settled
use loony_dev.Repository.Settled.{IsComplete, uncached, list_failing-IsSettled}
use loony_dev.Repository.Lifecycle.{FoundPr, find_pr_for_issue, searched}
use loony_dev.Repository.Newest.{IsChosen, find_pr_for_issue-IsChosen}
use loony_dev.Examples.Samples.{python_with, bot_lease}

-- A collaborator until tick 5.
abbrev gh : Collaborators
gh t user = if ltb t 5 then some (codes "write") else none

abbrev access : Access
access = record { allowed_users = []; min_role = codes "triage"; permission_cache_ttl = 600 }

abbrev cache : PermissionCache
cache = (get_user_permission gh 600 0 (codes "ann") []).1

cache_Reach : Freshness.Reach gh 600 10 cache
cache_Reach =
    Freshness.Reach.wait (omega arith) (Freshness.Reach.ask (codes "ann") Freshness.Reach.start)

recent_example :
    (t : ℕ) × (t ≤ 10)
    × ((10 < t + 600) ⊎ (t ≡ 10))
    × ((is_authorized gh access 10 (codes "ann") cache).0 ≡ (
        mem_text (codes "ann") []
        || permitted (codes "triage") (permission_of (gh t (codes "ann")))))
recent_example = is_authorized-IsRecent gh access 10 cache (codes "ann") cache_Reach

abbrev gh_api : ℕ → Text → Answer
gh_api t head_sha = check_runs []

abbrev runs_cache : CheckRunsCache
runs_cache = (list_failing gh_api [] 600 0 (codes "abc") []).1

runs_cache_Reach : Settled.Reach gh_api [] 600 10 runs_cache
runs_cache_Reach =
    Settled.Reach.wait (omega arith) (Settled.Reach.ask (codes "abc") Settled.Reach.start)

settled_example :
    (t : ℕ) × (t ≤ 10)
    × ((t ≡ 10) ⊎ ((10 < t + 600) × IsComplete (gh_api t (codes "abc"))))
    × ((list_failing gh_api [] 600 10 (codes "abc") runs_cache).0
        ≡ uncached [] (gh_api t (codes "abc")))
settled_example = list_failing-IsSettled gh_api [] 600 10 runs_cache (codes "abc") runs_cache_Reach

-- A timeout, and then an answer.
abbrev replies : ℕ → Reply
replies n =
    if n == 0
    then failed (record { stdout = none; stderr = some (codes "HTTP 502: timeout") })
    else returned (codes "done")

backoff_example :
    Finishes
      (python_with bot_lease)
      replies
      (pos 5)
      2
      (run_gh (python_with bot_lease) (pos 5) 2 replies)
backoff_example = run_gh-Finishes (python_with bot_lease) (pos 5) 2 replies

abbrev open_pr : FoundPr
open_pr = record {
  number = pos 8;
  created_at = some (codes "2026-02-01");
  state = some (codes "OPEN");
}

abbrev merged_pr : FoundPr
merged_pr = record {
  number = pos 7;
  created_at = some (codes "2026-01-01");
  state = some (codes "MERGED");
}

-- The merged one, though the open one is newer.
found_merged : find_pr_for_issue (some (open_pr ∷ merged_pr ∷ [])) none ≡ some (pos 7)
unfolding find_pr_for_issue searched sort_by text_eq
found_merged = refl

search_example :
    (found : List FoundPr) × ((some (open_pr ∷ merged_pr ∷ []) ≡ some found)
      ⊎ ((searched (some (open_pr ∷ merged_pr ∷ [])) ≡ none) × (none ≡ some found)))
    × (p : FoundPr) × (p.number ≡ pos 7)
    × IsChosen found p
search_example =
    find_pr_for_issue-IsChosen (some (open_pr ∷ merged_pr ∷ [])) none (pos 7) found_merged
