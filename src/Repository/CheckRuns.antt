-- ===== src/Repository/CheckRuns.antt =====
-- `CheckRun.list_failing` of loony_dev/github/check_run.py, with its cache.
use loony_dev.Prelude.{
  ℕ, Bool, ◌&&◌, List, [], ◌∷◌, Option, none, some, if◌then◌else◌, Text, codes, text_eq, mem_text,
  all_of,
}
use loony_dev.Prelude.Dictionary.{Dict, lookup, insert}
use loony_dev.Github.Items.{CheckRun}
use loony_dev.Repository.Permissions.{is_fresh, stale_keys, delete_all}

-- A key of an object that may be missing (`none`) or null (`some none`).
abbrev pub Key : Type 0
Key = Option (Option Text)

-- A check run as the service reports it. A name that is given is a string; where a status or a
-- conclusion is null or missing makes no difference.
pub record Payload : Type 0 where
  pub name : Option Text
  pub status : Option Text
  pub conclusion : Option Text
  pub details_url : Key
  pub html_url : Key

-- The answer of `gh_api`: `CalledProcessError`, a value that is no object, or the check runs.
pub data Answer : Type 0 where
  called_process_error not_a_dict : Answer
  check_runs : List Payload → Answer

pub record CheckRunsCacheEntry : Type 0 where
  pub failing_runs : List CheckRun
  pub all_completed : Bool
  pub cached_at : ℕ

abbrev pub CheckRunsCache : Type 0
CheckRunsCache = Dict CheckRunsCacheEntry

-- `run.get(key, default)`
abbrev with_default : Option Text → Text → Text
with_default none d = d
with_default (some t) d = t

-- `run.get("details_url", run.get("html_url", ""))`, which keeps a null
abbrev url_of : Key → Key → Option Text
url_of (some url) html_url = url
url_of none (some url) = url
url_of none none = some []

unfoldable pub is_completed : Payload → Bool
unfolding text_eq
is_completed run = text_eq (with_default run.status []) (codes "completed")

unfoldable pub is_failing : Payload → Bool
unfolding is_completed
is_failing run =
    is_completed run
    && mem_text (with_default run.conclusion []) (codes "failure" ∷ codes "timed_out" ∷ [])

unfoldable pub check_run_of : Payload → CheckRun
check_run_of run = record {
  name = with_default run.name [];
  status = with_default run.status [];
  conclusion = with_default run.conclusion [];
  details_url = url_of run.details_url run.html_url;
}

unfoldable pub failing_runs_of : List Text → List Payload → List CheckRun
unfolding is_failing check_run_of
failing_runs_of skip_ci_checks [] = []
failing_runs_of skip_ci_checks (run ∷ runs) =
    let rest = failing_runs_of skip_ci_checks runs in
    if mem_text (with_default run.name []) skip_ci_checks
    then rest
    else if is_failing run
    then check_run_of run ∷ rest
    else rest

unfoldable pub entry_of : List Text → ℕ → List Payload → CheckRunsCacheEntry
unfolding failing_runs_of
entry_of skip_ci_checks now runs = record {
  failing_runs = failing_runs_of skip_ci_checks runs;
  all_completed = all_of is_completed runs;
  cached_at = now;
}

module _ (gh_api : ℕ → Text → Answer) (skip_ci_checks : List Text) (ttl now : ℕ) where
  store : Text → Answer → CheckRunsCache → List CheckRun × CheckRunsCache
  unfolding entry_of
  store head_sha called_process_error cache = ([], cache)
  store head_sha not_a_dict cache = ([], cache)
  store head_sha (check_runs runs) cache =
      let entry = entry_of skip_ci_checks now runs in
      (entry.failing_runs, insert head_sha entry cache)

  unfoldable pub fetch_check_runs : Text → CheckRunsCache → List CheckRun × CheckRunsCache
  unfolding store
  fetch_check_runs head_sha cache = store head_sha (gh_api now head_sha) cache

  unfoldable pub list_failing : Text → CheckRunsCache → List CheckRun × CheckRunsCache
  unfolding fetch_check_runs
  list_failing head_sha cache = elim (lookup head_sha cache) [
    | none ↦ fetch_check_runs head_sha cache
    | some entry ↦
        if entry.all_completed && is_fresh ttl now entry.cached_at
        then (entry.failing_runs, cache)
        else fetch_check_runs head_sha cache
  ]

unfoldable pub evict_stale_check_runs_cache : ℕ → ℕ → CheckRunsCache → CheckRunsCache
unfolding stale_keys delete_all
evict_stale_check_runs_cache ttl now cache =
    delete_all (stale_keys (λ entry. entry.cached_at) ttl now cache) cache
