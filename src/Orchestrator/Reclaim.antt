-- ===== src/Orchestrator/Reclaim.antt =====
-- `_reclaim_completed_pipelines`, `_pipeline_is_complete` and `_release_all_pipeline_worktrees`.
use loony_dev.Prelude.{
  ℤ, Bool, false, ◌||◌, List, [], ◌∷◌, Option, none, some, if◌then◌else◌, Text, codes, text_eq,
  mem_text, starts_with, drop, length,
}
use loony_dev.Prelude.Dictionary.{remove}
use loony_dev.Prelude.Values.{Json, Python}
use loony_dev.Github.Client.{Result, ok, raise, value_error}
use loony_dev.Tasks.Due.{◌>>=◌}
use loony_dev.Repository.Lifecycle.{terminal_state, is_closed, FoundPr, find_pr_for_issue}
use loony_dev.Orchestrator.Sessions.{PipelineSession, Sessions, Trace, Checkout, remove_worktree_at}

-- What the reclaimer asks: `gh pr view`, `gh issue view`, the two searches; and `int` and `upper`
-- of Python on a text.
pub record Lifecycle : Type 0 where
  pub py : Python
  pub upper : Text → Text
  pub int_of : Text → Option ℤ
  pub view_pr : ℤ → Result Json
  pub view_issue : ℤ → Result Json
  pub search_title : ℤ → Option (List FoundPr)
  pub search_any : ℤ → Option (List FoundPr)

abbrev number_in : Lifecycle → Text → Text → Result ℤ
number_in gh prefix key = elim (gh.int_of (drop (length prefix) key)) [
  | none ↦ raise value_error
  | some n ↦ ok n
]

unfoldable pub pr_is_done : Lifecycle → ℤ → Result Bool
unfolding terminal_state
pr_is_done gh n = terminal_state gh.py gh.upper (gh.view_pr n) >>= λ state.
    ok (text_eq state (codes "merged") || text_eq state (codes "closed"))

unfoldable pub issue_is_done : Lifecycle → ℤ → Result Bool
unfolding pr_is_done find_pr_for_issue is_closed
issue_is_done gh n = elim (find_pr_for_issue (gh.search_title n) (gh.search_any n)) [
  | some pr ↦ pr_is_done gh pr
  | none ↦ is_closed gh.py gh.upper (gh.view_issue n)
]

unfoldable pub pipeline_is_complete : Lifecycle → Text → Result Bool
unfolding issue_is_done
pipeline_is_complete gh key =
    if starts_with (codes "pr-") key
    then number_in gh (codes "pr-") key >>= pr_is_done gh
    else if starts_with (codes "issue-") key
    then number_in gh (codes "issue-") key >>= issue_is_done gh
    else ok false

-- `done` and not an exception
abbrev pub is_done : Result Bool → Bool
is_done (ok done) = done
is_done (raise e) = false

module _ (git : Checkout) (claimed : List Text) (is_complete : Text → Result Bool) where
  -- The worktree is removed, and with it the session, unless the removal fails.
  unfoldable pub reclaim : Text → PipelineSession → Sessions × Trace → Sessions × Trace
  unfolding remove_worktree_at
  reclaim key ps (sessions, tr) =
      let (removed, tr') = remove_worktree_at git ps.worktree_path tr in
      (if removed then remove key sessions else sessions, tr')

  unfoldable pub reclaim_one : Text → PipelineSession → Sessions × Trace → Sessions × Trace
  unfolding reclaim
  reclaim_one key ps (sessions, tr) =
      if mem_text key claimed
      then (sessions, tr)
      else if is_done (is_complete key)
      then reclaim key ps (sessions, tr)
      else (sessions, tr)

  unfoldable pub reclaim_items : Sessions → Sessions × Trace → Sessions × Trace
  unfolding reclaim_one
  reclaim_items [] state = state
  reclaim_items ((key, ps) ∷ items) state = reclaim_items items (reclaim_one key ps state)

  -- `_reclaim_completed_pipelines`, over the items of the map at the start.
  unfoldable pub reclaim_completed_pipelines : Sessions → Trace → Sessions × Trace
  unfolding reclaim_items
  reclaim_completed_pipelines sessions tr = reclaim_items sessions (sessions, tr)

-- The loop of `_release_all_pipeline_worktrees`.
unfoldable pub release_worktrees : Checkout → Sessions → Trace → Trace
unfolding remove_worktree_at
release_worktrees git [] tr = tr
release_worktrees git ((key, ps) ∷ items) tr =
    let released = release_worktrees git items (remove_worktree_at git ps.worktree_path tr).1 in
    let skipped = release_worktrees git items tr in if ps.live then released else skipped

-- The map is emptied before the loop.
unfoldable pub release_all_pipeline_worktrees : Checkout → Sessions → Trace → Sessions × Trace
unfolding release_worktrees
release_all_pipeline_worktrees git sessions tr = ([], release_worktrees git sessions tr)
