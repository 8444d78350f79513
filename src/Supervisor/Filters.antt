-- ===== src/Supervisor/Filters.antt =====
-- The filters on the repositories, supervisor.py: `_matches_pattern` and `filter_repos`.
-- `fnmatch.fnmatch` is a parameter; a list of patterns that is None is empty.
use loony_dev.Prelude.{
  [], ◌∷◌, not, keep, any_of, ◌∷◌, List, contains, drop, Bool, find, Text, suc, none, some,
  if◌then◌else◌, codes,
}

-- `repo.split("/", 1)[-1]`
unfoldable pub repo_name : Text → Text
unfolding find
repo_name repo = elim (find (codes "/") repo) [ none ↦ repo | some i ↦ drop (suc i) repo ]

module _ (fnmatch : Text → Text → Bool) where
  unfoldable pub matches_pattern : Text → Text → Bool
  unfolding repo_name contains
  matches_pattern repo pattern =
      if contains (codes "/") pattern
      then fnmatch repo pattern
      else fnmatch (repo_name repo) pattern

  unfoldable pub matches_any : List Text → Text → Bool
  unfolding matches_pattern
  matches_any patterns repo = any_of (matches_pattern repo) patterns

  unfoldable pub keep_included : List Text → List Text → List Text
  unfolding matches_any
  keep_included [] repos = repos
  keep_included (p ∷ ps) repos = keep (matches_any (p ∷ ps)) repos

  unfoldable pub drop_excluded : List Text → List Text → List Text
  unfolding matches_any
  drop_excluded [] repos = repos
  drop_excluded (p ∷ ps) repos = keep (λ r. not (matches_any (p ∷ ps) r)) repos

  unfoldable pub filter_repos : List Text → List Text → List Text → List Text
  unfolding keep_included drop_excluded
  filter_repos repos include exclude = drop_excluded exclude (keep_included include repos)
