-- ===== src/Repository/Lifecycle.antt =====
-- `PullRequest.terminal_state`, `Issue.is_closed` and `Repo.find_pr_for_issue`. `str.upper` is a
-- parameter.
use loony_dev.Prelude.{
  ℤ, pos, Bool, true, false, ◌||◌, List, [], ◌∷◌, Option, none, some, if◌then◌else◌, Text, codes,
  text_eq, text_lt, keep, is_nonempty, eqb_ℤ, not,
}
use loony_dev.Prelude.Sorting.{sort_by}
use loony_dev.Prelude.Values.{
  Json, null, bool, int, float, str, arr, obj, nil, cons, end, field, get, get_default, Python,
  str_of,
}
use loony_dev.Github.Client.{Result, ok, raise, value_error}
use loony_dev.Tasks.Due.{◌>>=◌}

-- `bool(x)`
unfoldable pub truthy : Json → Bool
truthy null = false
truthy (bool b) = b
truthy (int z) = not (eqb_ℤ z (pos 0))
truthy (float z) = not (eqb_ℤ z (pos 0))
truthy (str t) = is_nonempty t
truthy (arr nil) = false
truthy (arr (cons x xs)) = true
truthy (obj end) = false
truthy (obj (field k v fs)) = true

module _ (py : Python) (upper : Text → Text) where
  -- `data.get("mergedAt")` is true, and else the state decides.
  unfoldable pub state_of_pr : Json → Result Text
  unfolding truthy
  state_of_pr (obj data_) =
      let state = upper (str_of py (get_default (codes "state") data_ (str []))) in
      if truthy (get_default (codes "mergedAt") data_ null)
      then ok (codes "merged")
      else if text_eq state (codes "CLOSED")
      then ok (codes "closed")
      else if text_eq state (codes "OPEN")
      then ok (codes "open")
      else raise value_error
  state_of_pr _ = raise value_error

  unfoldable pub terminal_state : Result Json → Result Text
  unfolding state_of_pr
  terminal_state answer = answer >>= state_of_pr

  abbrev closed_by : Option Json → Result Bool
  closed_by none = raise value_error
  closed_by (some value) =
      let state = upper (str_of py value) in
      if text_eq state (codes "OPEN") || text_eq state (codes "CLOSED")
      then ok (text_eq state (codes "CLOSED"))
      else raise value_error

  unfoldable pub state_of_issue : Json → Result Bool
  state_of_issue (obj data_) = closed_by (get (codes "state") data_)
  state_of_issue _ = raise value_error

  unfoldable pub is_closed : Result Json → Result Bool
  unfolding state_of_issue
  is_closed answer = answer >>= state_of_issue

-- An entry of `gh pr list`, with the keys that are missing.
pub record FoundPr : Type 0 where
  pub number : ℤ
  pub created_at : Option Text
  pub state : Option Text

abbrev pub or_empty : Option Text → Text
or_empty none = []
or_empty (some t) = t

unfoldable pub is_merged : FoundPr → Bool
is_merged p = text_eq (or_empty p.state) (codes "MERGED")

-- `key=createdAt, reverse=True`
unfoldable pub created_later : FoundPr → FoundPr → Bool
created_later p q = text_lt (or_empty q.created_at) (or_empty p.created_at)

-- `merged if merged else data`
unfoldable pub candidates : List FoundPr → List FoundPr
unfolding is_merged
candidates found = if is_nonempty (keep is_merged found) then keep is_merged found else found

unfoldable pub first_number : List FoundPr → Option ℤ
first_number [] = none
first_number (p ∷ ps) = some p.number

-- The outcome of one search; `none` is `CalledProcessError`.
unfoldable pub searched : Option (List FoundPr) → Option ℤ
unfolding first_number candidates
searched none = none
searched (some found) = first_number (sort_by created_later (candidates found))

abbrev pub or_else : Option ℤ → Option ℤ → Option ℤ
or_else none other = other
or_else (some n) other = some n

-- The search in the titles, then the search anywhere.
unfoldable pub find_pr_for_issue : Option (List FoundPr) → Option (List FoundPr) → Option ℤ
unfolding searched
find_pr_for_issue in_title anywhere = or_else (searched in_title) (searched anywhere)
