-- ===== src/Slug.antt =====
-- Slugs: `_slugify` of loony_dev/tasks/base.py and `task_slug` of loony_dev/session_registry.py.
use mathlib.Core.List.{reverse}
use loony_dev.Prelude.{
  ℕ, Bool, true, false, ◌&&◌, ◌||◌, [], ◌∷◌, ◌++◌, leb, ◌==◌, Text, codes, take,
}
use loony_dev.Prelude.Values.{Python}

abbrev dash : ℕ
dash = b'-'

abbrev is_alnum_lower : ℕ → Bool
is_alnum_lower c = (leb b'a' c && leb c b'z') || (leb b'0' c && leb c b'9')

abbrev is_alnum : ℕ → Bool
is_alnum c = is_alnum_lower c || (leb b'A' c && leb c b'Z')

-- `re.sub("[^...]+", "-", text)`, for the class of the characters with `ok`; `inside` says
-- whether a run is being read.
unfoldable pub collapse : (ℕ → Bool) → Bool → Text → Text
collapse ok inside [] = []
collapse ok inside (c ∷ s) = elim (ok c) [
  | true ↦ c ∷ collapse ok false s
  | false ↦ elim inside [ true ↦ collapse ok true s | false ↦ dash ∷ collapse ok true s ]
]

-- `text.lstrip("-")`, `text.rstrip("-")` and `text.strip("-")`
unfoldable pub lstrip_dash : Text → Text
lstrip_dash [] = []
lstrip_dash (c ∷ s) = elim (c == dash) [ true ↦ lstrip_dash s | false ↦ c ∷ s ]

unfoldable pub rstrip_dash : Text → Text
unfolding lstrip_dash
rstrip_dash s = reverse (lstrip_dash (reverse s))

unfoldable pub strip_dash : Text → Text
unfolding rstrip_dash
strip_dash s = rstrip_dash (lstrip_dash s)

abbrev slug_max_length : ℕ
slug_max_length = 50

unfoldable pub slugify : Python → Text → Text
unfolding collapse rstrip_dash strip_dash
slugify py text =
    rstrip_dash (take slug_max_length (strip_dash (collapse is_alnum_lower false (py.lower text))))

unfoldable pub or_task : Text → Text
or_task [] = codes "task"
or_task (c ∷ s) = c ∷ s

unfoldable pub task_slug : Python → Text → Text
unfolding collapse strip_dash or_task
task_slug py key =
    or_task (strip_dash (collapse is_alnum false key)) ++ (codes "-" ++ py.digest key)
