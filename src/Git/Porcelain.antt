-- ===== src/Git/Porcelain.antt =====
-- `GitRepo.list_worktrees`: the parser of `git worktree list --porcelain`, and the choices of
-- `create_worktree`, `remove_worktree` and `_prune_stale_worktrees` that rest on it. A path is a text.
use loony_dev.Prelude.{
  Bool, true, false, not, ◌&&◌, List, [], ◌∷◌, ◌++◌, Option, none, some, if◌then◌else◌, Text, codes,
  text_eq, starts_with, rstrip, splitlines, drop, length, is_nonempty, any_of, contains, keep,
}
use loony_dev.Git.Commit.{Completed, succeeds}

pub record WorktreeInfo : Type 0 where
  pub path : Text
  pub branch : Option Text
  pub head : Option Text
  pub detached : Bool
  pub bare : Bool

-- The dictionary `current`; a flag that is missing is false.
pub record Current : Type 0 where
  pub path : Option Text
  pub branch : Option Text
  pub head : Option Text
  pub detached : Bool
  pub bare : Bool

abbrev pub empty_current : Current
empty_current = record { path = none; branch = none; head = none; detached = false; bare = false }

-- `line[len(prefix):]`
abbrev pub rest_of : Text → Text → Text
rest_of prefix line = drop (length prefix) line

unfoldable pub short_branch : Option Text → Option Text
short_branch none = none
short_branch (some branch) =
    if starts_with (codes "refs/heads/") branch
    then some (rest_of (codes "refs/heads/") branch)
    else some branch

-- `value if value else None`
unfoldable pub nonempty : Option Text → Option Text
nonempty none = none
nonempty (some []) = none
nonempty (some (c ∷ s)) = some (c ∷ s)

-- What `flush` appends.
unfoldable pub flush : Current → List WorktreeInfo
unfolding nonempty short_branch
flush current = elim (nonempty current.path) [
  | none ↦ []
  | some path ↦
      record {
        path = path;
        branch = short_branch current.branch;
        head = nonempty current.head;
        detached = current.detached;
        bare = current.bare;
      }
      ∷ []
]

unfoldable pub read_line : Text → Current → Current
read_line line current =
    if starts_with (codes "worktree ") line
    then record current { path = some (rest_of (codes "worktree ") line) }
    else if starts_with (codes "HEAD ") line
    then record current { head = some (rest_of (codes "HEAD ") line) }
    else if starts_with (codes "branch ") line
    then record current { branch = some (rest_of (codes "branch ") line) }
    else if text_eq line (codes "detached")
    then record current { detached = true }
    else if text_eq line (codes "bare")
    then record current { bare = true }
    else current

-- The loop over the lines, and the last `flush`.
unfoldable pub read_worktrees : List Text → Current → List WorktreeInfo
unfolding flush read_line
read_worktrees [] current = flush current
read_worktrees (raw ∷ lines) current =
    let line = rstrip raw in
    let blank = flush current ++ read_worktrees lines empty_current in
    let more = read_worktrees lines (read_line line current) in
    if is_nonempty line then more else blank

unfoldable pub list_worktrees : Text → List WorktreeInfo
unfolding read_worktrees
list_worktrees stdout = read_worktrees (splitlines false [] stdout) empty_current

abbrev is_branch : Option Text → Text → Bool
is_branch none branch = false
is_branch (some b) branch = text_eq b branch

-- Whether `create_worktree` finds the worktree in place; `resolve` is `Path.resolve`.
unfoldable pub in_place : (Text → Text) → Text → Text → List WorktreeInfo → Bool
in_place resolve branch path infos =
    any_of (λ info. text_eq (resolve info.path) (resolve path) && is_branch info.branch branch)
      infos

-- The start of the branch of a new worktree.
unfoldable pub start_ref : Option Text → Bool → Text → Text → Text
start_ref (some base) exists branch default_branch = base
start_ref none exists branch default_branch = if exists then branch else default_branch

abbrev missing_worktree_markers : List Text
missing_worktree_markers =
    codes "is not a working tree"
    ∷ codes "not a working tree"
    ∷ codes "no such file or directory"
    ∷ codes "does not exist"
    ∷ codes "is not a valid path"
    ∷ []

-- Whether `remove_worktree` raises: it failed, and not because the worktree is gone.
unfoldable pub removal_failed : (Text → Text) → Completed → Bool
unfolding succeeds contains
removal_failed lower p =
    not (succeeds p)
    && not (
        any_of (λ marker. contains marker (lower (p.stdout ++ (codes "\n" ++ p.stderr))))
          missing_worktree_markers)

-- The worktrees that `_prune_stale_worktrees` removes; `under_root` is false for a path that does
-- not resolve.
unfoldable pub stale_worktrees : (Text → Bool) → List WorktreeInfo → List WorktreeInfo
stale_worktrees under_root infos = keep (λ info. not info.bare && under_root info.path) infos
