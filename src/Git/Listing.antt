-- ===== src/Git/Listing.antt =====
-- What the parser of the worktrees reads back.
use loony_dev.Prelude.{
  text_eq, ℕ, is_space, lstrip, Bool, true, false, List, [], ◌∷◌, ◌++◌, Option, none, some, Text,
  codes, starts_with, rstrip, is_nonempty, ◌≡◌, refl, sym, ap, ◌∙◌, All,
}
use mathlib.Core.List.{append_assoc, reverse, reverse-append, reverse-reverse}
use loony_dev.Git.Porcelain.{
  WorktreeInfo, Current, empty_current, short_branch, nonempty, flush, read_line, read_worktrees,
}

-- The lines of a worktree, as git prints them: its path, then its head, its branch or that it is
-- detached, that it is bare, and an empty line.
head_lines : Option Text → List Text
head_lines none = []
head_lines (some head) = (codes "HEAD " ++ head) ∷ []

branch_lines : Option Text → List Text
branch_lines none = []
branch_lines (some branch) = (codes "branch refs/heads/" ++ branch) ∷ []

flag_lines : Bool → Text → List Text
flag_lines false line = []
flag_lines true line = line ∷ []

-- Before the lines of the other worktrees.
pub print_worktree : WorktreeInfo → List Text → List Text
print_worktree info lines =
    (codes "worktree " ++ info.path)
    ∷ (head_lines info.head
        ++ (branch_lines info.branch
            ++ (flag_lines info.detached (codes "detached")
                ++ (flag_lines info.bare (codes "bare") ++ [] ∷ lines))))

pub print_worktrees : List WorktreeInfo → List Text
unfolding print_worktree
print_worktrees [] = []
print_worktrees (info ∷ infos) = print_worktree info (print_worktrees infos)

-- Texts that can end a line: the last character is no white space.
pub record IsClean (text : Text) : Type 0 where
  pub front : Text
  pub last : ℕ
  pub split : text ≡ front ++ last ∷ []
  pub visible : is_space last ≡ false

lstrip-visible : (c : ℕ) (s : Text) → is_space c ≡ false → lstrip (c ∷ s) ≡ c ∷ s
unfolding lstrip
lstrip-visible c s h = rw (lstrip, h) refl

rstrip-last : (s : Text) (c : ℕ) → is_space c ≡ false → rstrip (s ++ c ∷ []) ≡ s ++ c ∷ []
unfolding rstrip
rstrip-last s c h =
    ap (λ r. reverse (lstrip r)) (reverse-append s (c ∷ []))
    ∙ ap reverse (lstrip-visible c (reverse s) h)
    ∙ ap reverse (sym (reverse-append s (c ∷ [])))
    ∙ reverse-reverse (s ++ c ∷ [])

rstrip-clean : (prefix text : Text) → IsClean text → rstrip (prefix ++ text) ≡ prefix ++ text
rstrip-clean prefix text h =
    let whole : prefix ++ text ≡ (prefix ++ h.front) ++ h.last ∷ [] =
      ap (λ t. prefix ++ t) h.split ∙ sym (append_assoc prefix h.front (h.last ∷ [])) in
    ap rstrip whole ∙ rstrip-last (prefix ++ h.front) h.last h.visible ∙ sym whole

nonempty-last : (s : Text) (c : ℕ) → nonempty (some (s ++ c ∷ [])) ≡ some (s ++ c ∷ [])
unfolding nonempty
nonempty-last [] c = refl
nonempty-last (x ∷ s) c = refl

nonempty-clean : (text : Text) → IsClean text → nonempty (some text) ≡ some text
nonempty-clean text h =
    ap (λ t. nonempty (some t)) h.split
    ∙ nonempty-last h.front h.last
    ∙ ap (λ t. some t) (sym h.split)

read_worktrees-line :
    (line : Text) (lines : List Text) (current : Current)
    → rstrip line ≡ line
    → is_nonempty line ≡ true
    → read_worktrees (line ∷ lines) current ≡ read_worktrees lines (read_line line current)
unfolding read_worktrees
read_worktrees-line line lines current clean some_ = rw (read_worktrees, clean, some_) refl

-- The optional texts of a worktree, and those that can end a line.
abbrev pub CleanOption : Option Text → Type 0
CleanOption none = Unit {0}
CleanOption (some text) = IsClean text

abbrev full_branch : Option Text → Option Text
full_branch none = none
full_branch (some branch) = some (codes "refs/heads/" ++ branch)

abbrev current_of : Text → Option Text → Option Text → Bool → Bool → Current
current_of path head branch detached bare = record {
  path = some path;
  branch = full_branch branch;
  head = head;
  detached = detached;
  bare = bare;
}

module _ (path : Text) (lines : List Text) where
  after_bare :
      (head branch : Option Text) (detached bare : Bool)
      → read_worktrees
          (flag_lines bare (codes "bare") ++ [] ∷ lines)
          (current_of path head branch detached false)
        ≡ flush (current_of path head branch detached bare) ++ read_worktrees lines empty_current
  unfolding flag_lines read_worktrees rstrip lstrip read_line starts_with text_eq is_space
  after_bare head branch detached false = refl
  after_bare head branch detached true = refl

  after_detached :
      (head branch : Option Text) (detached bare : Bool)
      → read_worktrees
          (flag_lines detached (codes "detached") ++ (flag_lines bare (codes "bare") ++ [] ∷ lines))
          (current_of path head branch false false)
        ≡ flush (current_of path head branch detached bare) ++ read_worktrees lines empty_current
  unfolding flag_lines read_worktrees rstrip lstrip read_line starts_with text_eq is_space
  after_detached head branch false bare = after_bare head branch false bare
  after_detached head branch true bare = after_bare head branch true bare

  after_branch :
      (head branch : Option Text) (detached bare : Bool)
      → CleanOption branch
      → read_worktrees
          (branch_lines branch
            ++ (flag_lines detached (codes "detached")
                ++ (flag_lines bare (codes "bare") ++ [] ∷ lines)))
          (current_of path head none false false)
        ≡ flush (current_of path head branch detached bare) ++ read_worktrees lines empty_current
  unfolding branch_lines read_line starts_with
  after_branch head none detached bare clean = after_detached head none detached bare
  after_branch head (some branch) detached bare clean =
      read_worktrees-line (codes "branch refs/heads/" ++ branch) _ _
        (rstrip-clean (codes "branch refs/heads/") branch clean) refl
      ∙ after_detached head (some branch) detached bare

  after_head :
      (head branch : Option Text) (detached bare : Bool)
      → CleanOption head
      → CleanOption branch
      → read_worktrees
          (head_lines head
            ++ (branch_lines branch
                ++ (flag_lines detached (codes "detached")
                    ++ (flag_lines bare (codes "bare") ++ [] ∷ lines))))
          (current_of path none none false false)
        ≡ flush (current_of path head branch detached bare) ++ read_worktrees lines empty_current
  unfolding head_lines read_line starts_with
  after_head none branch detached bare hc bc = after_branch none branch detached bare bc
  after_head (some head) branch detached bare hc bc =
      read_worktrees-line (codes "HEAD " ++ head) _ _ (rstrip-clean (codes "HEAD ") head hc) refl
      ∙ after_branch (some head) branch detached bare bc

nonempty-option : (o : Option Text) → CleanOption o → nonempty o ≡ o
unfolding nonempty
nonempty-option none h = refl
nonempty-option (some text) h = nonempty-clean text h

short_branch-full : (branch : Option Text) → short_branch (full_branch branch) ≡ branch
unfolding short_branch starts_with
short_branch-full none = refl
short_branch-full (some branch) = refl

flush_lem :
    (path : Text) (head branch : Option Text) (detached bare : Bool)
    → IsClean path
    → CleanOption head
    → flush (current_of path head branch detached bare)
      ≡ record { path = path; branch = branch; head = head; detached = detached; bare = bare } ∷ []
unfolding flush
flush_lem path head branch detached bare pc hc =
    rw (flush, nonempty-clean path pc, nonempty-option head hc, short_branch-full branch) refl

-- A worktree whose path, head and branch can end a line.
pub record IsPrintable (info : WorktreeInfo) : Type 0 where
  pub path_clean : IsClean info.path
  pub head_clean : CleanOption info.head
  pub branch_clean : CleanOption info.branch

one_worktree :
    (info : WorktreeInfo) (lines : List Text)
    → IsPrintable info
    → read_worktrees (print_worktree info lines) empty_current
      ≡ info ∷ read_worktrees lines empty_current
unfolding print_worktree read_line starts_with
one_worktree info lines h =
    read_worktrees-line (codes "worktree " ++ info.path) _ empty_current
      (rstrip-clean (codes "worktree ") info.path h.path_clean) refl
    ∙ after_head info.path lines info.head info.branch info.detached info.bare h.head_clean
        h.branch_clean
    ∙ ap (λ infos. infos ++ read_worktrees lines empty_current)
        (flush_lem info.path info.head info.branch info.detached info.bare h.path_clean
          h.head_clean)

-- The lines that git prints for worktrees are read back as these worktrees, in order, if no path,
-- head or branch is empty or ends in white space.
pub read_worktrees-print_worktrees :
    (infos : List WorktreeInfo)
    → All IsPrintable infos
    → read_worktrees (print_worktrees infos) empty_current ≡ infos
unfolding read_worktrees print_worktrees flush nonempty
read_worktrees-print_worktrees [] h = refl
read_worktrees-print_worktrees (info ∷ infos) (here, rest) =
    one_worktree info (print_worktrees infos) here
    ∙ ap (λ rest. info ∷ rest) (read_worktrees-print_worktrees infos rest)
