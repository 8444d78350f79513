-- ===== src/Tasks/IssueNumber.antt =====
-- `PullRequest.issue_number` of loony_dev/github/pull_request.py; its patterns over ASCII.
use loony_dev.Prelude.{
  ℕ, ◌+◌, Bool, true, false, not, ◌&&◌, ◌||◌, [], ◌∷◌, ◌++◌, Option, none, some, if◌then◌else◌,
  ◌==◌, leb, Text, codes, starts_with, drop, is_space, ◌≡◌, refl, arith, All, int_of, pos, print_ℕ,
  is_digit, IsDigit, print_ℕ-IsDigit, int_of-print_ℕ, lstrip,
}
use loony_dev.Github.Items.{PullRequest}

-- The digits at the head of a text, and what follows them.
unfoldable pub span_digits : Text → Text × Text
span_digits [] = ([], [])
span_digits (c ∷ s) = elim (is_digit c) [
  | true ↦ let (ds, rest) = span_digits s in (c ∷ ds, rest)
  | false ↦ ([], c ∷ s)
]

-- `int(group)` of a group of digits, `none` for an empty one.
unfoldable pub number_of : Text → Option ℕ
number_of ds = elim (int_of ds) [ some z ↦ elim z [ pos n ↦ some n | _ ↦ none ] | none ↦ none ]

unfoldable pub followed_by : ℕ → Text × Text → Option ℕ
followed_by c (ds, []) = none
followed_by c (ds, d ∷ rest) = if d == c then number_of ds else none

-- `^issue-(\d+)/`
unfoldable pub branch_issue : Text → Option ℕ
unfolding followed_by
branch_issue branch =
    if starts_with (codes "issue-") branch
    then followed_by b'/' (span_digits (drop 6 branch))
    else none

unfoldable pub is_word : ℕ → Bool
is_word c = is_digit c || (leb b'a' c && leb c b'z') || (leb b'A' c && leb c b'Z') || c == b'_'

unfoldable pub lower_ascii : ℕ → ℕ
lower_ascii c = if leb b'A' c && leb c b'Z' then c + 32 else c

-- Whether the text begins with a word in lower case, in any case; and what follows it.
unfoldable pub after_word : Text → Text → Option Text
after_word [] s = some s
after_word (w ∷ ws) [] = none
after_word (w ∷ ws) (c ∷ s) = elim (lower_ascii c == w) [ true ↦ after_word ws s | false ↦ none ]

-- The end of the text, or a character that is part of no word.
unfoldable pub at_boundary : Text → Bool
at_boundary [] = true
at_boundary (c ∷ s) = not (is_word c)

unfoldable pub bounded : Text × Text → Option ℕ
bounded (ds, rest) = if at_boundary rest then number_of ds else none

-- `\s+#(\d+)\b`
unfoldable pub reference : Text → Option ℕ
reference [] = none
reference (c ∷ s) =
    if is_space c
    then elim (lstrip s) [
      | [] ↦ none
      | d ∷ rest ↦ if d == b'#' then bounded (span_digits rest) else none
    ]
    else none

abbrev first_of : Option ℕ → Option ℕ → Option ℕ
first_of none later = later
first_of (some n) later = some n

unfoldable pub referred : Option Text → Option ℕ
referred none = none
referred (some s) = reference s

unfoldable pub keyword : Text → Option ℕ
keyword s = first_of (referred (after_word (codes "closes") s)) (
    first_of (referred (after_word (codes "fixes") s)) (referred (after_word (codes "resolves") s)))

-- `(?i)\b(?:closes|fixes|resolves)\s+#(\d+)\b`, searched; `start` says that a word may begin here.
unfoldable pub body_issue : Bool → Text → Option ℕ
unfolding keyword referred reference after_word bounded at_boundary is_word lower_ascii
body_issue start [] = none
body_issue start (c ∷ s) =
    first_of (if start then keyword (c ∷ s) else none) (body_issue (not (is_word c)) s)

unfoldable pub closed : Text × Text → Option ℕ
closed (ds, []) = none
closed (ds, c ∷ rest) =
    if c == b')' then elim (lstrip rest) [ [] ↦ number_of ds | _ ∷ _ ↦ none ] else none

-- `\(#(\d+)\)\s*$`, searched
unfoldable pub title_issue : Text → Option ℕ
unfolding closed
title_issue [] = none
title_issue (c ∷ s) =
    first_of
      (if starts_with (codes "(#") (c ∷ s) then closed (span_digits (drop 2 (c ∷ s))) else none)
      (title_issue s)

unfoldable pub issue_number : PullRequest → Option ℕ
issue_number pr =
    first_of (branch_issue pr.branch) (first_of (body_issue true pr.body) (title_issue pr.title))

span_digits-append :
    (ds : Text) (c : ℕ) (rest : Text)
    → All IsDigit ds
    → is_digit c ≡ false
    → span_digits (ds ++ c ∷ rest) ≡ (ds, c ∷ rest)
unfolding span_digits
span_digits-append [] c rest h e = rw (e, span_digits)
span_digits-append (d ∷ ds) c rest h e = ground (arith, span_digits-append ds c rest h.1 e)

number_of-print_ℕ : (n : ℕ) → number_of (print_ℕ n) ≡ some n
unfolding number_of
number_of-print_ℕ n = rw (int_of-print_ℕ n, number_of)

-- The branch `issue-N/...` names issue N.
pub branch_issue-print_ℕ :
    (n : ℕ) (slug : Text)
    → branch_issue (codes "issue-" ++ (print_ℕ n ++ (codes "/" ++ slug))) ≡ some n
unfolding branch_issue starts_with
branch_issue-print_ℕ n slug =
    rw (span_digits-append (print_ℕ n) b'/' slug (print_ℕ-IsDigit n) refl) (number_of-print_ℕ n)
