-- ===== src/Pipeline/Complete.antt =====
-- The issues and the pull requests among the pipelines of `Pipeline.discover`, pipeline.py.
use loony_dev.Prelude.{
  ℕ, Bool, true, false, ◌&&◌, ◌||◌, List, [], ◌∷◌, ◌++◌, map, none, some, ◌==◌, ==_iff, any_of,
  is_some, Text, text_eq, text_eq_refl, ◌≡◌, refl, sym, ap, ◌∙◌, inl, inr, arith, Bool-cases,
  Option-cases,
}
use std.Path.{subst}
use mathlib.Core.List.{Memᴰ}
use loony_dev.Github.Items.{
  Issue, PullRequest, ready_for_planning, ready_for_development, in_progress,
}
use loony_dev.Tasks.Kinds.{issue_or_pr_keys}
use loony_dev.Pipeline.Ladder.{Pipeline, by_number, of_issue, with_pr, attach, attach_all, discover}

-- Whether a pipeline has a key and a pull request.
abbrev pub is_open : Text → Pipeline → Bool
is_open k p = text_eq p.pipeline_key k && is_some p.pr

-- Whether a pipeline has the issue of a number.
abbrev pub has_issue : ℕ → Pipeline → Bool
has_issue n p = elim p.issue [ none ↦ false | some i ↦ i.number == n ]

or_true : (a b : Bool) → b ≡ true → (a || b) ≡ true
or_true a b e = ground arith

module _ (test : Pipeline → Bool)
    (stable : (p : Pipeline) (pr : PullRequest) → test p ≡ true → test (with_pr p pr) ≡ true) where
  attach-keeps :
      (ps : List Pipeline) (pr : PullRequest)
      → any_of test ps ≡ true
      → any_of test (attach ps pr) ≡ true
  unfolding attach
  attach-keeps [] pr h = ground arith
  attach-keeps (p ∷ ps) pr h = elim (Bool-cases (text_eq p.pipeline_key (issue_or_pr_keys pr).1)) [
    | inl e ↦ elim (Bool-cases (test p)) [
      | inl here ↦ rw (e, stable p pr here) refl
      | inr not_here ↦ rw e (
          or_true (test (with_pr p pr)) (any_of test ps)
            (sym (ap (λ b. b || any_of test ps) not_here) ∙ h))
    ]
    | inr e ↦ elim (Bool-cases (test p)) [
      | inl here ↦ rw (e, here) refl
      | inr not_here ↦ rw e (
          or_true (test p) (any_of test (attach ps pr))
            (attach-keeps ps pr (sym (ap (λ b. b || any_of test ps) not_here) ∙ h)))
    ]
  ]

  attach_all-keeps :
      (ps : List Pipeline) (prs : List PullRequest)
      → any_of test ps ≡ true
      → any_of test (attach_all ps prs) ≡ true
  unfolding attach_all
  attach_all-keeps ps [] h = h
  attach_all-keeps ps (pr ∷ prs) h = attach_all-keeps (attach ps pr) prs (attach-keeps ps pr h)

is_open-with_pr :
    (k : Text) (p : Pipeline) (pr : PullRequest)
    → is_open k p ≡ true
    → is_open k (with_pr p pr) ≡ true
unfolding with_pr
is_open-with_pr k p pr h = elim (Option-cases p.pr) [
  | inl e ↦ ground arith
  | inr (q, e) ↦ rw e (sym (ap (λ o. text_eq p.pipeline_key k && is_some o) e) ∙ h)
]

has_issue-with_pr :
    (n : ℕ) (p : Pipeline) (pr : PullRequest)
    → has_issue n p ≡ true
    → has_issue n (with_pr p pr) ≡ true
unfolding with_pr
has_issue-with_pr n p pr h = elim (Option-cases p.pr) [ inl e ↦ rw e h | inr (q, e) ↦ rw e h ]

attach-is_open :
    (ps : List Pipeline) (pr : PullRequest)
    → any_of (is_open (issue_or_pr_keys pr).1) (attach ps pr) ≡ true
unfolding attach with_pr
attach-is_open [] pr = rw (text_eq_refl (issue_or_pr_keys pr).1) refl
attach-is_open (p ∷ ps) pr = elim (Bool-cases (text_eq p.pipeline_key (issue_or_pr_keys pr).1)) [
  | inl e ↦ elim (Option-cases p.pr) [
    | inl e' ↦ rw (e, e', e) refl
    | inr (q, e') ↦ rw (e, e', e) refl
  ]
  | inr e ↦ rw e (or_true _ _ (attach-is_open ps pr))
]

attach_all-is_open :
    (ps : List Pipeline) (prs : List PullRequest) (pr : PullRequest)
    → Memᴰ pr prs
    → any_of (is_open (issue_or_pr_keys pr).1) (attach_all ps prs) ≡ true
unfolding attach_all
attach_all-is_open ps [] pr h = elim h [ ]
attach_all-is_open ps (q ∷ prs) pr (Memᴰ.head e) =
    let k = (issue_or_pr_keys pr).1 in
    attach_all-keeps (is_open k) (is_open-with_pr k) (attach ps q) prs
      (subst (λ r. any_of (is_open k) (attach ps r) ≡ true) e (attach-is_open ps pr))
attach_all-is_open ps (q ∷ prs) pr (Memᴰ.tail h) = attach_all-is_open (attach ps q) prs pr h

-- Every open pull request finds its key among the pipelines, with a pull request.
pub discover-is_open :
    (issues_of : Text → List Issue) (prs : List PullRequest) (pr : PullRequest)
    → Memᴰ pr prs
    → any_of (is_open (issue_or_pr_keys pr).1) (discover issues_of prs) ≡ true
unfolding discover
discover-is_open issues_of prs pr h = attach_all-is_open _ prs pr h

any_of-append :
    (n : ℕ) (xs ys : List Issue)
    → any_of (λ j. j.number == n) xs ≡ true
    → any_of (λ j. j.number == n) (xs ++ ys) ≡ true
any_of-append n [] ys h = ground arith
any_of-append n (x ∷ xs) ys h = ground (arith, any_of-append n xs ys)

any_of-snoc :
    (n : ℕ) (xs : List Issue) (i : Issue)
    → (i.number == n) ≡ true
    → any_of (λ j. j.number == n) (xs ++ i ∷ []) ≡ true
any_of-snoc n [] i h = ground arith
any_of-snoc n (x ∷ xs) i h = or_true (x.number == n) _ (any_of-snoc n xs i h)

by_number-keeps :
    (n : ℕ) (found rest : List Issue)
    → any_of (λ j. j.number == n) found ≡ true
    → any_of (λ j. j.number == n) (by_number found rest) ≡ true
unfolding by_number
by_number-keeps n found [] h = h
by_number-keeps n found (i ∷ rest) h =
    elim (Bool-cases (any_of (λ j. j.number == i.number) found)) [
      | inl e ↦ rw e (by_number-keeps n found rest h)
      | inr e ↦ rw e (by_number-keeps n (found ++ i ∷ []) rest (any_of-append n found (i ∷ []) h))
    ]

by_number-finds_head :
    (found : List Issue) (j : Issue) (rest : List Issue)
    → any_of (λ k. k.number == j.number) (by_number found (j ∷ rest)) ≡ true
unfolding by_number
by_number-finds_head found j rest = elim (Bool-cases (any_of (λ k. k.number == j.number) found)) [
  | inl e ↦ rw e (by_number-keeps j.number found rest e)
  | inr e ↦ rw e (
      by_number-keeps j.number (found ++ j ∷ []) rest
        (any_of-snoc j.number found j ((==_iff j.number j.number).1 refl)))
]

by_number-finds :
    (found rest : List Issue) (i : Issue)
    → Memᴰ i rest
    → any_of (λ j. j.number == i.number) (by_number found rest) ≡ true
unfolding by_number
by_number-finds found [] i h = elim h [ ]
by_number-finds found (j ∷ rest) i (Memᴰ.head e) =
    let number = ap (λ k. k.number) e in
    subst (λ n. any_of (λ k. k.number == n) (by_number found (j ∷ rest)) ≡ true) (sym number)
      (by_number-finds_head found j rest)
by_number-finds found (j ∷ rest) i (Memᴰ.tail h) =
    elim (Bool-cases (any_of (λ k. k.number == j.number) found)) [
      | inl e ↦ rw e (by_number-finds found rest i h)
      | inr e ↦ rw e (by_number-finds (found ++ j ∷ []) rest i h)
    ]

map-has_issue :
    (n : ℕ) (issues : List Issue)
    → any_of (has_issue n) (map of_issue issues) ≡ any_of (λ j. j.number == n) issues
unfolding of_issue
map-has_issue n [] = refl
map-has_issue n (i ∷ issues) = ap (λ b. (i.number == n) || b) (map-has_issue n issues)

-- Every issue with a relevant label has a pipeline.
pub discover-has_issue :
    (issues_of : Text → List Issue) (prs : List PullRequest) (i : Issue)
    → Memᴰ i
        (issues_of ready_for_planning ++ (issues_of ready_for_development ++ issues_of in_progress))
    → any_of (has_issue i.number) (discover issues_of prs) ≡ true
unfolding discover
discover-has_issue issues_of prs i h =
    attach_all-keeps (has_issue i.number) (has_issue-with_pr i.number) _ prs
      (map-has_issue i.number _ ∙ by_number-finds [] _ i h)
