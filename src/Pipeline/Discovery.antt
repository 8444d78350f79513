-- ===== src/Pipeline/Discovery.antt =====
-- The keys of the pipelines of `Pipeline.discover`, pipeline.py.
use loony_dev.Prelude.{
  All-append, ◌||◌, print_ℕ, text_eq_sym, ℕ, Bool, false, List, [], ◌∷◌, ◌++◌, map, ◌==◌, any_of,
  Text, text_eq, text_eq_iff, ◌≡◌, refl, inl, inr, All, arith, Bool-cases, Option-cases,
  print_ℕ-injective,
}
use loony_dev.Github.Items.{Issue, PullRequest}
use loony_dev.Tasks.Kinds.{issue_key, issue_or_pr_keys}
use loony_dev.Pipeline.Ladder.{Pipeline, by_number, of_issue, with_pr, attach, attach_all, discover}
use std.Path.{subst}
use loony_dev.Pipeline.Worktrees.{PrKeyed, Keyed}

-- A key that no pipeline of a list has.
abbrev pub Fresh : Text → List Pipeline → Type 0
Fresh k ps = All (λ p. text_eq p.pipeline_key k ≡ false) ps

-- No two pipelines have one key.
abbrev pub Distinct : List Pipeline → Type 0
Distinct [] = Unit {0}
Distinct (p ∷ ps) = Fresh p.pipeline_key ps × Distinct ps

with_pr-key : (p : Pipeline) (pr : PullRequest) → (with_pr p pr).pipeline_key ≡ p.pipeline_key
unfolding with_pr
with_pr-key p pr = elim (Option-cases p.pr) [ inl e ↦ rw e refl | inr (q, e) ↦ rw e refl ]

with_pr-Keyed :
    (p : Pipeline) (pr : PullRequest)
    → p.pipeline_key ≡ (issue_or_pr_keys pr).1
    → Keyed p
    → Keyed (with_pr p pr)
unfolding with_pr
with_pr-Keyed p pr key keyed = elim (Option-cases p.pr) [
  | inl e ↦ rw e (keyed.0, key)
  | inr (q, e) ↦ rw e (keyed.0, subst (PrKeyed p.pipeline_key) e keyed.1)
]

attach-Keyed : (ps : List Pipeline) (pr : PullRequest) → All Keyed ps → All Keyed (attach ps pr)
unfolding attach
attach-Keyed [] pr keyed = ((tt, refl), tt)
attach-Keyed (p ∷ ps) pr keyed =
    elim (Bool-cases (text_eq p.pipeline_key (issue_or_pr_keys pr).1)) [
      | inl e ↦ rw e (with_pr-Keyed p pr ((text_eq_iff _ _).0 e) keyed.0, keyed.1)
      | inr e ↦ rw e (keyed.0, attach-Keyed ps pr keyed.1)
    ]

attach-Fresh :
    (k : Text) (ps : List Pipeline) (pr : PullRequest)
    → Fresh k ps
    → text_eq (issue_or_pr_keys pr).1 k ≡ false
    → Fresh k (attach ps pr)
unfolding attach
attach-Fresh k [] pr fresh other = (other, tt)
attach-Fresh k (p ∷ ps) pr fresh other =
    elim (Bool-cases (text_eq p.pipeline_key (issue_or_pr_keys pr).1)) [
      | inl e ↦ rw (e, with_pr-key p pr) fresh
      | inr e ↦ rw e (fresh.0, attach-Fresh k ps pr fresh.1 other)
    ]

attach-Distinct : (ps : List Pipeline) (pr : PullRequest) → Distinct ps → Distinct (attach ps pr)
unfolding attach
attach-Distinct [] pr distinct = (tt, tt)
attach-Distinct (p ∷ ps) pr distinct =
    elim (Bool-cases (text_eq p.pipeline_key (issue_or_pr_keys pr).1)) [
      | inl e ↦ rw (e, with_pr-key p pr) distinct
      | inr e ↦ rw e (
        attach-Fresh p.pipeline_key ps pr distinct.0 (text_eq_sym p.pipeline_key _ e),
        attach-Distinct ps pr distinct.1,
      )
    ]

attach_all-Keyed :
    (ps : List Pipeline) (prs : List PullRequest) → All Keyed ps → All Keyed (attach_all ps prs)
unfolding attach_all
attach_all-Keyed ps [] keyed = keyed
attach_all-Keyed ps (pr ∷ prs) keyed =
    attach_all-Keyed (attach ps pr) prs (attach-Keyed ps pr keyed)

attach_all-Distinct :
    (ps : List Pipeline) (prs : List PullRequest) → Distinct ps → Distinct (attach_all ps prs)
unfolding attach_all
attach_all-Distinct ps [] distinct = distinct
attach_all-Distinct ps (pr ∷ prs) distinct =
    attach_all-Distinct (attach ps pr) prs (attach-Distinct ps pr distinct)

map-Keyed : (issues : List Issue) → All Keyed (map of_issue issues)
unfolding of_issue
map-Keyed [] = tt
map-Keyed (i ∷ issues) = ((refl, tt), map-Keyed issues)

-- No two issues have one number.
abbrev DistinctNumbers : List Issue → Type 0
DistinctNumbers [] = Unit {0}
DistinctNumbers (i ∷ issues) =
    All (λ j. (i.number == j.number) ≡ false) issues × DistinctNumbers issues

neither : (a b : Bool) → (a || b) ≡ false → (a ≡ false) × (b ≡ false)
neither a b e = ground arith

DistinctNumbers-snoc :
    (issues : List Issue) (i : Issue)
    → any_of (λ j. j.number == i.number) issues ≡ false
    → DistinctNumbers issues
    → DistinctNumbers (issues ++ i ∷ [])
DistinctNumbers-snoc [] i e distinct = (tt, tt)
DistinctNumbers-snoc (j ∷ issues) i e distinct =
    let (other, rest) =
      neither (j.number == i.number) (any_of (λ k. k.number == i.number) issues) e in
    (
      All-append (λ k. (j.number == k.number) ≡ false) issues (i ∷ []) distinct.0 (other, tt),
      DistinctNumbers-snoc issues i rest distinct.1,
    )

by_number-DistinctNumbers :
    (found rest : List Issue) → DistinctNumbers found → DistinctNumbers (by_number found rest)
unfolding by_number
by_number-DistinctNumbers found [] distinct = distinct
by_number-DistinctNumbers found (i ∷ rest) distinct =
    elim (Bool-cases (any_of (λ j. j.number == i.number) found)) [
      | inl e ↦ rw e (by_number-DistinctNumbers found rest distinct)
      | inr e ↦ rw e (
          by_number-DistinctNumbers (found ++ i ∷ []) rest
            (DistinctNumbers-snoc found i e distinct))
    ]

issue_key-other : (m n : ℕ) → (m == n) ≡ false → text_eq (issue_key m) (issue_key n) ≡ false
unfolding issue_key text_eq
issue_key-other m n e = elim (Bool-cases (text_eq (print_ℕ m) (print_ℕ n))) [
  | inr other ↦ other
  | inl same ↦ let equal = print_ℕ-injective m n ((text_eq_iff _ _).0 same) in ground arith
]

map-Fresh :
    (i : Issue) (issues : List Issue)
    → All (λ j. (i.number == j.number) ≡ false) issues
    → Fresh (issue_key i.number) (map of_issue issues)
unfolding of_issue
map-Fresh i [] h = tt
map-Fresh i (j ∷ issues) h =
    (text_eq_sym _ _ (issue_key-other i.number j.number h.0), map-Fresh i issues h.1)

map-Distinct : (issues : List Issue) → DistinctNumbers issues → Distinct (map of_issue issues)
unfolding of_issue
map-Distinct [] distinct = tt
map-Distinct (i ∷ issues) distinct = (map-Fresh i issues distinct.0, map-Distinct issues distinct.1)

-- No two of the pipelines have one key, and every pipeline has the key of its issue and of its
-- pull request.
pub discover-Distinct :
    (issues_of : Text → List Issue) (prs : List PullRequest)
    → Distinct (discover issues_of prs) × All Keyed (discover issues_of prs)
unfolding discover
discover-Distinct issues_of prs = (
  attach_all-Distinct _ prs (map-Distinct _ (by_number-DistinctNumbers [] _ tt)),
  attach_all-Keyed _ prs (map-Keyed _),
)
