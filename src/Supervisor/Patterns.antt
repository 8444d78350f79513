-- ===== src/Supervisor/Patterns.antt =====
-- When a pattern matches a repository.
use std.Path.{subst}
use mathlib.Core.Option.{some-injective, none-ne-some}
use mathlib.Core.List.Memᴰ
use mathlib.Core.List.{Memᴰ}
use mathlib.Core.Bool.{false≢true}
use loony_dev.Prelude.{
  length, ◌==◌, ℕ, suc, List, [], ◌∷◌, ◌++◌, none, some, true, false, Bool, Text, codes, contains,
  find, starts_with, drop, ◌≡◌, refl, sym, ap, ◌∙◌, ◌⊎◌, inl, inr, arith, Bool-cases, Option-cases,
}
use loony_dev.Supervisor.Filters.{repo_name, matches_pattern, matches_any}

abbrev slash : ℕ
slash = 47

contains-slash : (t : Text) → contains (codes "/") t ≡ true → Memᴰ slash t
unfolding contains starts_with
contains-slash [] h = cc
contains-slash (c ∷ t) h = elim (Bool-cases (slash == c)) [
  | inl e ↦ Memᴰ.head (ground (arith, e))
  | inr e ↦ Memᴰ.tail (contains-slash t (ground (arith, h, e)))
]

slash-contains : (t : Text) → Memᴰ slash t → contains (codes "/") t ≡ true
unfolding contains starts_with
slash-contains [] m = absurd (Memᴰ.not-nil m)
slash-contains (c ∷ t) (Memᴰ.head e) = ground (arith, e)
slash-contains (c ∷ t) (Memᴰ.tail m) = ground (arith, slash-contains t m)

-- A character that is no slash, before others.
later : (c : ℕ) (t : Text) → (slash == c) ≡ false → ¬ Memᴰ slash t → ¬ Memᴰ slash (c ∷ t)
later c t e h (Memᴰ.head same) = ground (arith, e, same)
later c t e h (Memᴰ.tail m) = h m

behind : (owner name : Text) → Memᴰ slash (owner ++ slash ∷ name)
behind [] name = Memᴰ.head refl
behind (c ∷ owner) name = Memᴰ.tail (behind owner name)

-- The part of a repository behind its first slash, or all of it.
pub data IsName (repo name : Text) : Type 0 where
  named : (owner : Text) → ¬ Memᴰ slash owner → repo ≡ owner ++ slash ∷ name → IsName repo name
  bare : ¬ Memᴰ slash repo → repo ≡ name → IsName repo name

-- The first slash of a text.
find-slash-none : (t : Text) → find (codes "/") t ≡ none → ¬ Memᴰ slash t
unfolding find starts_with
find-slash-none [] h m = absurd (Memᴰ.not-nil m)
find-slash-none (c ∷ t) h m = elim (Bool-cases (slash == c)) [
  | inl e ↦ absurd (none-ne-some _ (sym (rw (find, e) at h)))
  | inr e ↦ elim (Option-cases (find (codes "/") t)) [
    | inl k ↦ later c t e (find-slash-none t k) m
    | inr (n, k) ↦ absurd (none-ne-some _ (sym (rw (find, e, k) at h)))
  ]
]

find-slash-some :
    (t : Text) (i : ℕ)
    → find (codes "/") t ≡ some i
    → (owner : Text) × (¬ Memᴰ slash owner) × (t ≡ owner ++ slash ∷ drop (suc i) t)
unfolding find starts_with
find-slash-some [] i h = absurd (none-ne-some _ h)
find-slash-some (c ∷ t) i h = elim (Bool-cases (slash == c)) [
  | inl e ↦
      let zero_there : 0 ≡ i = some-injective _ _ (rw (find, e) at h) in
      (
        [],
        Memᴰ.not-nil,
        subst (λ n. c ∷ t ≡ slash ∷ drop (suc n) (c ∷ t)) zero_there (ground (arith, e)),
      )
  | inr e ↦ elim (Option-cases (find (codes "/") t)) [
    | inl k ↦ absurd (none-ne-some _ (rw (find, e, k) at h))
    | inr (n, k) ↦
        let next : suc n ≡ i = some-injective _ _ (rw (find, e, k) at h) in
        let (owner, clean, same) = find-slash-some t n k in
        (
          c ∷ owner,
          later c owner e clean,
          subst (λ m. c ∷ t ≡ c ∷ (owner ++ slash ∷ drop (suc m) (c ∷ t))) next
              (ap (λ r. c ∷ r) same),
        )
  ]
]

find-owner :
    (owner name : Text)
    → ¬ Memᴰ slash owner
    → find (codes "/") (owner ++ slash ∷ name) ≡ some (length owner)
unfolding find starts_with
find-owner [] name h = refl
find-owner (c ∷ owner) name h = elim (Bool-cases (slash == c)) [
  | inl e ↦ absurd (h (Memᴰ.head (ground (arith, e))))
  | inr e ↦ rw (find, e, find-owner owner name (λ m. h (Memᴰ.tail m))) refl
]

drop-owner : (owner name : Text) → drop (suc (length owner)) (owner ++ slash ∷ name) ≡ name
drop-owner [] name = refl
drop-owner (c ∷ owner) name = drop-owner owner name

repo_name-IsName : (repo : Text) → IsName repo (repo_name repo)
unfolding repo_name
repo_name-IsName repo = elim (Option-cases (find (codes "/") repo)) [
  | inl e ↦ rw (repo_name, e) (bare (find-slash-none repo e) refl)
  | inr (i, e) ↦
      let (owner, clean, same) = find-slash-some repo i e in
      rw (repo_name, e) (named owner clean same)
]

IsName-repo_name : (repo name : Text) → IsName repo name → repo_name repo ≡ name
unfolding repo_name
IsName-repo_name repo name (named owner clean same) =
    ap repo_name same ∙ rw (repo_name, find-owner owner name clean) (drop-owner owner name)
IsName-repo_name repo name (bare clean same) = elim (Option-cases (find (codes "/") repo)) [
  | inl e ↦ rw (repo_name, e) same
  | inr (i, e) ↦
      let (owner, _, split) = find-slash-some repo i e in
      absurd (clean (subst (Memᴰ slash) (sym split) (behind owner (drop (suc i) repo))))
]

module _ (fnmatch : Text → Text → Bool) where
  -- A pattern with a slash is for the whole of a repository, any other for its name.
  pub Matches : Text → Text → Type 0
  Matches repo pattern =
      (Memᴰ slash pattern × (fnmatch repo pattern ≡ true))
      ⊎ ((¬ Memᴰ slash pattern) × (name : Text) × IsName repo name × (fnmatch name pattern ≡ true))

  matches_pattern-Matches :
      (repo pattern : Text) → matches_pattern fnmatch repo pattern ≡ true → Matches repo pattern
  unfolding matches_pattern Matches
  matches_pattern-Matches repo pattern h = elim (Bool-cases (contains (codes "/") pattern)) [
    | inl e ↦ inl (contains-slash pattern e, (rw (matches_pattern, e) at h))
    | inr e ↦ inr (
      λ m. false≢true (sym e ∙ slash-contains pattern m),
      repo_name repo,
      repo_name-IsName repo,
      (rw (matches_pattern, e) at h),
    )
  ]

  Matches-matches_pattern :
      (repo pattern : Text) → Matches repo pattern → matches_pattern fnmatch repo pattern ≡ true
  unfolding matches_pattern Matches
  Matches-matches_pattern repo pattern (inl (m, h)) =
      rw (matches_pattern, slash-contains pattern m) h
  Matches-matches_pattern repo pattern (inr (plain, name, is, h)) =
      elim (Bool-cases (contains (codes "/") pattern)) [
        | inl e ↦ absurd (plain (contains-slash pattern e))
        | inr e ↦ rw (matches_pattern, e, IsName-repo_name repo name is) h
      ]

  -- One of the patterns matches.
  pub MatchesAny : List Text → Text → Type 0
  MatchesAny patterns repo = (p : Text) × Memᴰ p patterns × Matches repo p

  pub matches_any-MatchesAny :
      (patterns : List Text) (repo : Text)
      → matches_any fnmatch patterns repo ≡ true
      → MatchesAny patterns repo
  unfolding matches_any MatchesAny
  matches_any-MatchesAny [] repo h = cc
  matches_any-MatchesAny (p ∷ ps) repo h = elim (Bool-cases (matches_pattern fnmatch repo p)) [
    | inl e ↦ (p, Memᴰ.head refl, matches_pattern-Matches repo p e)
    | inr e ↦
        let (q, m, is) = matches_any-MatchesAny ps repo (ground (arith, h, e)) in
        (q, Memᴰ.tail m, is)
  ]

  matches_any-Memᴰ :
      (patterns : List Text) (repo p : Text)
      → Memᴰ p patterns
      → matches_pattern fnmatch repo p ≡ true
      → matches_any fnmatch patterns repo ≡ true
  unfolding matches_any
  matches_any-Memᴰ [] repo p m h = absurd (Memᴰ.not-nil m)
  matches_any-Memᴰ (q ∷ ps) repo p (Memᴰ.head e) h =
      let same = ap (matches_pattern fnmatch repo) e in ground (arith, h, same)
  matches_any-Memᴰ (q ∷ ps) repo p (Memᴰ.tail m) h = ground (arith, matches_any-Memᴰ ps repo p m h)

  pub MatchesAny-matches_any :
      (patterns : List Text) (repo : Text)
      → MatchesAny patterns repo
      → matches_any fnmatch patterns repo ≡ true
  unfolding MatchesAny
  MatchesAny-matches_any patterns repo (p, m, is) =
      matches_any-Memᴰ patterns repo p m (Matches-matches_pattern repo p is)
