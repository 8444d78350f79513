-- ===== src/Supervisor/Selected.antt =====
-- Which repositories the filters select.
use loony_dev.Supervisor.Patterns.{MatchesAny, matches_any-MatchesAny, MatchesAny-matches_any}
use loony_dev.Prelude.{
  true, sym, ◌⊎◌, ◌↔◌, refl, inr, ap, inl, ◌∙◌, is_nonempty, arith, text_eq, Bool-cases, not, ◌&&◌,
  ◌||◌, ◌&&◌, keep, ◌≡◌, mem_text, List, Bool, Text, text_eq_iff, [], ◌∷◌,
}
use loony_dev.Supervisor.Filters.{matches_any, keep_included, drop_excluded, filter_repos}

-- A test that is kept under equal texts, on the members of a list.
mem_text-keep :
    (p : Text → Bool) (r : Text) (repos : List Text)
    → mem_text r (keep p repos) ≡ (mem_text r repos && p r)
unfolding mem_text
mem_text-keep p r [] = refl
mem_text-keep p r (x ∷ repos) = elim (Bool-cases (text_eq x r)) [
  | inl e ↦
      let same : x ≡ r = (text_eq_iff x r).0 e in
      let at : p x ≡ p r = ap p same in ground (arith, mem_text-keep p r repos)
  | inr e ↦ ground (arith, mem_text-keep p r repos)
]

module _ (fnmatch : Text → Text → Bool) where
  mem_text-keep_included :
      (include : List Text) (r : Text) (repos : List Text)
      → mem_text r (keep_included fnmatch include repos)
        ≡ (mem_text r repos && (not (is_nonempty include) || matches_any fnmatch include r))
  unfolding keep_included
  mem_text-keep_included [] r repos = ground arith
  mem_text-keep_included (p ∷ ps) r repos = mem_text-keep (matches_any fnmatch (p ∷ ps)) r repos

  mem_text-drop_excluded :
      (exclude : List Text) (r : Text) (repos : List Text)
      → mem_text r (drop_excluded fnmatch exclude repos)
        ≡ (mem_text r repos && not (matches_any fnmatch exclude r))
  unfolding drop_excluded matches_any
  mem_text-drop_excluded [] r repos = ground arith
  mem_text-drop_excluded (p ∷ ps) r repos =
      mem_text-keep (λ s. not (matches_any fnmatch (p ∷ ps) s)) r repos

  mem_text-filter_repos :
      (repos include exclude : List Text) (r : Text)
      → mem_text r (filter_repos fnmatch repos include exclude) ≡ (
          (mem_text r repos && (not (is_nonempty include) || matches_any fnmatch include r))
          && not (matches_any fnmatch exclude r))
  unfolding filter_repos
  mem_text-filter_repos repos include exclude r =
      mem_text-drop_excluded exclude r (keep_included fnmatch include repos)
      ∙ ap (λ b. b && not (matches_any fnmatch exclude r)) (mem_text-keep_included include r repos)

  -- A repository that the patterns select.
  pub record IsSelected (repos include exclude : List Text) (r : Text) : Type 0 where
    pub listed : mem_text r repos ≡ true
    pub included : (include ≡ []) ⊎ MatchesAny fnmatch include r
    pub not_excluded : ¬ MatchesAny fnmatch exclude r

  inclusion :
      (include : List Text) (r : Text)
      → (not (is_nonempty include) || matches_any fnmatch include r) ≡ true
      → (include ≡ []) ⊎ MatchesAny fnmatch include r
  inclusion [] r h = inl refl
  inclusion (p ∷ ps) r h = inr (matches_any-MatchesAny fnmatch (p ∷ ps) r h)

  included_test :
      (include : List Text) (r : Text)
      → (include ≡ []) ⊎ MatchesAny fnmatch include r
      → (not (is_nonempty include) || matches_any fnmatch include r) ≡ true
  included_test include r (inl e) = rw e refl
  included_test include r (inr m) =
      let found = MatchesAny-matches_any fnmatch include r m in ground (arith, found)

  -- A repository is among the selected ones exactly if it is one of those given, an include pattern
  -- matches it or there is none, and no exclude pattern matches it. A pattern with a slash matches
  -- by its glob the whole of a repository, any other the part behind the first slash.
  pub filter_repos-IsSelected :
      (repos include exclude : List Text) (r : Text)
      → (mem_text r (filter_repos fnmatch repos include exclude) ≡ true)
        ↔ IsSelected repos include exclude r
  filter_repos-IsSelected repos include exclude r = (
    λ h.
        let all = sym (mem_text-filter_repos repos include exclude r) ∙ h in
        record {
          listed = ground (arith, all);
          included = inclusion include r (ground (arith, all));
          not_excluded = λ m.
              let found = MatchesAny-matches_any fnmatch exclude r m in ground (arith, all, found);
        },
    λ s.
        let included = included_test include r s.included in
        mem_text-filter_repos repos include exclude r
        ∙ (elim (Bool-cases (matches_any fnmatch exclude r)) [
          | inl e ↦ absurd (s.not_excluded (matches_any-MatchesAny fnmatch exclude r e))
          | inr e ↦ ground (arith, s.listed, included, e)
        ]),
  )
