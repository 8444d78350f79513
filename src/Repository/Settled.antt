-- ===== src/Repository/Settled.antt =====
-- What the check-runs cache keeps true, over any sequence of questions and evictions.
use loony_dev.Prelude.{
  and-eq-true, ℕ, ◌+◌, true, ◌&&◌, List, [], some, Text, all_of, ◌≡◌, refl, ◌⊎◌, inl, inr, ◌≤◌, ◌<◌,
  arith, Bool-cases, and-eq-true, Option-cases, sym, ap, ◌∙◌, text_eq, text_eq_iff, ltb→lt,
}
use std.Path.{subst}
use mathlib.Core.Option.{none-ne-some, some-injective}
use loony_dev.Prelude.Dictionary.{lookup, insert, lookup-insert}
use loony_dev.Github.Items.{CheckRun}
use loony_dev.Repository.Permissions.{is_fresh, stale_keys}
use loony_dev.Repository.Eviction.{Unique, Unique-insert, Unique-delete_all, lookup-evict}
use loony_dev.Repository.CheckRuns.{
  Payload, Answer, called_process_error, not_a_dict, check_runs, CheckRunsCacheEntry,
  CheckRunsCache, is_completed, failing_runs_of, entry_of, fetch_check_runs, list_failing,
  evict_stale_check_runs_cache,
}

-- What the service's answer says when it is not cached.
unfoldable pub uncached : List Text → Answer → List CheckRun
uncached skip called_process_error = []
uncached skip not_a_dict = []
uncached skip (check_runs runs) = failing_runs_of skip runs

-- An answer in which every check run has completed.
pub data IsComplete : Answer → Type 0 where
  complete : (runs : List Payload) → all_of is_completed runs ≡ true → IsComplete (check_runs runs)

Answer-cases :
    (a : Answer)
    → (a ≡ called_process_error)
      ⊎ ((a ≡ not_a_dict) ⊎ ((runs : List Payload) × (a ≡ check_runs runs)))
Answer-cases called_process_error = inl refl
Answer-cases not_a_dict = inr (inl refl)
Answer-cases (check_runs runs) = inr (inr (runs, refl))

module _ (gh_api : ℕ → Text → Answer) (skip : List Text) (ttl : ℕ) where
  -- The caches that occur.
  pub data Reach : ℕ → CheckRunsCache → Type 0 where
    start : Reach 0 []
    wait : {t t' : ℕ} {cache : CheckRunsCache} → t ≤ t' → Reach t cache → Reach t' cache
    ask :
        {t : ℕ} {cache : CheckRunsCache} (head_sha : Text)
        → Reach t cache
        → Reach t (list_failing gh_api skip ttl t head_sha cache).1
    evict :
        {t : ℕ} {cache : CheckRunsCache}
        → Reach t cache
        → Reach t (evict_stale_check_runs_cache ttl t cache)

  -- An entry is what the service answered at some time.
  Kept : ℕ → Text → CheckRunsCacheEntry → Type 0
  Kept now head_sha entry =
      (t : ℕ) × (t ≤ now)
      × (runs : List Payload) × (gh_api t head_sha ≡ check_runs runs)
      × (entry ≡ entry_of skip t runs)

  Answered : ℕ → CheckRunsCache → Type 0
  Answered now cache =
      (head_sha : Text) (entry : CheckRunsCacheEntry)
      → lookup head_sha cache ≡ some entry
      → Kept now head_sha entry

  Answered-store :
      (now : ℕ) (head_sha : Text) (runs : List Payload) (cache : CheckRunsCache)
      → gh_api now head_sha ≡ check_runs runs
      → Answered now cache
      → Answered now (insert head_sha (entry_of skip now runs) cache)
  unfolding Answered Kept
  Answered-store now head_sha runs cache said h other entry found =
      let new = entry_of skip now runs in
      let split = lookup-insert head_sha other new cache in
      elim (Bool-cases (text_eq head_sha other)) [
        | inl e ↦
            let here : lookup other (insert head_sha new cache) ≡ some new =
              ground (arith, split) in
            (
              now,
              omega arith,
              runs,
              ap (gh_api now) (sym ((text_eq_iff head_sha other).0 e)) ∙ said,
              sym (some-injective _ _ (sym here ∙ found)),
            )
        | inr e ↦
            let there : lookup other (insert head_sha new cache) ≡ lookup other cache =
              ground (arith, split) in
            h other entry (sym there ∙ found)
      ]

  Answered-fetch :
      (now : ℕ) (head_sha : Text) (cache : CheckRunsCache)
      → Answered now cache
      → Answered now (fetch_check_runs gh_api skip ttl now head_sha cache).1
  unfolding fetch_check_runs
  Answered-fetch now head_sha cache h = elim (Answer-cases (gh_api now head_sha)) [
    | inl e ↦ rw (fetch_check_runs, e) h
    | inr (inl e) ↦ rw (fetch_check_runs, e) h
    | inr (inr (runs, e)) ↦ rw (fetch_check_runs, e) (Answered-store now head_sha runs cache e h)
  ]

  Unique-list_failing :
      (now : ℕ) (head_sha : Text) (cache : CheckRunsCache)
      → Unique cache
      → Unique (list_failing gh_api skip ttl now head_sha cache).1
  unfolding list_failing fetch_check_runs
  Unique-list_failing now head_sha cache u = elim (Answer-cases (gh_api now head_sha)) [
    | inl e ↦ ground arith
    | inr (inl e) ↦ ground arith
    | inr (inr (runs, e)) ↦ ground (arith, Unique-insert head_sha (entry_of skip now runs) cache u)
  ]

  Answered-list_failing :
      (now : ℕ) (head_sha : Text) (cache : CheckRunsCache)
      → Answered now cache
      → Answered now (list_failing gh_api skip ttl now head_sha cache).1
  unfolding list_failing
  Answered-list_failing now head_sha cache h = ground (arith, Answered-fetch now head_sha cache h)

  Reach-Unique : {t : ℕ} {cache : CheckRunsCache} → Reach t cache → Unique cache
  unfolding Unique evict_stale_check_runs_cache
  Reach-Unique start = tt
  Reach-Unique (wait le r) = Reach-Unique r
  Reach-Unique (ask {t} {cache} head_sha r) = Unique-list_failing t head_sha cache (Reach-Unique r)
  Reach-Unique (evict {t} {cache} r) =
      Unique-delete_all (stale_keys (λ (e : CheckRunsCacheEntry). e.cached_at) ttl t cache) cache
        (Reach-Unique r)

  Reach-Answered : {t : ℕ} {cache : CheckRunsCache} → Reach t cache → Answered t cache
  unfolding Answered Kept lookup evict_stale_check_runs_cache
  Reach-Answered start = λ head_sha entry found. absurd (none-ne-some _ found)
  Reach-Answered (wait le r) = λ head_sha entry found.
      let (t, old, runs, said, same) = Reach-Answered r head_sha entry found in
      (t, omega arith, runs, said, same)
  Reach-Answered (ask {t} {cache} head_sha r) =
      Answered-list_failing t head_sha cache (Reach-Answered r)
  Reach-Answered (evict {t} {cache} r) = λ head_sha entry found. Reach-Answered r head_sha entry (
      ground (
        arith,
        lookup-evict (λ (e : CheckRunsCacheEntry). e.cached_at) ttl t head_sha cache
            (Reach-Unique r),
      ))

  -- The answer as of now, or an earlier one, within the time to live, that nothing can change.
  IsSettled : ℕ → ℕ → Text → Type 0
  IsSettled now t head_sha =
      (t ≤ now) × ((t ≡ now) ⊎ ((now < t + ttl) × IsComplete (gh_api t head_sha)))

  served :
      (now : ℕ) (head_sha : Text) (entry : CheckRunsCacheEntry)
      → entry.all_completed ≡ true
      → is_fresh ttl now entry.cached_at ≡ true
      → Kept now head_sha entry
      → (t : ℕ) × IsSettled now t head_sha
        × (entry.failing_runs ≡ uncached skip (gh_api t head_sha))
  unfolding Kept IsSettled uncached entry_of is_fresh
  served now head_sha entry done fresh (t, old, runs, said, same) = (
    t,
    (
      old,
      inr (
        ltb→lt now (t + ttl) (rw (← ap (λ (e : CheckRunsCacheEntry). e.cached_at) same) fresh),
        subst IsComplete (sym said)
            (complete runs (sym (ap (λ (e : CheckRunsCacheEntry). e.all_completed) same) ∙ done)),
      ),
    ),
    ap (λ (e : CheckRunsCacheEntry). e.failing_runs) same ∙ ap (uncached skip) (sym said),
  )

  fetched :
      (now : ℕ) (head_sha : Text) (cache : CheckRunsCache)
      → (fetch_check_runs gh_api skip ttl now head_sha cache).0
        ≡ uncached skip (gh_api now head_sha)
  unfolding fetch_check_runs uncached entry_of
  fetched now head_sha cache = ground arith

-- In every cache that questions and evictions lead to, list_failing answers what the service says
-- at that time, or what it said less than the time to live ago, and then every check run of the
-- commit had completed.
pub list_failing-IsSettled :
    (gh_api : ℕ → Text → Answer) (skip : List Text) (ttl now : ℕ) (cache : CheckRunsCache)
    (head_sha : Text)
    → Reach gh_api skip ttl now cache
    → (t : ℕ) × (t ≤ now)
      × ((t ≡ now) ⊎ ((now < t + ttl) × IsComplete (gh_api t head_sha)))
      × ((list_failing gh_api skip ttl now head_sha cache).0 ≡ uncached skip (gh_api t head_sha))
unfolding IsSettled list_failing Answered
list_failing-IsSettled gh_api skip ttl now cache head_sha r =
    elim (Option-cases (lookup head_sha cache)) [
      | inl e ↦ (
        now,
        omega arith,
        inl refl,
        rw (list_failing, e) (fetched gh_api skip ttl now head_sha cache),
      )
      | inr (entry, e) ↦
          elim (Bool-cases (entry.all_completed && is_fresh ttl now entry.cached_at)) [
            | inr f ↦ (
              now,
              omega arith,
              inl refl,
              rw (list_failing, e, f) (fetched gh_api skip ttl now head_sha cache),
            )
            | inl f ↦
                let (done, fresh) = and-eq-true _ _ f in
                let (t, (old, settled), same) =
                  served gh_api skip ttl now head_sha entry done fresh
                    (Reach-Answered gh_api skip ttl r head_sha entry e) in
                (t, old, settled, rw (list_failing, e, f) same)
          ]
    ]
