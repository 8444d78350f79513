-- ===== src/Repository/Freshness.antt =====
-- What the permission cache keeps true, over any sequence of questions and evictions.
use loony_dev.Prelude.{
  ap, ◌||◌, ◌⊎◌, ltb→lt, ◌+◌, ltb, Option-cases, ◌<◌, ℕ, [], Option, none, some, if◌then◌else◌,
  Text, mem_text, ◌≡◌, refl, inl, inr, ◌≤◌, arith, Bool-cases, text_eq_iff,
}
use loony_dev.Prelude.Dictionary.{lookup, lookup-insert}
use mathlib.Core.Option.{none-ne-some}
use loony_dev.Repository.Eviction.{Unique, Unique-insert, Unique-delete_all, lookup-evict}
use loony_dev.Repository.Roles.{permitted}
use loony_dev.Repository.Permissions.{
  Access, is_authorized, Collaborators, PermissionCache, permission_of, is_fresh, fetch_permission,
  get_user_permission, stale_keys, evict_stale_permission_cache,
}

module _ (gh : Collaborators) (ttl : ℕ) where
  -- The caches that occur: at first there are no entries; the clock runs, a user is asked about,
  -- and what is stale is evicted.
  pub data Reach : ℕ → PermissionCache → Type 0 where
    start : Reach 0 []
    wait : {t t' : ℕ} {cache : PermissionCache} → t ≤ t' → Reach t cache → Reach t' cache
    ask :
        {t : ℕ} {cache : PermissionCache} (user : Text)
        → Reach t cache
        → Reach t (get_user_permission gh ttl t user cache).1
    evict :
        {t : ℕ} {cache : PermissionCache}
        → Reach t cache
        → Reach t (evict_stale_permission_cache ttl t cache)

  -- Every entry is what GitHub answered at the time that stands beside it.
  Answered : ℕ → PermissionCache → Type 0
  Answered now cache =
      (user : Text) (permission : Option Text) (at : ℕ)
      → lookup user cache ≡ some (permission, at)
      → (at ≤ now) × (permission ≡ permission_of (gh at user))

  Answered-fetch :
      (now : ℕ) (user : Text) (cache : PermissionCache)
      → Answered now cache
      → Answered now (fetch_permission gh now user cache).1
  unfolding Answered fetch_permission
  Answered-fetch now user cache h other permission at found = ground (
    arith,
    lookup-insert user other (permission_of (gh now user), now) cache,
    text_eq_iff user other,
    h other permission at,
  )

  Answered-get :
      (now : ℕ) (user : Text) (cache : PermissionCache)
      → Answered now cache
      → Answered now (get_user_permission gh ttl now user cache).1
  unfolding get_user_permission
  Answered-get now user cache h = ground (arith, Answered-fetch now user cache h)

  Answered-evict :
      (now : ℕ) (cache : PermissionCache)
      → Unique cache
      → Answered now cache
      → Answered now (evict_stale_permission_cache ttl now cache)
  unfolding evict_stale_permission_cache Answered
  Answered-evict now cache u h user permission at found =
      h user permission at
        (ground (arith, lookup-evict (λ (e : Option Text × ℕ). e.1) ttl now user cache u))

  Unique-get :
      (now : ℕ) (user : Text) (cache : PermissionCache)
      → Unique cache
      → Unique (get_user_permission gh ttl now user cache).1
  unfolding get_user_permission fetch_permission
  Unique-get now user cache u =
      ground (arith, Unique-insert user (permission_of (gh now user), now) cache u)

  Reach-Unique : {t : ℕ} {cache : PermissionCache} → Reach t cache → Unique cache
  unfolding Unique evict_stale_permission_cache
  Reach-Unique start = tt
  Reach-Unique (wait le r) = Reach-Unique r
  Reach-Unique (ask {t} {cache} user r) = Unique-get t user cache (Reach-Unique r)
  Reach-Unique (evict {t} {cache} r) =
      Unique-delete_all (stale_keys (λ (e : Option Text × ℕ). e.1) ttl t cache) cache
        (Reach-Unique r)

  Reach-Answered : {t : ℕ} {cache : PermissionCache} → Reach t cache → Answered t cache
  unfolding Answered lookup
  Reach-Answered start = λ user permission at found. absurd (none-ne-some _ found)
  Reach-Answered (wait le r) = λ user permission at found.
      let (old, same) = Reach-Answered r user permission at found in (omega arith, same)
  Reach-Answered (ask {t} {cache} user r) = Answered-get t user cache (Reach-Answered r)
  Reach-Answered (evict {t} {cache} r) = Answered-evict t cache (Reach-Unique r) (Reach-Answered r)

  -- An answer that the service gave no longer ago than the time to live.
  IsRecent : ℕ → ℕ → Type 0
  IsRecent now t = (t ≤ now) × ((now < t + ttl) ⊎ (t ≡ now))

  get_user_permission-IsRecent :
      {now : ℕ} {cache : PermissionCache} (user : Text)
      → Reach now cache
      → (t : ℕ) × IsRecent now t
        × ((get_user_permission gh ttl now user cache).0 ≡ permission_of (gh t user))
  unfolding get_user_permission fetch_permission is_fresh IsRecent Answered
  get_user_permission-IsRecent {now} {cache} user r = elim (Option-cases (lookup user cache)) [
    | inl e ↦ (now, (omega arith, inr refl), rw (get_user_permission, e) refl)
    | inr ((permission, at), e) ↦
        let (old, same) = Reach-Answered r user permission at e in
        elim (Bool-cases (ltb now (at + ttl))) [
          | inl f ↦ (at, (old, inl (ltb→lt now (at + ttl) f)), rw (get_user_permission, e, f) same)
          | inr f ↦ (now, (omega arith, inr refl), rw (get_user_permission, e, f) refl)
        ]
  ]

-- In every cache that questions and evictions lead to, the answer of is_authorized is the one
-- that the configuration and the service's own permission gave at some time that is now, or less
-- than the time to live ago: a permission that was withdrawn is not honoured for longer.
pub is_authorized-IsRecent :
    (gh : Collaborators) (access : Access) (now : ℕ) (cache : PermissionCache) (user : Text)
    → Reach gh access.permission_cache_ttl now cache
    → (t : ℕ) × (t ≤ now)
      × ((now < t + access.permission_cache_ttl) ⊎ (t ≡ now))
      × ((is_authorized gh access now user cache).0 ≡ (
          mem_text user access.allowed_users
          || permitted access.min_role (permission_of (gh t user))))
unfolding is_authorized IsRecent
is_authorized-IsRecent gh access now cache user r =
    let (t, (old, recent), same) =
      get_user_permission-IsRecent gh access.permission_cache_ttl user r in
    (t, old, recent, ground (arith, ap (permitted access.min_role) same))

-- In every cache that questions and evictions lead to, an eviction keeps the entries that are
-- fresh and no other, and changes no answer that is given at the same time.
pub evict_stale_permission_cache-get_user_permission :
    (gh : Collaborators) (ttl now : ℕ) (cache : PermissionCache) (user : Text)
    → Reach gh ttl now cache
    → (lookup user (evict_stale_permission_cache ttl now cache) ≡ elim (lookup user cache) [
      | none ↦ none
      | some entry ↦ if is_fresh ttl now entry.1 then some entry else none
    ])
      × ((get_user_permission gh ttl now user (evict_stale_permission_cache ttl now cache)).0
          ≡ (get_user_permission gh ttl now user cache).0)
unfolding get_user_permission fetch_permission evict_stale_permission_cache
evict_stale_permission_cache-get_user_permission gh ttl now cache user r =
    let kept =
      lookup-evict (λ (e : Option Text × ℕ). e.1) ttl now user cache (Reach-Unique gh ttl r) in
    (kept, ground (arith, kept))
