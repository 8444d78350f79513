-- ===== src/Repository/Permissions.antt =====
-- `get_user_permission`, `is_authorized`, and the eviction of what is stale. A time is a number of
-- ticks of the monotonic clock.
use loony_dev.Prelude.{
  ℕ, ◌+◌, Bool, true, List, [], ◌∷◌, Option, none, some, if◌then◌else◌, ltb, Text, mem_text,
}
use loony_dev.Prelude.Dictionary.{Dict, lookup, insert, remove}
use loony_dev.Repository.Roles.{permitted}

-- The answer of `gh api .../permission` at a time; `none` is `CalledProcessError`.
abbrev pub Collaborators : Type 0
Collaborators = ℕ → Text → Option Text

-- `username -> (permission_level, monotonic_timestamp)`
abbrev pub PermissionCache : Type 0
PermissionCache = Dict (Option Text × ℕ)

-- `output if output else None`, and `None` for the error
unfoldable pub permission_of : Option Text → Option Text
permission_of none = none
permission_of (some []) = none
permission_of (some (c ∷ s)) = some (c ∷ s)

-- `now - cached_at < ttl`, for a clock that does not run backwards
unfoldable pub is_fresh : ℕ → ℕ → ℕ → Bool
is_fresh ttl now cached_at = ltb now (cached_at + ttl)

unfoldable pub fetch_permission :
    Collaborators → ℕ → Text → PermissionCache → Option Text × PermissionCache
unfolding permission_of
fetch_permission gh now user cache =
    let permission = permission_of (gh now user) in
    (permission, insert user (permission, now) cache)

unfoldable pub get_user_permission :
    Collaborators → ℕ → ℕ → Text → PermissionCache → Option Text × PermissionCache
unfolding is_fresh fetch_permission
get_user_permission gh ttl now user cache = elim (lookup user cache) [
  | none ↦ fetch_permission gh now user cache
  | some entry ↦
      if is_fresh ttl now entry.1 then (entry.0, cache) else fetch_permission gh now user cache
]

-- The settings that `is_authorized` reads.
pub record Access : Type 0 where
  pub allowed_users : List Text
  pub min_role : Text
  pub permission_cache_ttl : ℕ

unfoldable pub is_authorized :
    Collaborators → Access → ℕ → Text → PermissionCache → Bool × PermissionCache
unfolding get_user_permission
is_authorized gh access now user cache =
    if mem_text user access.allowed_users
    then (true, cache)
    else (let (permission, cache') =
          get_user_permission gh access.permission_cache_ttl now user cache in
        (permitted access.min_role permission, cache'))

module _ {ℓ} {V : Type ℓ} (cached_at : V → ℕ) (ttl now : ℕ) where
  -- `[k for k, v in cache.items() if now - v.cached_at >= ttl]`
  unfoldable pub stale_keys : Dict V → List Text
  unfolding is_fresh
  stale_keys [] = []
  stale_keys ((k, v) ∷ m) =
      if is_fresh ttl now (cached_at v) then stale_keys m else k ∷ stale_keys m

module _ {ℓ} {V : Type ℓ} where
  -- `for k in keys: del cache[k]`
  unfoldable pub delete_all : List Text → Dict V → Dict V
  unfolding remove
  delete_all [] m = m
  delete_all (k ∷ ks) m = delete_all ks (remove k m)

unfoldable pub evict_stale_permission_cache : ℕ → ℕ → PermissionCache → PermissionCache
unfolding stale_keys delete_all
evict_stale_permission_cache ttl now cache =
    delete_all (stale_keys (λ entry. entry.1) ttl now cache) cache
