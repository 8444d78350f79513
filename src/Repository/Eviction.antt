-- ===== src/Repository/Eviction.antt =====
-- The eviction that the caches of loony_dev/github share, on a dictionary that has a key once.
use loony_dev.Prelude.{
  ℕ, false, not, List, [], ◌∷◌, none, some, if◌then◌else◌, Text, mem_text, ◌≡◌, refl, ◌∙◌, inl, inr,
  arith, Bool-cases, text_eq, text_eq_iff,
}
use loony_dev.Prelude.Dictionary.{Dict, lookup, insert, remove, lookup-insert, lookup-remove}
use loony_dev.Repository.Permissions.{is_fresh, stale_keys, delete_all}

-- A dictionary has a key once.
unfoldable pub Unique {ℓ} : {V : Type ℓ} → Dict V → Type ℓ
Unique [] = Unit
Unique ((k, v) ∷ m) = (lookup k m ≡ none) × Unique m

module _ {ℓ} {V : Type ℓ} where
  pub Unique-insert : (k : Text) (v : V) (m : Dict V) → Unique m → Unique (insert k v m)
  unfolding insert Unique lookup
  Unique-insert k v [] u = (refl, tt)
  Unique-insert k v ((j, w) ∷ m) u = elim (Bool-cases (text_eq j k)) [
    | inl e ↦ rw e u
    | inr e ↦ rw e (
      (lookup-insert k j v m ∙ ground (arith, text_eq_iff k j, text_eq_iff j k, u.0)),
      Unique-insert k v m u.1,
    )
  ]

  Unique-remove : (k : Text) (m : Dict V) → Unique m → Unique (remove k m)
  unfolding remove Unique
  Unique-remove k [] u = tt
  Unique-remove k ((j, w) ∷ m) u = elim (Bool-cases (text_eq j k)) [
    | inl e ↦ rw e (Unique-remove k m u.1)
    | inr e ↦ rw e ((lookup-remove k j m ∙ ground (arith, u.0)), Unique-remove k m u.1)
  ]

  pub Unique-delete_all : (ks : List Text) (m : Dict V) → Unique m → Unique (delete_all ks m)
  unfolding delete_all
  Unique-delete_all [] m u = u
  Unique-delete_all (k ∷ ks) m u = Unique-delete_all ks (remove k m) (Unique-remove k m u)

  lookup-delete_all :
      (ks : List Text) (j : Text) (m : Dict V)
      → lookup j (delete_all ks m) ≡ (if mem_text j ks then none else lookup j m)
  unfolding delete_all mem_text
  lookup-delete_all [] j m = refl
  lookup-delete_all (k ∷ ks) j m =
      ground (arith, lookup-delete_all ks j (remove k m), lookup-remove k j m)

module _ {ℓ} {V : Type ℓ} (cached_at : V → ℕ) (ttl now : ℕ) where
  mem_text-stale_keys :
      (j : Text) (m : Dict V)
      → Unique m
      → mem_text j (stale_keys cached_at ttl now m)
        ≡ elim (lookup j m) [ none ↦ false | some v ↦ not (is_fresh ttl now (cached_at v)) ]
  unfolding mem_text stale_keys lookup Unique
  mem_text-stale_keys j [] u = refl
  mem_text-stale_keys j ((k, v) ∷ m) u =
      ground (arith, text_eq_iff k j, mem_text-stale_keys j m u.1)

  -- Where a key stands once, the eviction drops the stale entries and no other.
  pub lookup-evict :
      (j : Text) (m : Dict V)
      → Unique m
      → lookup j (delete_all (stale_keys cached_at ttl now m) m) ≡ elim (lookup j m) [
        | none ↦ none
        | some v ↦ if is_fresh ttl now (cached_at v) then some v else none
      ]
  lookup-evict j m u =
      ground
        (arith, lookup-delete_all (stale_keys cached_at ttl now m) j m, mem_text-stale_keys j m u)
