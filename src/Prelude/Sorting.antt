-- ===== src/Prelude/Sorting.antt =====
-- The stable sort of `list.sort` and `sorted`, as insertion sort under a strict order test.
use mathlib.Core.Path.{◌≡◌}
use mathlib.Core.Bool.{Bool, true, false}
use mathlib.Core.List.{List, [], ◌∷◌, Perm}
use mathlib.Core.List.Perm
use native.Mathlib.Omega.{arith}
use loony_dev.Prelude.Tests.{if◌then◌else◌, Bool-cases}
use mathlib.Core.Logic.{inl, inr}
use loony_dev.Prelude.Lists.{All}

module _ {ℓ} {A : Type ℓ} where
  unfoldable pub insert_by : (A → A → Bool) → A → List A → List A
  insert_by lt x [] = x ∷ []
  insert_by lt x (y ∷ ys) = if lt y x then y ∷ insert_by lt x ys else x ∷ (y ∷ ys)

  unfoldable pub sort_by : (A → A → Bool) → List A → List A
  unfolding insert_by
  sort_by lt [] = []
  sort_by lt (x ∷ xs) = insert_by lt x (sort_by lt xs)

  insert_by-perm : (lt : A → A → Bool) (x : A) (ys : List A) → Perm (insert_by lt x ys) (x ∷ ys)
  unfolding insert_by
  insert_by-perm lt x [] = Perm.refl (x ∷ [])
  insert_by-perm lt x (y ∷ ys) = elim (Bool-cases (lt y x)) [
    | inl e ↦ rw e (Perm.trans (Perm.cons y (insert_by-perm lt x ys)) (Perm.swap x y ys))
    | inr e ↦ rw e (Perm.refl (x ∷ y ∷ ys))
  ]

  -- Nothing is lost or made up.
  pub sort_by-perm : (lt : A → A → Bool) (xs : List A) → Perm (sort_by lt xs) xs
  unfolding sort_by
  sort_by-perm lt [] = Perm.refl []
  sort_by-perm lt (x ∷ xs) =
      Perm.trans (insert_by-perm lt x (sort_by lt xs)) (Perm.cons x (sort_by-perm lt xs))

  -- No later element is below an earlier one.
  abbrev pub IsSortedBy : (A → A → Bool) → List A → Type 0
  IsSortedBy lt [] = Unit {0}
  IsSortedBy lt (x ∷ xs) = All (λ y. lt y x ≡ false) xs × IsSortedBy lt xs

module _ {ℓ} {A : Type ℓ} (lt : A → A → Bool)
    (trans : (a b c : A) → lt a b ≡ false → lt b c ≡ false → lt a c ≡ false)
    (asym : (a b : A) → lt a b ≡ true → lt b a ≡ false) where
  All-insert_by :
      (z x : A) (ys : List A)
      → lt x z ≡ false
      → All (λ y. lt y z ≡ false) ys
      → All (λ y. lt y z ≡ false) (insert_by lt x ys)
  unfolding insert_by
  All-insert_by z x [] h k = (h, tt)
  All-insert_by z x (y ∷ ys) h k = ground (arith, All-insert_by z x ys h k.1)

  All-trans :
      (x y : A) (ys : List A)
      → lt y x ≡ false
      → All (λ z. lt z y ≡ false) ys
      → All (λ z. lt z x ≡ false) ys
  All-trans x y [] h k = tt
  All-trans x y (z ∷ ys) h k = (trans z y x k.0 h, All-trans x y ys h k.1)

  insert_by-IsSortedBy :
      (x : A) (ys : List A) → IsSortedBy lt ys → IsSortedBy lt (insert_by lt x ys)
  unfolding insert_by
  insert_by-IsSortedBy x [] h = (tt, tt)
  insert_by-IsSortedBy x (y ∷ ys) h = elim (Bool-cases (lt y x)) [
    | inl e ↦ rw e (All-insert_by y x ys (asym y x e) h.0, insert_by-IsSortedBy x ys h.1)
    | inr e ↦ rw e ((e, All-trans x y ys e h.0), h)
  ]

  pub sort_by-IsSortedBy : (xs : List A) → IsSortedBy lt (sort_by lt xs)
  unfolding sort_by
  sort_by-IsSortedBy [] = tt
  sort_by-IsSortedBy (x ∷ xs) = insert_by-IsSortedBy x (sort_by lt xs) (sort_by-IsSortedBy xs)

module _ {ℓ κ} {A : Type ℓ} (P : A → Type κ) (lt : A → A → Bool) where
  All-insert : (x : A) (ys : List A) → P x → All P ys → All P (insert_by lt x ys)
  unfolding insert_by
  All-insert x [] h k = (h, tt)
  All-insert x (y ∷ ys) h k = ground (arith, All-insert x ys h k.1)

  pub All-sort_by : (xs : List A) → All P xs → All P (sort_by lt xs)
  unfolding sort_by
  All-sort_by [] h = tt
  All-sort_by (x ∷ xs) h = All-insert x (sort_by lt xs) h.0 (All-sort_by xs h.1)

  insert_by-All : (x : A) (ys : List A) → All P (insert_by lt x ys) → P x × All P ys
  unfolding insert_by
  insert_by-All x [] h = h
  insert_by-All x (y ∷ ys) h = ground (arith, insert_by-All x ys)

  pub sort_by-All : (xs : List A) → All P (sort_by lt xs) → All P xs
  unfolding sort_by
  sort_by-All [] h = tt
  sort_by-All (x ∷ xs) h =
      let (here, rest) = insert_by-All x (sort_by lt xs) h in (here, sort_by-All xs rest)
