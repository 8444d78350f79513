-- ===== src/Repository/Newest.antt =====
-- Which pull request `find_pr_for_issue` answers with.
use loony_dev.Prelude.{
  if◌then◌else◌, ℤ, Bool, true, false, List, [], ◌∷◌, Option, none, some, keep, is_nonempty, ◌≡◌,
  refl, sym, ◌∙◌, ◌⊎◌, inl, inr, arith, Bool-cases, All, All-map, Text, text_lt, text_lt_irrefl,
  text_lt_trans, text_lt_total,
}
use mathlib.Core.List.{Memᴰ}
use std.Path.{subst}
use mathlib.Core.Option.{some-injective, none-ne-some}
use loony_dev.Prelude.Sorting.{sort_by, sort_by-IsSortedBy, IsSortedBy, All-sort_by, sort_by-All}
use loony_dev.Repository.Lifecycle.{
  or_else, or_empty, FoundPr, is_merged, created_later, candidates, first_number, searched,
  find_pr_for_issue,
}

text_lt_asym : (a b : Text) → text_lt a b ≡ true → text_lt b a ≡ false
text_lt_asym a b h = ground (arith, text_lt_trans a b a, text_lt_irrefl a)

text_le_trans : (a b c : Text) → text_lt b a ≡ false → text_lt c b ≡ false → text_lt c a ≡ false
text_le_trans a b c h k = elim (Bool-cases (text_lt c a)) [
  | inr no_ ↦ no_
  | inl less ↦ elim (Bool-cases (text_lt a b)) [
    | inl below ↦ absurd (ground (arith, text_lt_trans c a b less below))
    | inr above ↦ absurd (ground (arith, text_lt_total a b above h))
  ]
]

module _ {ℓ} {A : Type ℓ} where
  Memᴰ-all : (xs : List A) → All (λ x. Memᴰ x xs) xs
  Memᴰ-all [] = tt
  Memᴰ-all (x ∷ xs) = (Memᴰ.head refl, All-map (λ y. Memᴰ.tail) xs (Memᴰ-all xs))

module _ {ℓ κ} {A : Type ℓ} (P : A → Type κ) (p : A → Bool) where
  All-keep : (xs : List A) → All P xs → All (λ x. P x × (p x ≡ true)) (keep p xs)
  All-keep [] h = tt
  All-keep (x ∷ xs) h = elim (Bool-cases (p x)) [
    | inl e ↦ rw e ((h.0, e), All-keep xs h.1)
    | inr e ↦ rw e (All-keep xs h.1)
  ]

  keep-All : (xs : List A) → All P (keep p xs) → All (λ x. p x ≡ true → P x) xs
  keep-All [] h = tt
  keep-All (x ∷ xs) h = ground (arith, keep-All xs)

keep-none {ℓ} :
    {A : Type ℓ} (p : A → Bool) (xs : List A)
    → is_nonempty (keep p xs) ≡ false
    → All (λ x. p x ≡ false) xs
keep-none p [] h = tt
keep-none p (x ∷ xs) h = ground (arith, keep-none p xs)

-- An entry of a search: no entry that is merged like it is newer, and it is merged unless
-- none is.
pub record IsChosen (found : List FoundPr) (p : FoundPr) : Type 0 where
  pub member : Memᴰ p found
  pub merged : (is_merged p ≡ true) ⊎ All (λ q. is_merged q ≡ false) found
  pub newest : All (λ q. is_merged q ≡ is_merged p → created_later q p ≡ false) found

sorted : (cs : List FoundPr) → IsSortedBy created_later (sort_by created_later cs)
unfolding created_later
sorted =
    sort_by-IsSortedBy created_later
      (λ a b c.
        text_le_trans (or_empty a.created_at) (or_empty b.created_at) (or_empty c.created_at))
      (λ a b. text_lt_asym (or_empty b.created_at) (or_empty a.created_at))

-- Nothing in a sorted list is newer than its head.
newest_head :
    (cs rest : List FoundPr) (p : FoundPr)
    → sort_by created_later cs ≡ p ∷ rest
    → All (λ q. created_later q p ≡ false) cs
unfolding created_later
newest_head cs rest p e =
    let order = subst (IsSortedBy created_later) e (sorted cs) in
    sort_by-All (λ q. created_later q p ≡ false) created_later cs
      (subst (All (λ q. created_later q p ≡ false)) (sym e)
        (text_lt_irrefl (or_empty p.created_at), order.0))

module _ (found rest : List FoundPr) (p : FoundPr) where
  IsChosen-merged : sort_by created_later (keep is_merged found) ≡ p ∷ rest → IsChosen found p
  IsChosen-merged e =
      let Entry : FoundPr → Type 0 = λ q. Memᴰ q found × (is_merged q ≡ true) in
      let (member, merged) =
        (subst (All Entry) e (
          All-sort_by Entry created_later (keep is_merged found)
            (All-keep (λ q. Memᴰ q found) is_merged found (Memᴰ-all found)))).0 in
      record {
        member = member;
        merged = inl merged;
        newest =
            All-map (λ q h same. h (same ∙ merged)) found
              (keep-All (λ q. created_later q p ≡ false) is_merged found
                (newest_head (keep is_merged found) rest p e));
      }

  IsChosen-any :
      is_nonempty (keep is_merged found) ≡ false
      → sort_by created_later found ≡ p ∷ rest
      → IsChosen found p
  IsChosen-any none_merged e = record {
    member =
        (subst (All (λ q. Memᴰ q found)) e
          (All-sort_by (λ q. Memᴰ q found) created_later found (Memᴰ-all found))).0;
    merged = inr (keep-none is_merged found none_merged);
    newest = All-map (λ q h same. h) found (newest_head found rest p e);
  }

first_number-cases :
    (ps : List FoundPr) (n : ℤ)
    → first_number ps ≡ some n
    → (p : FoundPr) × (rest : List FoundPr) × (ps ≡ p ∷ rest) × (p.number ≡ n)
unfolding first_number
first_number-cases [] n e = absurd (none-ne-some _ e)
first_number-cases (p ∷ ps) n e = (p, ps, refl, some-injective _ _ e)

searched-IsChosen :
    (found : List FoundPr) (n : ℤ)
    → searched (some found) ≡ some n
    → (p : FoundPr) × (p.number ≡ n) × IsChosen found p
unfolding searched candidates
searched-IsChosen found n e = elim (Bool-cases (is_nonempty (keep is_merged found))) [
  | inl some_merged ↦
      let (p, rest, split, number) =
        first_number-cases (sort_by created_later (keep is_merged found)) n (
          subst
            (λ b.
              first_number (sort_by created_later (if b then keep is_merged found else found))
              ≡ some n)
            some_merged e) in
      (p, number, IsChosen-merged found rest p split)
  | inr none_merged ↦
      let (p, rest, split, number) = first_number-cases (sort_by created_later found) n (
        subst
          (λ b.
            first_number (sort_by created_later (if b then keep is_merged found else found))
            ≡ some n)
          none_merged e) in
      (p, number, IsChosen-any found rest p none_merged split)
]

answered :
    (o : Option (List FoundPr)) (n : ℤ)
    → searched o ≡ some n
    → (found : List FoundPr) × (o ≡ some found) × (p : FoundPr) × (p.number ≡ n) × IsChosen found p
unfolding searched
answered none n e = absurd (none-ne-some _ e)
answered (some found) n e =
    let (p, number, chosen) = searched-IsChosen found n e in (found, refl, p, number, chosen)

or_else-cases :
    (a b : Option ℤ) (n : ℤ) → or_else a b ≡ some n → (a ≡ some n) ⊎ ((a ≡ none) × (b ≡ some n))
or_else-cases none b n e = inr (refl, e)
or_else-cases (some m) b n e = inl e

-- The pull request found for an issue stands in the first search that yields one. It is merged
-- unless no entry of that search is, and of the entries that are merged like it none is newer.
pub find_pr_for_issue-IsChosen :
    (in_title anywhere : Option (List FoundPr)) (n : ℤ)
    → find_pr_for_issue in_title anywhere ≡ some n
    → (found : List FoundPr) × ((in_title ≡ some found)
        ⊎ ((searched in_title ≡ none) × (anywhere ≡ some found)))
      × (p : FoundPr) × (p.number ≡ n)
      × IsChosen found p
unfolding find_pr_for_issue
find_pr_for_issue-IsChosen in_title anywhere n e =
    elim (or_else-cases (searched in_title) (searched anywhere) n e) [
      | inl h ↦
          let (found, same, p, number, chosen) = answered in_title n h in
          (found, inl same, p, number, chosen)
      | inr (nothing, h) ↦
          let (found, same, p, number, chosen) = answered anywhere n h in
          (found, inr (nothing, same), p, number, chosen)
    ]
