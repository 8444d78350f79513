-- ===== src/Repository/Roles.antt =====
-- `_ROLE_HIERARCHY`, `_roles_at_or_above`, and the test of `is_authorized` on a permission.
use loony_dev.Prelude.{
  ℕ, zero, suc, Bool, true, false, List, [], ◌∷◌, Option, none, some, Text, codes, text_eq,
  mem_text, drop, ◌≤◌, ◌≡◌, arith,
}

abbrev pub role_hierarchy : List Text
role_hierarchy = codes "none" ∷ codes "read" ∷ codes "triage" ∷ codes "write" ∷ codes "admin" ∷ []

-- `xs.index(x)`, with `none` for `ValueError`
unfoldable pub index : Text → List Text → Option ℕ
unfolding text_eq
index x [] = none
index x (y ∷ ys) = elim (text_eq y x) [
  | true ↦ some 0
  | false ↦ elim (index x ys) [ none ↦ none | some i ↦ some (suc i) ]
]

-- The index of the role, or that of triage where it is no role.
unfoldable pub min_index : Text → ℕ
unfolding index
min_index min_role = elim (index min_role role_hierarchy) [
  | some i ↦ i
  | none ↦ elim (index (codes "triage") role_hierarchy) [ some i ↦ i | none ↦ 0 ]
]

unfoldable pub roles_at_or_above : Text → List Text
unfolding min_index
roles_at_or_above min_role = drop (min_index min_role) role_hierarchy

-- `permission in _roles_at_or_above(min_role)`
unfoldable pub permitted : Text → Option Text → Bool
unfolding roles_at_or_above
permitted min_role none = false
permitted min_role (some role) = mem_text role (roles_at_or_above min_role)

mem_text-drop :
    (t : Text) (n : ℕ) (xs : List Text) → mem_text t (drop n xs) ≡ true → mem_text t xs ≡ true
unfolding mem_text
mem_text-drop t zero xs h = h
mem_text-drop t (suc n) [] h = h
mem_text-drop t (suc n) (x ∷ xs) h = ground (arith, mem_text-drop t n xs)

mem_text-drop-le :
    (t : Text) (m n : ℕ) (xs : List Text)
    → m ≤ n
    → mem_text t (drop n xs) ≡ true
    → mem_text t (drop m xs) ≡ true
mem_text-drop-le t zero n xs le h = mem_text-drop t n xs h
mem_text-drop-le t (suc m) zero xs le h = absurd (omega arith)
mem_text-drop-le t (suc m) (suc n) [] le h = h
mem_text-drop-le t (suc m) (suc n) (x ∷ xs) le h = mem_text-drop-le t m n xs (omega arith) h

-- A permission that suffices for a role suffices for every role that is not above it.
pub permitted_mono :
    (low high : Text) (permission : Option Text)
    → min_index low ≤ min_index high
    → permitted high permission ≡ true
    → permitted low permission ≡ true
unfolding permitted
permitted_mono low high none le h = h
permitted_mono low high (some role) le h =
    mem_text-drop-le role (min_index low) (min_index high) role_hierarchy le h
