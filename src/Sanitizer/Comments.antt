-- ===== src/Sanitizer/Comments.antt =====
-- What a hidden comment is, and that the scanner finds every one and nothing else.
use mathlib.Core.Option.{none-ne-some}
use loony_dev.Prelude.{
  zero, suc, some, true, ℕ, ◌+◌, ◌≤◌, ◌<◌, [], ◌∷◌, ◌++◌, Text, codes, length, drop, find,
  starts_with, ◌≡◌, refl, sym, ap, ◌∙◌, inl, inr, arith, Bool-cases, Option-cases,
}
use loony_dev.Sanitizer.{pred, comment_length, strip_comments}

-- Somewhere in the text a comment opens, and behind that one closes.
pub HasComment : Text → Type 0
HasComment s =
    (before : Text) × (body : Text) × (after : Text) × (s
      ≡ before ++ (codes "<!--" ++ (body ++ (codes "-->" ++ after))))

-- The text behind a prefix, and around the first match.
starts_with-split : (p s : Text) → starts_with p s ≡ true → (rest : Text) × (s ≡ p ++ rest)
unfolding starts_with
starts_with-split [] s h = (s, refl)
starts_with-split (x ∷ p) [] h = cc
starts_with-split (x ∷ p) (c ∷ s) h =
    let (rest, e) = starts_with-split p s (ground arith) in (rest, ground (arith, h, e))

find-split :
    (p s : Text) (i : ℕ)
    → find p s ≡ some i
    → (before : Text) × (after : Text) × (s ≡ before ++ (p ++ after))
unfolding find
find-split p [] i h = elim (Bool-cases (starts_with p [])) [
  | inl e ↦ let (rest, same) = starts_with-split p [] e in ([], rest, same)
  | inr e ↦ absurd (none-ne-some _ (rw (find, e) at h))
]
find-split p (c ∷ s) i h = elim (Bool-cases (starts_with p (c ∷ s))) [
  | inl e ↦ let (rest, same) = starts_with-split p (c ∷ s) e in ([], rest, same)
  | inr e ↦ elim (Option-cases (find p s)) [
    | inl k ↦ absurd (none-ne-some _ (rw (find, e, k) at h))
    | inr (n, k) ↦
        let (before, after, same) = find-split p s n k in (c ∷ before, after, ap (λ t. c ∷ t) same)
  ]
]

find-present :
    (body after : Text) → (i : ℕ) × (find (codes "-->") (body ++ (codes "-->" ++ after)) ≡ some i)
unfolding find starts_with
find-present [] after = (0, refl)
find-present (c ∷ body) after =
    let (i, e) = find-present body after in
    let s = body ++ (codes "-->" ++ after) in
    elim (Bool-cases (starts_with (codes "-->") (c ∷ s))) [
      | inl k ↦ (0, rw (find, k) refl)
      | inr k ↦ (suc i, rw (find, k, e) refl)
    ]

comment_length-present :
    (body after : Text)
    → (n : ℕ) × (comment_length (codes "<!--" ++ (body ++ (codes "-->" ++ after))) ≡ some n)
unfolding comment_length starts_with
comment_length-present body after =
    let (i, e) = find-present body after in (i + 7, rw (comment_length, e) refl)

comment_length-HasComment : (s : Text) (n : ℕ) → comment_length s ≡ some n → HasComment s
unfolding comment_length HasComment
comment_length-HasComment s n h = elim (Bool-cases (starts_with (codes "<!--") s)) [
  | inl e ↦
      let (rest, same) = starts_with-split (codes "<!--") s e in
      elim (Option-cases (find (codes "-->") (drop 4 s))) [
        | inl k ↦ absurd (none-ne-some _ (rw (comment_length, e, k) at h))
        | inr (i, k) ↦
            let (body, after, inside) = find-split (codes "-->") (drop 4 s) i k in
            ([], body, after, same ∙ ap (λ t. codes "<!--" ++ t) (sym (ap (drop 4) same) ∙ inside))
      ]
  | inr e ↦ absurd (none-ne-some _ (rw (comment_length, e) at h))
]

length-strip_comments-le : (skip : ℕ) (s : Text) → length (strip_comments skip s) ≤ length s
unfolding strip_comments
length-strip_comments-le skip [] = omega arith
length-strip_comments-le (suc skip) (c ∷ s) = omega (arith, length-strip_comments-le skip s)
length-strip_comments-le zero (c ∷ s) = elim (Option-cases (comment_length (c ∷ s))) [
  | inl e ↦ rw (strip_comments, e) (omega (arith, length-strip_comments-le 0 s))
  | inr (n, e) ↦ rw (strip_comments, e) (omega (arith, length-strip_comments-le (pred n) s))
]

-- A text with a comment gets shorter.
length-strip_comments-lt :
    (before body after : Text)
    → length (strip_comments 0 (before ++ (codes "<!--" ++ (body ++ (codes "-->" ++ after)))))
      < length (before ++ (codes "<!--" ++ (body ++ (codes "-->" ++ after))))
unfolding strip_comments
length-strip_comments-lt [] body after =
    let rest = codes "!--" ++ (body ++ (codes "-->" ++ after)) in
    let (n, e) = comment_length-present body after in
    rw (strip_comments, e) (omega (arith, length-strip_comments-le (pred n) rest))
length-strip_comments-lt (c ∷ before) body after =
    let s = before ++ (codes "<!--" ++ (body ++ (codes "-->" ++ after))) in
    elim (Option-cases (comment_length (c ∷ s))) [
      | inl e ↦ rw (strip_comments, e) (omega (arith, length-strip_comments-lt before body after))
      | inr (n, e) ↦ rw (strip_comments, e) (omega (arith, length-strip_comments-le (pred n) s))
    ]

-- What the scanner leaves as it is has no comment, and the other way round.
pub strip_comments-HasComment : (s : Text) → strip_comments 0 s ≡ s → ¬ HasComment s
unfolding HasComment
strip_comments-HasComment s same (before, body, after, e) =
    let shorter = length-strip_comments-lt before body after in
    let kept : length (strip_comments 0 s) ≡ length s = ap length same in
    let moved = ap (λ t. length (strip_comments 0 t)) e in
    omega (arith, shorter, kept, moved, ap length e)

pub HasComment-strip_comments : (s : Text) → ¬ HasComment s → strip_comments 0 s ≡ s
unfolding strip_comments HasComment
HasComment-strip_comments [] h = refl
HasComment-strip_comments (c ∷ s) h = elim (Option-cases (comment_length (c ∷ s))) [
  | inl e ↦
      rw (strip_comments, e)
        (ap (λ t. c ∷ t)
          (HasComment-strip_comments s
            (λ (before, body, after, same). h (c ∷ before, body, after, ap (λ t. c ∷ t) same))))
  | inr (n, e) ↦ absurd (h (comment_length-HasComment (c ∷ s) n e))
]
