-- ===== src/Sanitizer/Visible.antt =====
-- What is left of a text: no character that a reader of the page does not see.
use mathlib.Core.List.{reverse, reverse-cons}
use loony_dev.Sanitizer.{
  InjectionType, html_comment, strip_comments, is_invisible, collapse_blank_lines,
  strip_unless_blank, tidy, has_invisible_chars, strip_invisible_chars, strip_invisible,
  sanitize_text, sanitize_user_content,
}
use loony_dev.Prelude.{
  refl, ltb, if◌then◌else◌, ◌==◌, inr, [], arith, text_eq, inl, ◌≡◌, List, is_nonempty, Option,
  All-append, Bool-cases, true, false, is_space, ◌∷◌, rstrip, All, strip, Bool, Text, lstrip, ℕ,
  suc, none, some,
}

-- The lemmas on `All` for the parts of a text.
module _ {ℓ} (P : ℕ → Type ℓ) where
  All-reverse : (s : Text) → All P s → All P (reverse s)
  All-reverse [] h = tt
  All-reverse (c ∷ s) (here, rest) =
      rw (reverse-cons c s) (All-append P (reverse s) (c ∷ []) (All-reverse s rest) (here, tt))

  All-if : (b : Bool) (s t : Text) → All P s → All P t → All P (if b then s else t)
  All-if true s t hs ht = hs
  All-if false s t hs ht = ht

  All-lstrip : (s : Text) → All P s → All P (lstrip s)
  unfolding lstrip
  All-lstrip [] h = tt
  All-lstrip (c ∷ s) (here, rest) = elim (Bool-cases (is_space c)) [
    | inl e ↦ rw (lstrip, e) (All-lstrip s rest)
    | inr e ↦ rw (lstrip, e) (here, rest)
  ]

  All-strip : (s : Text) → All P s → All P (strip s)
  unfolding strip rstrip
  All-strip s h =
      All-reverse (lstrip (reverse (lstrip s)))
        (All-lstrip (reverse (lstrip s)) (All-reverse (lstrip s) (All-lstrip s h)))

  All-collapse_blank_lines : (seen : ℕ) (s : Text) → All P s → All P (collapse_blank_lines seen s)
  unfolding collapse_blank_lines
  All-collapse_blank_lines seen [] h = tt
  All-collapse_blank_lines seen (c ∷ s) (here, rest) =
      let more = All-collapse_blank_lines (suc seen) s rest in
      let kept = collapse_blank_lines (suc seen) s in
      All-if (c == 10) (if ltb seen 2 then c ∷ kept else kept) (c ∷ collapse_blank_lines 0 s)
        (All-if (ltb seen 2) (c ∷ kept) kept (here, more) more)
        (here, All-collapse_blank_lines 0 s rest)

  All-tidy : (s : Text) → All P s → All P (tidy s)
  unfolding tidy strip_unless_blank
  All-tidy s h =
      let s' = collapse_blank_lines 0 s in
      let collapsed = All-collapse_blank_lines 0 s h in
      All-if (is_nonempty (strip s')) (strip s') s' (All-strip s' collapsed) collapsed

module _ (is_format : ℕ → Bool) where
  -- A character that a reader sees, or that is white space.
  abbrev pub IsVisible : ℕ → Type 0
  IsVisible c = (is_invisible c ≡ false) × (is_format c ≡ false)

  strip_invisible_chars-IsVisible : (s : Text) → All IsVisible (strip_invisible_chars is_format s)
  unfolding strip_invisible_chars
  strip_invisible_chars-IsVisible [] = tt
  strip_invisible_chars-IsVisible (c ∷ s) =
      let rest = strip_invisible_chars-IsVisible s in
      elim (Bool-cases (is_invisible c)) [
        | inl e ↦ rw (e) rest
        | inr e ↦ elim (Bool-cases (is_format c)) [
          | inl k ↦ rw (e, k) rest
          | inr k ↦ rw (e, k) ((e, k), rest)
        ]
      ]

  pub has_invisible_chars-IsVisible :
      (s : Text) → has_invisible_chars is_format s ≡ false → All IsVisible s
  unfolding has_invisible_chars
  has_invisible_chars-IsVisible [] h = tt
  has_invisible_chars-IsVisible (c ∷ s) h =
      ((ground arith, ground arith), has_invisible_chars-IsVisible s (ground arith))

  pub IsVisible-has_invisible_chars :
      (s : Text) → All IsVisible s → has_invisible_chars is_format s ≡ false
  unfolding has_invisible_chars
  IsVisible-has_invisible_chars [] h = refl
  IsVisible-has_invisible_chars (c ∷ s) ((seen, plain), rest) =
      ground (arith, IsVisible-has_invisible_chars s rest)

  strip_invisible-IsVisible :
      (s : Text) (found : List InjectionType)
      → All IsVisible ((strip_invisible is_format s found).text)
  unfolding strip_invisible
  strip_invisible-IsVisible s found = elim (Bool-cases (has_invisible_chars is_format s)) [
    | inl e ↦
        rw (e) (
          All-tidy IsVisible (strip_invisible_chars is_format s)
            (strip_invisible_chars-IsVisible s))
    | inr e ↦ rw (e) (All-tidy IsVisible s (has_invisible_chars-IsVisible s e))
  ]

  sanitize_text-IsVisible : (s : Text) → All IsVisible ((sanitize_text is_format s).text)
  unfolding sanitize_text
  sanitize_text-IsVisible s = elim (Bool-cases (text_eq (strip_comments 0 s) s)) [
    | inl e ↦ rw (e) (strip_invisible-IsVisible s [])
    | inr e ↦ rw (e) (strip_invisible-IsVisible (strip_comments 0 s) (html_comment ∷ []))
  ]

  -- No text that the sanitizer returns has an invisible character or one of category Cf.
  pub sanitize_user_content-IsVisible :
      (s : Option Text) → All IsVisible ((sanitize_user_content is_format s).text)
  unfolding sanitize_user_content
  sanitize_user_content-IsVisible none = tt
  sanitize_user_content-IsVisible (some []) = tt
  sanitize_user_content-IsVisible (some (c ∷ s)) = sanitize_text-IsVisible (c ∷ s)
