-- ===== src/Sanitizer/Reported.antt =====
-- What the sanitizer reports, and what it removes without a report.
use mathlib.Core.Bool.{false≢true}
use loony_dev.Prelude.{
  sym, ◌⊎◌, sym, ◌∙◌, codes, refl, inr, inl, is_nonempty, arith, [], ◌∷◌, List, Text, ◌++◌, text_eq,
  text_eq_iff, Bool-cases, ◌≡◌, Bool, All, ℕ, some, true, false,
}
use loony_dev.Sanitizer.Comments.{HasComment, strip_comments-HasComment, HasComment-strip_comments}
use loony_dev.Sanitizer.Visible.{
  IsVisible, has_invisible_chars-IsVisible, IsVisible-has_invisible_chars,
}
use loony_dev.Sanitizer.{
  InjectionType, html_comment, strip_comments, tidy, has_invisible_chars, strip_invisible,
  sanitize_text, sanitize_user_content, has_injections,
}

-- What is skipped behind the first character of a comment.
abbrev comment_rest : Text → Text
comment_rest body = codes "!--" ++ (body ++ codes "-->")

module _ (is_format : ℕ → Bool) where
  strip_invisible-reported :
      (s : Text) (found : List InjectionType)
      → is_nonempty found ≡ true
      → has_injections (strip_invisible is_format s found) ≡ true
  unfolding strip_invisible has_injections
  strip_invisible-reported s [] h = cc
  strip_invisible-reported s (x ∷ found) h = elim (Bool-cases (has_invisible_chars is_format s)) [
    | inl e ↦ rw (e) refl
    | inr e ↦ rw (e) refl
  ]

  sanitize_text-Clean :
      (s : Text)
      → has_injections (sanitize_text is_format s) ≡ false
      → (strip_comments 0 s ≡ s)
        × ((has_invisible_chars is_format s ≡ false) × ((sanitize_text is_format s).text ≡ tidy s))
  unfolding sanitize_text strip_invisible has_injections
  sanitize_text-Clean s h = elim (Bool-cases (text_eq (strip_comments 0 s) s)) [
    | inl e ↦ elim (Bool-cases (has_invisible_chars is_format s)) [
      | inl k ↦ cc
      | inr k ↦ ((text_eq_iff (strip_comments 0 s) s).0 e, (k, rw (e, k) refl))
    ]
    | inr e ↦ ground (arith, strip_invisible-reported (strip_comments 0 s) (html_comment ∷ []) refl)
  ]

  sanitize_user_content-Clean :
      (s : Text)
      → has_injections (sanitize_user_content is_format (some s)) ≡ false
      → (¬ HasComment s)
        × All (IsVisible is_format) s
        × ((sanitize_user_content is_format (some s)).text ≡ tidy s)
  unfolding sanitize_user_content
  sanitize_user_content-Clean [] h = (strip_comments-HasComment [] refl, tt, refl)
  sanitize_user_content-Clean (c ∷ s) h =
      let (same, (visible, tidied)) = sanitize_text-Clean (c ∷ s) h in
      (
        strip_comments-HasComment (c ∷ s) same,
        has_invisible_chars-IsVisible is_format (c ∷ s) visible,
        tidied,
      )

  sanitize_user_content-has_injections :
      (s : Text)
      → ¬ HasComment s
      → All (IsVisible is_format) s
      → has_injections (sanitize_user_content is_format (some s)) ≡ false
  unfolding sanitize_user_content sanitize_text strip_invisible has_injections
  sanitize_user_content-has_injections [] none_there visible = refl
  sanitize_user_content-has_injections (c ∷ s) none_there visible =
      rw
        (
          (text_eq_iff (strip_comments 0 (c ∷ s)) (c ∷ s)).1
              (HasComment-strip_comments (c ∷ s) none_there),
          IsVisible-has_invisible_chars is_format (c ∷ s) visible,
        )
        refl

  -- A text that hides nothing: no comment, and no character that is not visible.
  pub IsClean : Text → Type 0
  IsClean s = (¬ HasComment s) × All (IsVisible is_format) s

  -- Nothing is reported exactly of a text without a comment, wherever one may open and close in it,
  -- and without a character that is invisible or of category Cf; and such a text is only rid of
  -- excess blank lines and of the white space around it. Of every other text something is reported.
  pub sanitize_user_content-IsClean :
      (s : Text)
      → ((has_injections (sanitize_user_content is_format (some s)) ≡ false)
          × IsClean s
          × ((sanitize_user_content is_format (some s)).text ≡ tidy s))
        ⊎ ((has_injections (sanitize_user_content is_format (some s)) ≡ true) × (¬ IsClean s))
  unfolding IsClean
  sanitize_user_content-IsClean s =
      elim (Bool-cases (has_injections (sanitize_user_content is_format (some s)))) [
        | inl e ↦ inr (
          e,
          λ (plain, visible).
              false≢true (sym (sanitize_user_content-has_injections s plain visible) ∙ e),
        )
        | inr e ↦
            let (plain, visible, tidied) = sanitize_user_content-Clean s e in
            inl (e, (plain, visible), tidied)
      ]
