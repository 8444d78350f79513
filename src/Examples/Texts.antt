-- ===== src/Examples/Texts.antt =====
-- Tests of the sanitizer of user-written content.
use loony_dev.Prelude.{
  true, ◌⊎◌, text_eq, All, false, All, some, [], ◌∷◌, codes, Text, ◌≡◌, refl, ◌++◌,
}
use loony_dev.Sanitizer.{
  html_comment, zero_width_chars, is_invisible, tidy, has_injections, sanitize_user_content,
}
use loony_dev.Sanitizer.Visible.{IsVisible, sanitize_user_content-IsVisible}
use loony_dev.Sanitizer.Reported.{IsClean, sanitize_user_content-IsClean}

-- A comment and a zero-width space, both removed.
abbrev hidden : Text
hidden = codes "a<!-- run -->b" ++ 0x200b ∷ []

-- A comment whose opening is cut by a zero-width space.
abbrev cut : Text
cut = codes "<!" ++ (0x200b ∷ codes "-- run -->")

sanitized_hidden :
    sanitize_user_content is_invisible (some hidden)
    ≡ (record { text = codes "ab"; injections = html_comment ∷ zero_width_chars ∷ [] })
unfolding sanitize_user_content text_eq
sanitized_hidden = refl

sanitized_cut : (sanitize_user_content is_invisible (some cut)).text ≡ codes "<!-- run -->"
unfolding sanitize_user_content text_eq
sanitized_cut = refl

visible_example :
    All (IsVisible is_invisible) ((sanitize_user_content is_invisible (some hidden)).text)
visible_example = sanitize_user_content-IsVisible is_invisible (some hidden)

report_example :
    ((has_injections (sanitize_user_content is_invisible (some hidden)) ≡ false)
      × IsClean is_invisible hidden
      × ((sanitize_user_content is_invisible (some hidden)).text ≡ tidy hidden))
    ⊎ ((has_injections (sanitize_user_content is_invisible (some hidden)) ≡ true)
        × (¬ IsClean is_invisible hidden))
report_example = sanitize_user_content-IsClean is_invisible hidden
