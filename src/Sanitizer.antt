-- ===== src/Sanitizer.antt =====
-- The sanitizer of user-written content, sanitize.py: `sanitize_user_content` with its helpers.
-- A regular expression of the source is a scanner over the text. Whether a code point has Unicode's
-- category Cf (`unicodedata.category`) is a parameter.
use Prim.Native.Nat.{pred}
use loony_dev.Prelude.{
  not, keep, ◌+◌, none, some, drop, ◌&&◌, leb, some, ◌++◌, ◌||◌, [], ltb, text_eq, codes, List,
  any_of, if◌then◌else◌, find, Option, ◌==◌, is_nonempty, ◌∷◌, Text, Bool, starts_with, ℕ, strip,
  zero, suc,
}
pub mod Visible
pub mod Comments
pub mod Reported

pub data InjectionType : Type 0 where
  html_comment : InjectionType
  zero_width_chars : InjectionType

pub record SanitizeResult : Type 0 where
  pub text : Text
  pub injections : List InjectionType

-- `SanitizeResult.has_injections`
unfoldable pub has_injections : SanitizeResult → Bool
has_injections r = is_nonempty r.injections

-- The length of the match of `<!--.*?-->` that starts here, with `.` for any character.
unfoldable pub comment_length : Text → Option ℕ
unfolding starts_with find
comment_length s =
    if starts_with (codes "<!--") s
    then elim (find (codes "-->") (drop 4 s)) [ none ↦ none | some i ↦ some (i + 7) ]
    else none

-- `_HTML_COMMENT_RE.sub("", text)`, with the number of characters of the match left to skip.
unfoldable pub strip_comments : ℕ → Text → Text
unfolding comment_length
strip_comments skip [] = []
strip_comments (suc skip) (c ∷ s) = strip_comments skip s
strip_comments zero (c ∷ s) = elim (comment_length (c ∷ s)) [
  | none ↦ c ∷ strip_comments 0 s
  | some n ↦ strip_comments (pred n) s
]

-- `_INVISIBLE_CHARS_RE` at one character
unfoldable pub is_invisible : ℕ → Bool
is_invisible c =
    c == 0xad
    || (leb 0x200b c && leb c 0x200d)
    || c == 0x2060
    || c == 0xfeff
    || (leb 0x202a c && leb c 0x202e)
    || (leb 0x2066 c && leb c 0x2069)

-- `_EXCESS_BLANK_LINES_RE.sub("\n\n", text)`, with the number of line feeds just seen.
unfoldable pub collapse_blank_lines : ℕ → Text → Text
collapse_blank_lines seen [] = []
collapse_blank_lines seen (c ∷ s) =
    if c == 10
    then (let rest = collapse_blank_lines (suc seen) s in if ltb seen 2 then c ∷ rest else rest)
    else c ∷ collapse_blank_lines 0 s

-- The text without the white space around it, unless it is nothing else.
unfoldable pub strip_unless_blank : Text → Text
unfolding strip
strip_unless_blank s = if is_nonempty (strip s) then strip s else s

unfoldable pub tidy : Text → Text
unfolding collapse_blank_lines strip_unless_blank
tidy s = strip_unless_blank (collapse_blank_lines 0 s)

module _ (is_format : ℕ → Bool) where
  unfoldable pub has_invisible_chars : Text → Bool
  unfolding is_invisible
  has_invisible_chars s = any_of is_invisible s || any_of is_format s

  unfoldable pub strip_invisible_chars : Text → Text
  unfolding is_invisible
  strip_invisible_chars s = keep (λ c. not (is_format c)) (keep (λ c. not (is_invisible c)) s)

  unfoldable pub strip_invisible : Text → List InjectionType → SanitizeResult
  unfolding has_invisible_chars strip_invisible_chars tidy
  strip_invisible s found =
      if has_invisible_chars s
      then (record {
        text = tidy (strip_invisible_chars s);
        injections = found ++ zero_width_chars ∷ [];
      })
      else (record { text = tidy s; injections = found })

  unfoldable pub sanitize_text : Text → SanitizeResult
  unfolding strip_comments strip_invisible
  sanitize_text s =
      let stripped_html = strip_comments 0 s in
      if text_eq stripped_html s
      then strip_invisible s []
      else strip_invisible stripped_html (html_comment ∷ [])

  unfoldable pub sanitize_user_content : Option Text → SanitizeResult
  unfolding sanitize_text
  sanitize_user_content none = record { text = []; injections = [] }
  sanitize_user_content (some []) = record { text = []; injections = [] }
  sanitize_user_content (some (c ∷ s)) = sanitize_text (c ∷ s)
