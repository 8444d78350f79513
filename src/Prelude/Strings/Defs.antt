-- ===== src/Prelude/Strings/Defs.antt =====
-- Python's `str` as its list of code points, with the operations that the program calls on it.
use Prim.Native.Nat.{ℕ, suc}
use Prim.Native.Char.{code}
use Prim.Native.String.{String}
use mathlib.Core.Bool.{Bool, true, false, ◌&&◌, ◌||◌}
use mathlib.Core.List.{List, [], ◌∷◌, ◌++◌, reverse}
use mathlib.Core.Option.{Option, none, some}
use loony_dev.Prelude.Tests.{ltb, leb, ◌==◌, if◌then◌else◌}

abbrev pub Text : Type 0
Text = List ℕ

abbrev pub codes : String → Text
codes String.[] = []
codes (String.◌∷◌ c s) = code c ∷ codes s

-- `a == b`
unfoldable pub text_eq : Text → Text → Bool
text_eq [] [] = true
text_eq [] (y ∷ ys) = false
text_eq (x ∷ xs) [] = false
text_eq (x ∷ xs) (y ∷ ys) = x == y && text_eq xs ys

-- `a < b` by code points
unfoldable pub text_lt : Text → Text → Bool
text_lt [] [] = false
text_lt [] (y ∷ ys) = true
text_lt (x ∷ xs) [] = false
text_lt (x ∷ xs) (y ∷ ys) = ltb x y || (x == y && text_lt xs ys)

-- `x in xs` for a list or a set of texts
unfoldable pub mem_text : Text → List Text → Bool
unfolding text_eq
mem_text t [] = false
mem_text t (x ∷ xs) = text_eq x t || mem_text t xs

-- `s.startswith(p)`
unfoldable pub starts_with : Text → Text → Bool
starts_with [] s = true
starts_with (p ∷ ps) [] = false
starts_with (p ∷ ps) (c ∷ s) = p == c && starts_with ps s

-- `s.find(p)`, with `none` for -1
unfoldable pub find : Text → Text → Option ℕ
unfolding starts_with
find p [] = if starts_with p [] then some 0 else none
find p (c ∷ s) = elim (starts_with p (c ∷ s)) [
  | true ↦ some 0
  | false ↦ elim (find p s) [ none ↦ none | some i ↦ some (suc i) ]
]

-- `p in s`
unfoldable pub contains : Text → Text → Bool
unfolding starts_with
contains p [] = starts_with p []
contains p (c ∷ s) = starts_with p (c ∷ s) || contains p s

-- `str.isspace` on the ASCII and Latin-1 code points, and the separators of Unicode
unfoldable pub is_space : ℕ → Bool
is_space c =
    (leb 9 c && leb c 13)
    || (leb 28 c && leb c 32)
    || c == 0x85
    || c == 0xa0
    || c == 0x1680
    || (leb 0x2000 c && leb c 0x200a)
    || c == 0x2028
    || c == 0x2029
    || c == 0x202f
    || c == 0x205f
    || c == 0x3000

-- `s.lstrip()`
unfoldable pub lstrip : Text → Text
unfolding is_space
lstrip [] = []
lstrip (c ∷ s) = elim (is_space c) [ true ↦ lstrip s | false ↦ c ∷ s ]

-- `s.rstrip()`
unfoldable pub rstrip : Text → Text
unfolding lstrip
rstrip s = reverse (lstrip (reverse s))

-- `s.strip()`
unfoldable pub strip : Text → Text
unfolding rstrip
strip s = rstrip (lstrip s)

-- The characters at which `str.splitlines` ends a line.
unfoldable pub is_line_end : ℕ → Bool
is_line_end c =
    (leb 10 c && leb c 13) || (leb 28 c && leb c 30) || c == 0x85 || c == 0x2028 || c == 0x2029

-- `sep.join(xs)`
unfoldable pub join : Text → List Text → Text
join sep [] = []
join sep (x ∷ []) = x
join sep (x ∷ y ∷ xs) = x ++ (sep ++ join sep (y ∷ xs))

-- `s.endswith(p)`
unfoldable pub ends_with : Text → Text → Bool
unfolding starts_with
ends_with p s = starts_with (reverse p) (reverse s)

-- `text.splitlines()`; `after_cr` says that a carriage return has just ended a line.
unfoldable pub splitlines : Bool → Text → Text → List Text
splitlines after_cr cur [] = elim cur [ [] ↦ [] | c ∷ s ↦ (c ∷ s) ∷ [] ]
splitlines after_cr cur (c ∷ s) = elim (after_cr && c == 10) [
  | true ↦ splitlines false cur s
  | false ↦ elim (is_line_end c) [
    | true ↦ cur ∷ splitlines (c == 13) [] s
    | false ↦ splitlines false (cur ++ c ∷ []) s
  ]
]
