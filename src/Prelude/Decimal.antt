-- ===== src/Prelude/Decimal.antt =====
-- Decimal print and parse of a number: `f"{n}"` and `int(s)`, the latter over ASCII digits.
use Prim.Native.Nat.{ℕ, zero, suc, ◌+◌, ◌-◌, ◌*◌, ◌/◌, ◌%◌, ◌≤◌, ◌<◌}
use mathlib.Core.Path.{◌≡◌, refl, sym, ap, ◌∙◌}
use mathlib.Core.Bool.{Bool, true, false, ◌&&◌}
use mathlib.Core.List.{[], ◌∷◌, reverse, reverse-cons, reverse-reverse}
use mathlib.Core.Option.{Option, none, some}
use native.Mathlib.Omega.{arith}
use loony_dev.Prelude.Tests.{ltb, leb, ◌==◌, if◌then◌else◌}
use loony_dev.Prelude.Lists.{All, All-append}
use loony_dev.Prelude.Int.{ℤ, pos, negsuc}
use loony_dev.Prelude.Strings.{Text, codes, lstrip, strip}

-- The digits of `n` before `out`, on fuel above `n`.
emit : ℕ → ℕ → Text → Text
emit zero n out = out
emit (suc f) n out = elim (ltb n 10) [
  | true ↦ (48 + n) ∷ out
  | false ↦ emit f (n / 10) ((48 + n % 10) ∷ out)
]

unfoldable pub print_ℕ : ℕ → Text
unfolding emit
print_ℕ n = emit (suc n) n []

abbrev pub is_digit : ℕ → Bool
is_digit c = leb 48 c && leb c 57

-- `acc` is the number read so far, `last` whether the last character was a digit.
scan : ℕ → Bool → Text → Option ℕ
scan acc last [] = if last then some acc else none
scan acc last (c ∷ s) = elim (is_digit c) [
  | true ↦ scan (acc * 10 + (c - 48)) true s
  | false ↦ elim (c == 95 && last) [ true ↦ scan acc false s | false ↦ none ]
]

negated : Option ℕ → Option ℤ
negated none = none
negated (some zero) = some (pos 0)
negated (some (suc n)) = some (negsuc n)

unsigned : Option ℕ → Option ℤ
unsigned none = none
unsigned (some n) = some (pos n)

signed : Text → Option ℤ
unfolding scan negated unsigned
signed [] = none
signed (c ∷ s) =
    if c == 45
    then negated (scan 0 false s)
    else if c == 43
    then unsigned (scan 0 false s)
    else unsigned (scan 0 false (c ∷ s))

-- `int(s)`; `none` is `ValueError`.
unfoldable pub int_of : Text → Option ℤ
unfolding signed
int_of s = signed (strip s)

abbrev pub IsDigit : ℕ → Type 0
IsDigit c = (48 ≤ c) × (c ≤ 57)

emit-IsDigit : (f n : ℕ) (out : Text) → n < f → All IsDigit out → All IsDigit (emit f n out)
unfolding emit
emit-IsDigit zero n out h k = absurd (omega arith)
emit-IsDigit (suc f) n out h k = ground (arith, emit-IsDigit f (n / 10) ((48 + n % 10) ∷ out))

pub print_ℕ-IsDigit : (n : ℕ) → All IsDigit (print_ℕ n)
unfolding print_ℕ
print_ℕ-IsDigit n = emit-IsDigit (suc n) n [] (omega arith) tt

scan_digit :
    (c acc : ℕ) (last : Bool) (s : Text)
    → IsDigit c
    → scan acc last (c ∷ s) ≡ scan (acc * 10 + (c - 48)) true s
unfolding scan
scan_digit c acc last s h = ground arith

scan_first :
    (n acc : ℕ) (last : Bool) (out : Text)
    → n < 10
    → scan acc last ((48 + n) ∷ out) ≡ scan (acc * 10 + n) true out
unfolding scan
scan_first n acc last out h = ground arith

scan-emit : (f n : ℕ) (out : Text) → n < f → scan 0 false (emit f n out) ≡ scan n true out
unfolding emit
scan-emit zero n out h = absurd (omega arith)
scan-emit (suc f) n out h = ground (
  arith,
  scan_first n 0 false out,
  scan-emit f (n / 10) ((48 + n % 10) ∷ out),
  scan_first (n % 10) (n / 10) true out,
)

lstrip-IsDigit : (s : Text) → All IsDigit s → lstrip s ≡ s
unfolding lstrip
lstrip-IsDigit [] h = refl
lstrip-IsDigit (c ∷ s) h = ground arith

reverse-IsDigit : (s : Text) → All IsDigit s → All IsDigit (reverse s)
reverse-IsDigit [] h = tt
reverse-IsDigit (c ∷ s) h =
    rw (reverse-cons c s)
      (All-append IsDigit (reverse s) (c ∷ []) (reverse-IsDigit s h.1) (h.0, tt))

strip-IsDigit : (s : Text) → All IsDigit s → strip s ≡ s
unfolding strip
strip-IsDigit s h =
    rw (lstrip-IsDigit s h, lstrip-IsDigit (reverse s) (reverse-IsDigit s h), reverse-reverse)

signed_digits : (s : Text) → All IsDigit s → s ≡ s → signed s ≡ unsigned (scan 0 false s)
unfolding signed
signed_digits [] h e = refl
signed_digits (c ∷ s) h e = ground arith

scan-print_ℕ : (n : ℕ) → scan 0 false (print_ℕ n) ≡ scan n true []
unfolding print_ℕ
scan-print_ℕ n = scan-emit (suc n) n [] (omega arith)

read_back : (n : ℕ) → unsigned (scan n true []) ≡ some (pos n)
unfolding unsigned scan
read_back n = refl

-- Every number is read back from its print.
pub int_of-print_ℕ : (n : ℕ) → int_of (print_ℕ n) ≡ some (pos n)
unfolding int_of
int_of-print_ℕ n = rw (strip-IsDigit (print_ℕ n) (print_ℕ-IsDigit n)) (
    signed_digits (print_ℕ n) (print_ℕ-IsDigit n) refl ∙ ap unsigned (scan-print_ℕ n) ∙ read_back n)

pos_of : Option ℤ → ℕ
pos_of (some (pos n)) = n
pos_of _ = 0

pub print_ℕ-injective : (m n : ℕ) → print_ℕ m ≡ print_ℕ n → m ≡ n
unfolding pos_of
print_ℕ-injective m n e = ap pos_of (sym (int_of-print_ℕ m) ∙ ap int_of e ∙ int_of-print_ℕ n)

print_ℕ_example : print_ℕ 1204 ≡ codes "1204"
unfolding print_ℕ
print_ℕ_example = refl

int_of_example : int_of (codes " -1_0 ") ≡ some (negsuc 9)
unfolding int_of strip
int_of_example = refl
