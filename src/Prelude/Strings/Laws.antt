-- ===== src/Prelude/Strings/Laws.antt =====
-- Laws of the text operations.
use mathlib.Core.Path.{◌≡◌, refl}
use mathlib.Core.Logic.{◌↔◌}
use mathlib.Core.Bool.{true, false, ◌||◌}
use mathlib.Core.List.{List, [], ◌∷◌, ◌++◌}
use native.Mathlib.Omega.{arith}
use loony_dev.Prelude.Strings.Defs.{Text, text_eq, text_lt, mem_text, starts_with}

pub text_eq_iff : (a b : Text) → (text_eq a b ≡ true) ↔ (a ≡ b)
unfolding text_eq
text_eq_iff [] [] = ground arith
text_eq_iff [] (y ∷ ys) = ground arith
text_eq_iff (x ∷ xs) [] = ground arith
text_eq_iff (x ∷ xs) (y ∷ ys) = ground (arith, text_eq_iff xs ys)

pub text_eq_refl : (a : Text) → text_eq a a ≡ true
text_eq_refl a = (text_eq_iff a a).1 refl

pub text_lt_irrefl : (a : Text) → text_lt a a ≡ false
unfolding text_lt
text_lt_irrefl [] = refl
text_lt_irrefl (x ∷ xs) = ground (arith, text_lt_irrefl xs)

pub text_lt_trans : (a b c : Text) → text_lt a b ≡ true → text_lt b c ≡ true → text_lt a c ≡ true
unfolding text_lt
text_lt_trans [] [] c h k = cc
text_lt_trans [] (y ∷ b) [] h k = cc
text_lt_trans [] (y ∷ b) (z ∷ c) h k = refl
text_lt_trans (x ∷ a) [] c h k = cc
text_lt_trans (x ∷ a) (y ∷ b) [] h k = cc
text_lt_trans (x ∷ a) (y ∷ b) (z ∷ c) h k = ground (arith, text_lt_trans a b c)

pub text_lt_total : (a b : Text) → text_lt a b ≡ false → text_lt b a ≡ false → a ≡ b
unfolding text_lt
text_lt_total [] [] h k = refl
text_lt_total [] (y ∷ b) h k = cc
text_lt_total (x ∷ a) [] h k = cc
text_lt_total (x ∷ a) (y ∷ b) h k = ground (arith, text_lt_total a b)

pub starts_with-append : (p s : Text) → starts_with p (p ++ s) ≡ true
unfolding starts_with
starts_with-append [] s = refl
starts_with-append (c ∷ p) s = ground (arith, starts_with-append p s)

pub mem_text-append :
    (t : Text) (xs ys : List Text) → mem_text t (xs ++ ys) ≡ (mem_text t xs || mem_text t ys)
unfolding mem_text
mem_text-append t [] ys = refl
mem_text-append t (x ∷ xs) ys = ground (arith, mem_text-append t xs ys)

pub text_eq_sym : (a b : Text) → text_eq a b ≡ false → text_eq b a ≡ false
unfolding text_eq
text_eq_sym [] [] e = e
text_eq_sym [] (y ∷ ys) e = refl
text_eq_sym (x ∷ xs) [] e = refl
text_eq_sym (x ∷ xs) (y ∷ ys) e = ground (arith, text_eq_sym xs ys)
