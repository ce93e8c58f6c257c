-- ===== src/Base/Text/Eq.antt =====
-- Comparison of texts: `==`, `strings.EqualFold`, `strings.ToLower`, `strings.HasPrefix`,
-- `strings.HasSuffix`, and `strings.Compare(a, b) > 0`.
use Prim.Native.Char.{code}
use Prim.Native.String.{String}
use Prim.Native.Nat.{ℕ, ◌+◌}
use mathlib.Core.Path.{◌≡◌, refl, ◌∙◌}
use mathlib.Core.Logic.{◌↔◌}
use mathlib.Core.Bool.{Bool, true, false, ◌&&◌}
use mathlib.Core.List.{List, [], ◌∷◌, map, reverse}
use native.Mathlib.Omega.{arith}
use load_balancer_controller.Base.Bools.{ltb, leb, ◌==◌, if◌then◌else◌}

abbrev pub Text : Type 0
Text = List ℕ

abbrev pub codes : String → Text
codes String.[] = []
codes (String.◌∷◌ c s) = code c ∷ codes s

unfoldable pub text_eq : Text → Text → Bool
text_eq [] [] = true
text_eq (x ∷ xs) (y ∷ ys) = x == y && text_eq xs ys
text_eq _ _ = false

pub text_eq_iff : (a b : Text) → (text_eq a b ≡ true) ↔ (a ≡ b)
unfolding text_eq
text_eq_iff (x ∷ a) (y ∷ b) = ground (arith, text_eq_iff a b)
text_eq_iff _ _ = ground arith

pub text_eq_refl : (a : Text) → text_eq a a ≡ true
text_eq_refl a = (text_eq_iff a a).1 refl

pub text_eq_sym : (a b : Text) → text_eq a b ≡ text_eq b a
text_eq_sym a b = ground (arith, text_eq_iff a b, text_eq_iff b a)

abbrev pub to_lower_byte : ℕ → ℕ
to_lower_byte c = if leb b'A' c && leb c b'Z' then c + 32 else c

unfoldable pub to_lower : Text → Text
to_lower = map to_lower_byte

unfoldable pub equal_fold : Text → Text → Bool
unfolding text_eq to_lower
equal_fold a b = text_eq (to_lower a) (to_lower b)

pub equal_fold_iff : (a b : Text) → (equal_fold a b ≡ true) ↔ (to_lower a ≡ to_lower b)
equal_fold_iff a b = unfold equal_fold in text_eq_iff (to_lower a) (to_lower b)

pub equal_fold_refl : (a : Text) → equal_fold a a ≡ true
equal_fold_refl a = (equal_fold_iff a a).1 refl

pub equal_fold_sym : (a b : Text) → equal_fold a b ≡ equal_fold b a
equal_fold_sym a b = ground (arith, equal_fold_iff a b, equal_fold_iff b a)

pub equal_fold_trans :
    (a b c : Text) → equal_fold a b ≡ true → equal_fold b c ≡ true → equal_fold a c ≡ true
equal_fold_trans a b c p q =
    (equal_fold_iff a c).1 ((equal_fold_iff a b).0 p ∙ (equal_fold_iff b c).0 q)

unfoldable pub has_prefix : Text → Text → Bool
has_prefix s [] = true
has_prefix [] (p ∷ ps) = false
has_prefix (c ∷ s) (p ∷ ps) = c == p && has_prefix s ps

unfoldable pub has_suffix : Text → Text → Bool
unfolding has_prefix
has_suffix s p = has_prefix (reverse s) (reverse p)

-- `strings.Compare(a, b) > 0`: bytewise lexicographic order.
unfoldable pub text_gt : Text → Text → Bool
text_gt [] b = false
text_gt (x ∷ a) [] = true
text_gt (x ∷ a) (y ∷ b) = if x == y then text_gt a b else ltb y x
