-- ===== src/Base/Text/Fields.antt =====
-- Lemmas on `strings.Fields` over a blank, and on a small number that is printed and read again.
use Prim.Native.Nat.{ℕ, suc, ◌+◌, ◌/◌, ◌%◌, ◌<◌, ◌≤◌}
use mathlib.Core.Path.{◌≡◌, refl, ◌∙◌}
use mathlib.Core.Logic.{◌⊎◌, inl, inr}
use native.Mathlib.Omega.{arith}
use mathlib.Core.Option.{some}
use mathlib.Core.List.{[], ◌∷◌, ◌++◌}
use load_balancer_controller.Base.Bools.{ltb, if◌then◌else◌, Bool-cases}
use load_balancer_controller.Base.Text.Eq.{Text}
use load_balancer_controller.Base.Text.Split.{fields, fields_onto, is_space}
use load_balancer_controller.Base.Text.Number.{pos, itoa, atoi, digits_of, digits_from, unsigned}

fields_onto-blank :
    (w s t : Text) → fields_onto w (s ++ (32 ∷ t)) ≡ fields_onto w s ++ fields_onto [] t
unfolding fields_onto
fields_onto-blank [] [] t = refl
fields_onto-blank (d ∷ w) [] t = refl
fields_onto-blank [] (c ∷ s) t = fields_onto-blank (if is_space c then [] else c ∷ []) s t
fields_onto-blank (d ∷ w) (c ∷ s) t = elim (Bool-cases (is_space c)) [
  | inl e ↦ rw e (rw (fields_onto-blank [] s t) refl)
  | inr e ↦ rw e (fields_onto-blank (c ∷ d ∷ w) s t)
]

-- The fields of two texts with a blank between them.
pub fields-blank : (s t : Text) → fields (s ++ (32 ∷ t)) ≡ fields s ++ fields t
unfolding fields
fields-blank s t = fields_onto-blank [] s t

digits_of-last : (fuel n : ℕ) (acc : Text) → n < 10 → digits_of (suc fuel) n acc ≡ (48 + n) ∷ acc
unfolding digits_of
digits_of-last fuel n acc h = ground arith

digits_of-more :
    (fuel n : ℕ) (acc : Text)
    → 10 ≤ n
    → digits_of (suc fuel) n acc ≡ digits_of fuel (n / 10) ((48 + n % 10) ∷ acc)
unfolding digits_of
digits_of-more fuel n acc h = ground arith

-- The one, two or three digits of a number below 1000.
digits :
    (n : ℕ)
    → n < 1000
    → ((itoa n ≡ (48 + n) ∷ []) × (n < 10))
      ⊎ (((itoa n ≡ (48 + n / 10) ∷ (48 + n % 10) ∷ []) × (10 ≤ n) × (n < 100))
          ⊎ ((itoa n ≡ (48 + n / 10 / 10) ∷ (48 + n / 10 % 10) ∷ (48 + n % 10) ∷ []) × (100 ≤ n)))
unfolding itoa
digits n h = elim (Bool-cases (ltb n 10)) [
  | inl e ↦ inl (digits_of-last 19 n [] (ground arith), ground arith)
  | inr e ↦ elim (Bool-cases (ltb n 100)) [
    | inl f ↦ inr (
        inl (
          digits_of-more 19 n [] (ground arith) ∙ digits_of-last 18 (n / 10) _ (ground arith),
          ground arith,
          ground arith,
        ))
    | inr f ↦ inr (
        inr (
          digits_of-more 19 n [] (ground arith)
              ∙ digits_of-more 18 (n / 10) _ (ground arith)
              ∙ digits_of-last 17 (n / 10 / 10) _ (ground arith),
          ground arith,
        ))
  ]
]

pub fields-itoa : (n : ℕ) → n < 1000 → fields (itoa n) ≡ itoa n ∷ []
unfolding fields fields_onto
fields-itoa n h = elim (digits n h) [
  | inl (e, a) ↦ rw e (ground arith)
  | inr (inl (e, a, b)) ↦ rw e (ground arith)
  | inr (inr (e, a)) ↦ rw e (ground arith)
]

pub atoi-itoa : (n : ℕ) → n < 1000 → atoi (itoa n) ≡ some (pos n)
unfolding atoi digits_from unsigned
atoi-itoa n h = elim (digits n h) [
  | inl (e, a) ↦ rw e (ground arith)
  | inr (inl (e, a, b)) ↦ rw e (ground arith)
  | inr (inr (e, a)) ↦ rw e (ground arith)
]
