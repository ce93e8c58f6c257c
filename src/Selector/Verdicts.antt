-- ===== src/Selector/Verdicts.antt =====
-- What `GetSelectorConstraint` and `IsSelectorMatch` make of a selector.
use load_balancer_controller.Base.{
  ℕ, ◌+◌, ◌≤◌, ◌==◌, false, not, ◌&&◌, Option, some, none, List, [], ◌∷◌, ◌≡◌, refl, inl, inr,
  arith, if◌then◌else◌, length, is_empty, any, all, Bool-cases,
}
use load_balancer_controller.Base.Text.{
  Text, codes, equal_fold, split_text, trim_space, equal_fold_trans, equal_fold_sym,
}
use load_balancer_controller.Base.Dict.{Dict}
use load_balancer_controller.Selector.{
  Constraint, not_in, equals, noop, has_label, matches, Found, take_pieces, conclude, try_ops,
  eq_op, no_op, notin_op, in_op, neq_op, get_selector_constraint, get_selector_constraints,
  count_matches, is_selector_match,
}

-- The two pieces round one "=".
abbrev pub eq_or_noop : List Text → Constraint
eq_or_noop (k ∷ v ∷ []) = equals (trim_space k) (trim_space v)
eq_or_noop _ = noop []

abbrev start : Found
start = record { final_op = no_op; key = []; value = [] }

first_op :
    (ps : List Text) (k : Found → Option Constraint)
    → (elim (conclude (take_pieces eq_op ps start).final_op (take_pieces eq_op ps start)) [
      | some c ↦ some c
      | none ↦ k (take_pieces eq_op ps start)
    ])
      ≡ some (eq_or_noop ps)
unfolding conclude take_pieces
first_op (a ∷ b ∷ []) k = refl
first_op _ k = refl

-- One constraint of a selector is an equality if it holds exactly one "=", and the constraint of
-- an empty key if not, whatever other operator it holds: no "!=", "in" or "notin" constraint is
-- ever made.
pub get_selector_constraint-eq :
    (selector : Text)
    → get_selector_constraint selector ≡ some (eq_or_noop (split_text (codes "=") selector))
unfolding get_selector_constraint
get_selector_constraint-eq selector =
    first_op (split_text (codes "=") selector)
      (λ f. try_ops selector (notin_op ∷ in_op ∷ neq_op ∷ []) f)

count_matches-le :
    (cs : List Constraint) (labels : Dict Text) (n : ℕ) → count_matches cs labels n ≤ n + length cs
unfolding count_matches
count_matches-le [] labels n = omega arith
count_matches-le (c ∷ cs) labels n =
    ground (arith, count_matches-le cs labels (if matches c labels then n + 1 else n))

count_matches-all :
    (cs : List Constraint) (labels : Dict Text) (n : ℕ)
    → (count_matches cs labels n == n + length cs) ≡ all (λ c. matches c labels) cs
unfolding count_matches all
count_matches-all [] labels n = ground arith
count_matches-all (c ∷ cs) labels n = elim (Bool-cases (matches c labels)) [
  | inl e ↦ rw e (ground (arith, count_matches-all cs labels (n + 1)))
  | inr e ↦ rw e (ground (arith, count_matches-le cs labels n))
]

-- A selector matches labels exactly when it is not empty, has a constraint, and each of its
-- constraints matches them.
pub is_selector_match-all :
    (selector : Text) (labels : Dict Text)
    → let cs = get_selector_constraints selector in
      is_selector_match selector labels
      ≡ (not (is_empty selector) && not (is_empty cs) && all (λ c. matches c labels) cs)
unfolding is_selector_match
is_selector_match-all selector labels =
    ground (arith, count_matches-all (get_selector_constraints selector) labels 0)

-- A "notin" constraint with two values that differ in more than case matches every set of labels that has the key:
-- the value of the label differs from one of them.
pub not_in_two :
    (key v w : Text) (labels : Dict Text)
    → equal_fold v w ≡ false
    → matches (not_in key (v ∷ w ∷ [])) labels ≡ any (λ kv. equal_fold kv.0 key) labels
unfolding matches has_label any
not_in_two key v w [] h = refl
not_in_two key v w ((k, l) ∷ labels) h =
    ground (arith, not_in_two key v w labels h, equal_fold_sym v l, equal_fold_trans v l w)
