-- ===== src/Controller/Sorting.antt =====
-- `sort.Sort`: the insertion sort that it is on up to twelve elements. On more, the order of
-- elements that the comparison holds for equal may be another one.
use load_balancer_controller.Base.{
  Bool, List, [], ◌∷◌, ◌≡◌, refl, ◌∙◌, if◌then◌else◌, all, all-reverse, ◌&&◌, arith,
}
use mathlib.Core.List.{reverse}

module _ {A : Type 0} (less : A → A → Bool) where
  -- An element moves down past all that it is less than; the list is read from its end.
  sift : A → List A → List A
  sift x [] = x ∷ []
  sift x (y ∷ ys) = let rest = sift x ys in if less x y then y ∷ rest else x ∷ y ∷ ys

  sort_onto : List A → List A → List A
  unfolding sift
  sort_onto done [] = done
  sort_onto done (x ∷ xs) = sort_onto (sift x done) xs

  unfoldable pub sort : List A → List A
  unfolding sort_onto
  sort xs = reverse (sort_onto [] xs)

  all-sift : (p : A → Bool) (x : A) (ys : List A) → all p (sift x ys) ≡ p x && all p ys
  unfolding sift all
  all-sift p x [] = refl
  all-sift p x (y ∷ ys) = ground (arith, all-sift p x ys)

  all-sort_onto :
      (p : A → Bool) (done xs : List A) → all p (sort_onto done xs) ≡ all p done && all p xs
  unfolding sort_onto all
  all-sort_onto p done [] = ground arith
  all-sort_onto p done (x ∷ xs) =
      ground (arith, all-sort_onto p (sift x done) xs, all-sift p x done)

  -- A test holds of every element after a sort exactly when it did before.
  pub all-sort : (p : A → Bool) (xs : List A) → all p (sort xs) ≡ all p xs
  unfolding sort all
  all-sort p xs = all-reverse p (sort_onto [] xs) ∙ all-sort_onto p [] xs
