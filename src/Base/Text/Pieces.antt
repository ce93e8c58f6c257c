-- ===== src/Base/Text/Pieces.antt =====
-- The pieces of a text that `strings.Split` makes at a byte.
use Prim.Native.Nat.{ℕ}
use mathlib.Core.Bool.{false}
use mathlib.Core.Path.{◌≡◌, refl, ap, ◌∙◌}
use native.Mathlib.Omega.{arith}
use mathlib.Core.List.{List, [], ◌∷◌, ◌++◌}
use load_balancer_controller.Base.Text.Eq.{Text}
use load_balancer_controller.Base.Text.Split.{split_byte, contains_byte}

pub split_byte-prefix :
    (sep : ℕ) (a s : Text)
    → contains_byte sep a ≡ false
    → split_byte sep (a ++ (sep ∷ s)) ≡ a ∷ split_byte sep s
unfolding split_byte contains_byte
split_byte-prefix sep [] s h = ground arith
split_byte-prefix sep (c ∷ a) s h = ground (arith, split_byte-prefix sep a s (ground arith))

pub split_byte-whole :
    (sep : ℕ) (a : Text) → contains_byte sep a ≡ false → split_byte sep a ≡ a ∷ []
unfolding split_byte contains_byte
split_byte-whole sep [] h = refl
split_byte-whole sep (c ∷ a) h = ground (arith, split_byte-whole sep a (ground arith))

-- A piece in front of the pieces of the rest.
pub more_pieces :
    (sep : ℕ) (a s : Text) {ps : List Text}
    → contains_byte sep a ≡ false
    → split_byte sep s ≡ ps
    → split_byte sep (a ++ (sep ∷ s)) ≡ a ∷ ps
more_pieces sep a s h k = split_byte-prefix sep a s h ∙ ap (λ (l : List Text). a ∷ l) k
