-- ===== src/Base/Text/Split.antt =====
-- `strings.TrimSpace`, `strings.Split` at a one-byte separator, `strings.Fields`, `strings.Join`.
use Prim.Native.Nat.{ℕ, zero, suc, ◌-◌}
use mathlib.Core.Bool.{Bool, false, ◌||◌, ◌&&◌}
use mathlib.Core.List.{List, [], ◌∷◌, ◌++◌, reverse}
use load_balancer_controller.Base.Bools.{leb, ◌==◌, if◌then◌else◌}
use load_balancer_controller.Base.Text.Eq.{Text, has_prefix}
use load_balancer_controller.Base.Lists.{length}

-- ASCII white space, as `unicode.IsSpace` has it: \t \n \v \f \r and the blank.
abbrev pub is_space : ℕ → Bool
is_space c = c == 32 || leb 9 c && leb c 13

unfoldable pub trim_left : Text → Text
trim_left [] = []
trim_left (c ∷ s) = if is_space c then trim_left s else c ∷ s

unfoldable pub trim_space : Text → Text
unfolding trim_left
trim_space s = reverse (trim_left (reverse (trim_left s)))

-- The first piece grows by `c`; a split is never empty.
abbrev pub onto_first : ℕ → List Text → List Text
onto_first c [] = (c ∷ []) ∷ []
onto_first c (p ∷ ps) = (c ∷ p) ∷ ps

unfoldable pub split_byte : ℕ → Text → List Text
split_byte sep [] = [] ∷ []
split_byte sep (c ∷ s) =
    let rest = split_byte sep s in if c == sep then [] ∷ rest else onto_first c rest

-- `word` is the field read so far, reversed.
unfoldable pub fields_onto : Text → Text → List Text
fields_onto [] [] = []
fields_onto (w ∷ word) [] = reverse (w ∷ word) ∷ []
fields_onto [] (c ∷ s) = fields_onto (if is_space c then [] else c ∷ []) s
fields_onto (w ∷ word) (c ∷ s) =
    let rest = fields_onto (if is_space c then [] else c ∷ w ∷ word) s in
    if is_space c then reverse (w ∷ word) ∷ rest else rest

unfoldable pub fields : Text → List Text
unfolding fields_onto
fields s = fields_onto [] s

-- A separator of any length but 0; `skip` bytes of it are still to be passed over.
split_skip : Text → ℕ → Text → List Text
split_skip sep zero [] = [] ∷ []
split_skip sep (suc k) [] = [] ∷ []
split_skip sep (suc k) (c ∷ s) = split_skip sep k s
split_skip sep zero (c ∷ s) =
    let rest = split_skip sep (if has_prefix (c ∷ s) sep then length sep - 1 else 0) s in
    if has_prefix (c ∷ s) sep then [] ∷ rest else onto_first c rest

-- `strings.Split` at a separator that is not empty.
unfoldable pub split_text : Text → Text → List Text
unfolding split_skip has_prefix
split_text sep s = split_skip sep 0 s

unfoldable pub join : Text → List Text → Text
join sep [] = []
join sep (p ∷ []) = p
join sep (p ∷ q ∷ ps) = p ++ (sep ++ join sep (q ∷ ps))

unfoldable pub contains_byte : ℕ → Text → Bool
contains_byte sep [] = false
contains_byte sep (c ∷ s) = c == sep || contains_byte sep s
