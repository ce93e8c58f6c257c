-- ===== src/Controller/Certificates/Paths.antt =====
-- `filepath.Clean`, `Join`, `Abs` and `Rel` on Unix, and `pathIsWithinRoot`.
use load_balancer_controller.Base.{
  Bool, true, false, not, ◌&&◌, ◌||◌, Option, some, none, List, [], ◌∷◌, ◌++◌, if◌then◌else◌,
  is_empty, map,
}
use load_balancer_controller.Base.Text.{Text, codes, text_eq, has_prefix, split_byte, join}
use load_balancer_controller.Base.Outcome.{Outcome, ok, ◌>>=◌}
use mathlib.Core.List.{reverse}

unfoldable pub is_abs : Text → Bool
unfolding has_prefix
is_abs p = has_prefix p (codes "/")

abbrev pub dot : Text
dot = codes "."

abbrev pub dots : Text
dots = codes ".."

-- A `..` takes the last part away; at the root it is dropped, at the start of another path kept.
unfoldable pub step_up : Bool → List Text → List Text
unfolding text_eq
step_up rooted [] = if rooted then [] else dots ∷ []
step_up rooted (top ∷ rest) = if text_eq top dots then dots ∷ top ∷ rest else rest

unfoldable pub clean_onto : Bool → List Text → List Text → List Text
unfolding step_up text_eq
clean_onto rooted done [] = reverse done
clean_onto rooted done (p ∷ ps) =
    clean_onto rooted
      (if is_empty p || text_eq p dot
        then done
        else if text_eq p dots
        then step_up rooted done
        else p ∷ done)
      ps

-- The parts of the path that `Clean` gives.
unfoldable pub clean_parts : Text → List Text
unfolding clean_onto split_byte is_abs
clean_parts p = clean_onto (is_abs p) [] (split_byte b'/' p)

-- A path of parts: `.` stands for no part at all.
unfoldable pub relative_text : List Text → Text
unfolding join
relative_text [] = dot
relative_text (p ∷ ps) = join (codes "/") (p ∷ ps)

unfoldable pub clean : Text → Text
unfolding clean_parts is_abs join relative_text
clean p =
    if is_abs p then b'/' ∷ join (codes "/") (clean_parts p) else relative_text (clean_parts p)

-- `filepath.Join` of two parts.
unfoldable pub join_path : Text → Text → Text
unfolding clean
join_path a b =
    if is_empty a
    then (if is_empty b then [] else clean b)
    else if is_empty b
    then clean a
    else clean (a ++ (b'/' ∷ b))

unfoldable pub abs {ℓ} : {E : Type ℓ} → Outcome E Text → Text → Outcome E Text
unfolding is_abs clean join_path
abs working_dir p = if is_abs p then ok (clean p) else working_dir >>= λ w. ok (join_path w p)

unfoldable pub up : Text → Text
up p = dots

-- The parts of the base that are left are gone up, unless they begin with `..`.
unfoldable pub climb : List Text → List Text → Option (List Text)
unfolding text_eq up
climb [] ts = some ts
climb (b ∷ bs) ts = if text_eq b dots then none else some (map up (b ∷ bs) ++ ts)

unfoldable pub relative : List Text → List Text → Option (List Text)
unfolding climb text_eq
relative [] ts = climb [] ts
relative (b ∷ bs) [] = climb (b ∷ bs) []
relative (b ∷ bs) (t ∷ ts) =
    let rest = relative bs ts in if text_eq b t then rest else climb (b ∷ bs) (t ∷ ts)

unfoldable pub same_root : Bool → Bool → Bool
same_root true b = b
same_root false b = not b

unfoldable pub relative_option : Option (List Text) → Option Text
unfolding relative_text
relative_option none = none
relative_option (some ps) = some (relative_text ps)

-- `filepath.Rel`; both paths are cleaned by it.
unfoldable pub rel : Text → Text → Option Text
unfolding clean_parts relative relative_option same_root is_abs
rel base target =
    if same_root (is_abs base) (is_abs target)
    then relative_option (relative (clean_parts base) (clean_parts target))
    else none

unfoldable pub stays : Option Text → Bool
unfolding text_eq has_prefix is_abs
stays none = false
stays (some p) = not (is_abs p) && not (text_eq p dots) && not (has_prefix p (codes "../"))

unfoldable pub path_is_within_root : Text → Text → Bool
unfolding stays rel clean
path_is_within_root root candidate = stays (rel (clean root) (clean candidate))
