-- ===== src/Controller/Certificates/Within.antt =====
-- `pathIsWithinRoot` on absolute paths: the parts of the root are the first parts of the path.
use load_balancer_controller.Base.{
  ℕ, Bool, true, false, not, ◌&&◌, ◌||◌, ◌==◌, some, List, [], ◌∷◌, ◌++◌, ◌≡◌, refl, sym, ap, ◌∙◌,
  is_empty, all, all-reverse, arith, inl, inr, Bool-cases,
}
use load_balancer_controller.Base.Text.{
  Text, codes, text_eq, has_prefix, split_byte, join, contains_byte, split_byte-prefix,
  split_byte-whole,
}
use load_balancer_controller.Controller.Certificates.Paths.{
  is_abs, dot, dots, step_up, clean_onto, clean_parts, clean, relative_text, climb, relative, rel,
  stays, path_is_within_root, same_root, relative_option,
}
use load_balancer_controller.Base.Text.Split.{onto_first}
use mathlib.Core.List.{reverse, reverse-cons, append_assoc, append-nil}

-- A part that `Clean` keeps in an absolute path.
unfoldable pub is_plain : Text → Bool
unfolding text_eq contains_byte
is_plain p = not (is_empty p || text_eq p dot) && not (text_eq p dots) && not (contains_byte b'/' p)

-- The first list is the beginning of the second.
unfoldable pub is_start : List Text → List Text → Bool
unfolding text_eq
is_start [] ts = true
is_start (b ∷ bs) [] = false
is_start (b ∷ bs) (t ∷ ts) = text_eq b t && is_start bs ts

onto_first-plain :
    (c : ℕ) (ps : List Text)
    → (c == b'/') ≡ false
    → all (λ p. not (contains_byte b'/' p)) ps ≡ true
    → all (λ p. not (contains_byte b'/' p)) (onto_first c ps) ≡ true
unfolding all contains_byte
onto_first-plain c [] e h = rw e refl
onto_first-plain c (p ∷ ps) e h = rw e h

-- No part of a split has the separator.
split_byte-plain : (s : Text) → all (λ p. not (contains_byte b'/' p)) (split_byte b'/' s) ≡ true
unfolding split_byte all contains_byte
split_byte-plain [] = refl
split_byte-plain (c ∷ s) = elim (Bool-cases (c == b'/')) [
  | inl e ↦ rw e (split_byte-plain s)
  | inr e ↦ rw e (onto_first-plain c (split_byte b'/' s) e (split_byte-plain s))
]

step_up-plain :
    (done : List Text) → all is_plain done ≡ true → all is_plain (step_up true done) ≡ true
unfolding step_up all is_plain
step_up-plain [] h = refl
step_up-plain (p ∷ ps) h = ground arith

clean_onto-plain :
    (ps done : List Text)
    → all is_plain done ≡ true
    → all (λ p. not (contains_byte b'/' p)) ps ≡ true
    → all is_plain (clean_onto true done ps) ≡ true
unfolding clean_onto all
clean_onto-plain [] done d s = all-reverse is_plain done ∙ d
clean_onto-plain (p ∷ ps) done d s = elim (Bool-cases (is_empty p || text_eq p dot)) [
  | inl e ↦ rw e (clean_onto-plain ps done d (ground arith))
  | inr e ↦ elim (Bool-cases (text_eq p dots)) [
    | inl k ↦
        rw (e, k) (clean_onto-plain ps (step_up true done) (step_up-plain done d) (ground arith))
    | inr k ↦
        rw (e, k) (clean_onto-plain ps (p ∷ done) (unfold is_plain in ground arith) (ground arith))
  ]
]

-- Rooted parts that are plain are left alone.
clean_onto-done :
    (ps done : List Text) → all is_plain ps ≡ true → clean_onto true done ps ≡ reverse done ++ ps
unfolding clean_onto all is_plain
clean_onto-done [] done h = sym (append-nil (reverse done))
clean_onto-done (p ∷ ps) done h =
    let e : (is_empty p || text_eq p dot) ≡ false = ground arith in
    let k : text_eq p dots ≡ false = ground arith in
    rw (e, k)
      (clean_onto-done ps (p ∷ done) (ground arith)
        ∙ rw (reverse-cons) (append_assoc (reverse done) (p ∷ []) ps))

split_byte-join :
    (p : Text) (ps : List Text)
    → all is_plain (p ∷ ps) ≡ true
    → split_byte b'/' (join (codes "/") (p ∷ ps)) ≡ p ∷ ps
unfolding join all is_plain
split_byte-join p [] h = split_byte-whole b'/' p (ground arith)
split_byte-join p (q ∷ ps) h =
    split_byte-prefix b'/' p (join (codes "/") (q ∷ ps)) (ground arith)
    ∙ ap (λ r. p ∷ r) (split_byte-join q ps (ground arith))

clean_parts-plain : (p : Text) → is_abs p ≡ true → all is_plain (clean_parts p) ≡ true
unfolding clean_parts all
clean_parts-plain p h = rw h (clean_onto-plain (split_byte b'/' p) [] refl (split_byte-plain p))

is_abs-clean : (p : Text) → is_abs p ≡ true → is_abs (clean p) ≡ true
unfolding clean is_abs has_prefix
is_abs-clean p h = rw h refl

rooted_parts : (s : Text) → clean_parts (b'/' ∷ s) ≡ clean_onto true [] (split_byte b'/' s)
unfolding clean_parts is_abs has_prefix split_byte clean_onto
rooted_parts s = refl

clean_parts-join :
    (ps : List Text) → all is_plain ps ≡ true → clean_parts (b'/' ∷ join (codes "/") ps) ≡ ps
unfolding clean_parts is_abs has_prefix
clean_parts-join [] h = unfold clean_onto join split_byte in refl
clean_parts-join (p ∷ ps) h =
    rooted_parts (join (codes "/") (p ∷ ps))
    ∙ ap (clean_onto true []) (split_byte-join p ps h)
    ∙ clean_onto-done (p ∷ ps) [] h

clean-is_abs : (p : Text) → is_abs p ≡ true → clean p ≡ b'/' ∷ join (codes "/") (clean_parts p)
unfolding clean
clean-is_abs p h = rw h refl

-- A cleaned path has the parts that it had.
clean_parts-clean : (p : Text) → is_abs p ≡ true → clean_parts (clean p) ≡ clean_parts p
clean_parts-clean p h =
    ap clean_parts (clean-is_abs p h) ∙ clean_parts-join (clean_parts p) (clean_parts-plain p h)

stays-plain :
    (p : Text) (r : Text)
    → is_plain p ≡ true
    → (stays (some p) ≡ true) × (stays (some (p ++ (b'/' ∷ r))) ≡ true)
unfolding stays is_plain is_abs has_prefix text_eq contains_byte
stays-plain [] r h = absurd (cc h)
stays-plain (c ∷ []) r h = (ground arith, ground arith)
stays-plain (c ∷ d ∷ []) r h = (ground arith, ground arith)
stays-plain (c ∷ d ∷ e ∷ p) r h = (ground arith, ground arith)

stays-relative_text :
    (ps : List Text) → all is_plain ps ≡ true → stays (some (relative_text ps)) ≡ true
unfolding relative_text join all
stays-relative_text [] h = unfold stays is_abs has_prefix text_eq in refl
stays-relative_text (p ∷ []) h = (stays-plain p [] (ground arith)).0
stays-relative_text (p ∷ q ∷ ps) h = (stays-plain p _ (ground arith)).1

stays-up : (ps : List Text) → stays (some (relative_text (dots ∷ ps))) ≡ false
unfolding stays relative_text join is_abs has_prefix text_eq
stays-up [] = refl
stays-up (p ∷ ps) = refl

not_dots : (b : Text) (bs : List Text) → all is_plain (b ∷ bs) ≡ true → text_eq b dots ≡ false
unfolding all is_plain
not_dots b bs h = ground arith

all-rest : (b : Text) (bs : List Text) → all is_plain (b ∷ bs) ≡ true → all is_plain bs ≡ true
unfolding all
all-rest b bs h = ground arith

stays-relative :
    (bs ts : List Text)
    → all is_plain bs ≡ true
    → all is_plain ts ≡ true
    → stays (relative_option (relative bs ts)) ≡ is_start bs ts
unfolding relative climb relative_option is_start
stays-relative [] ts h k = stays-relative_text ts k
stays-relative (b ∷ bs) [] h k = rw (not_dots b bs h) (stays-up _)
stays-relative (b ∷ bs) (t ∷ ts) h k = elim (Bool-cases (text_eq b t)) [
  | inl e ↦ rw e (stays-relative bs ts (all-rest b bs h) (all-rest t ts k))
  | inr e ↦ rw (e, not_dots b bs h) (stays-up _)
]

rel-is_abs :
    (a b : Text)
    → is_abs a ≡ true
    → is_abs b ≡ true
    → rel a b ≡ relative_option (relative (clean_parts a) (clean_parts b))
unfolding rel same_root
rel-is_abs a b h k = rw (h, k) refl

-- For absolute paths, `pathIsWithinRoot` holds exactly when the parts of the cleaned root are the
-- first parts of the cleaned path: `..` in the path is worked out first, and a name that only
-- begins like the root's, or like `..`, is not taken for it.
pub path_is_within_root-is_start :
    (root candidate : Text)
    → is_abs root ≡ true
    → is_abs candidate ≡ true
    → path_is_within_root root candidate ≡ is_start (clean_parts root) (clean_parts candidate)
unfolding path_is_within_root
path_is_within_root-is_start root candidate h k =
    ap stays
      (rel-is_abs (clean root) (clean candidate) (is_abs-clean root h) (is_abs-clean candidate k))
    ∙ ap (λ ps. stays (relative_option (relative ps (clean_parts (clean candidate)))))
        (clean_parts-clean root h)
    ∙ ap (λ ps. stays (relative_option (relative (clean_parts root) ps)))
        (clean_parts-clean candidate k)
    ∙ stays-relative (clean_parts root) (clean_parts candidate) (clean_parts-plain root h)
        (clean_parts-plain candidate k)
