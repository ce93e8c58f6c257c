-- ===== src/Selector/Pieces.antt =====
-- The scan of `GetSelectorConstraints` and the pieces of a selector between its commas.
use load_balancer_controller.Base.{
  ℕ, Bool, true, false, not, ◌&&◌, ◌||◌, ◌==◌, ltb, List, [], ◌∷◌, ◌++◌, ◌≡◌, refl, ap, ◌∙◌, inl,
  inr, arith, if◌then◌else◌, is_empty, all, map, Bool-cases,
}
use load_balancer_controller.Base.Text.{Text, codes, text_eq, split_byte, split_text}
use load_balancer_controller.Base.Dict.{Dict}
use mathlib.Core.List.{append_assoc, append-nil}
use load_balancer_controller.Selector.{
  Constraint, matches, Scan, scan, scan_step, scan_char, finish_constraint, rune_rest, rune_text,
  constraints_of, get_selector_constraints, is_selector_match,
}
use load_balancer_controller.Selector.Verdicts.{
  eq_or_noop, get_selector_constraint-eq, is_selector_match-all,
}

-- An ASCII byte that is no parenthesis.
abbrev pub is_plain : ℕ → Bool
is_plain c = ltb c 0x80 && (not (c == b'(') && not (c == b')'))

-- A last piece that is empty is left out.
unfoldable pub drop_empty_end : List Text → List Text
drop_empty_end [] = []
drop_empty_end (p ∷ []) = if is_empty p then [] else p ∷ []
drop_empty_end (p ∷ q ∷ ps) = p ∷ drop_empty_end (q ∷ ps)

unfoldable pub pieces : Text → List Text
unfolding drop_empty_end split_byte
pieces selector = drop_empty_end (split_byte b',' selector)

abbrev pub constraint_of : Text → Constraint
unfolding split_text
constraint_of piece = eq_or_noop (split_text (codes "=") piece)

abbrev with_prefix : Text → List Text → List Text
with_prefix k [] = k ∷ []
with_prefix k (p ∷ ps) = (k ++ p) ∷ ps

-- The scan outside of parentheses.
abbrev outside : Text → List Text → Scan
outside k found = record { in_list = false; constraint = k; found = found }

plain_step :
    (c : ℕ) (cs : Text) (s : Scan)
    → is_plain c ≡ true
    → scan 0 (c ∷ cs) s ≡ scan 0 cs (scan_step (c ∷ []) (is_empty cs) s)
unfolding scan
plain_step c cs s h =
    let rest : rune_rest c cs ≡ 0 = unfold rune_rest in ground arith in
    let small : ltb c 0x80 ≡ true = ground arith in rw rest (unfold rune_text in rw small refl)

or-last : (b : Bool) → (b || false) ≡ b
or-last true = refl
or-last false = refl

comma_step :
    (last : Bool) (k : Text) (found : List Text)
    → scan_step (b',' ∷ []) last (outside k found) ≡ outside [] (found ++ k ∷ [])
unfolding scan_step scan_char finish_constraint text_eq
comma_step true k found = refl
comma_step false k found = refl

char_step :
    (c : ℕ) (last : Bool) (k : Text) (found : List Text)
    → is_plain c ≡ true
    → (c == b',') ≡ false
    → scan_step (c ∷ []) last (outside k found)
      ≡ finish_constraint last (outside (k ++ c ∷ []) found)
unfolding scan_step scan_char text_eq
char_step c last k found h comma =
    let opens : (c == b'(') ≡ false = ground arith in
    let closes : (c == b')') ≡ false = ground arith in
    rw (opens, closes, comma)
      (ap (λ (b : Bool). finish_constraint b (outside (k ++ c ∷ []) found)) (or-last last))

split-shape : (cs : Text) → (p : Text) × (ps : List Text) × (split_byte b',' cs ≡ p ∷ ps)
unfolding split_byte
split-shape [] = ([], [], refl)
split-shape (c ∷ cs) = elim (Bool-cases (c == b',')) [
  | inl e ↦ ([], split_byte b',' cs, rw e refl)
  | inr e ↦ let (p, ps, h) = split-shape cs in (c ∷ p, ps, rw (e, h) refl)
]

split-comma :
    (c : ℕ) (cs : Text) → (c == b',') ≡ true → split_byte b',' (c ∷ cs) ≡ [] ∷ split_byte b',' cs
unfolding split_byte
split-comma c cs e = rw e refl

split-other :
    (c : ℕ) (cs p : Text) (ps : List Text)
    → (c == b',') ≡ false
    → split_byte b',' cs ≡ p ∷ ps
    → split_byte b',' (c ∷ cs) ≡ (c ∷ p) ∷ ps
unfolding split_byte
split-other c cs p ps e h = rw (e, h) refl

scan-nil : (s : Scan) → scan 0 [] s ≡ s
unfolding scan
scan-nil s = refl

split-nil : split_byte b',' [] ≡ [] ∷ []
unfolding split_byte
split-nil = refl

not_empty : (k : Text) (c : ℕ) → is_empty (k ++ c ∷ []) ≡ false
not_empty [] c = refl
not_empty (d ∷ k) c = refl

-- From inside a piece that began with `k`, with at least one byte to go.
scan-pieces :
    (c : ℕ) (cs k : Text) (found : List Text)
    → all is_plain (c ∷ cs) ≡ true
    → (scan 0 (c ∷ cs) (outside k found)).found
      ≡ found ++ drop_empty_end (with_prefix k (split_byte b',' (c ∷ cs)))
unfolding all drop_empty_end finish_constraint
scan-pieces c [] k found h =
    let first : is_plain c ≡ true = ground arith in
    elim (Bool-cases (c == b',')) [
      | inl e ↦
          let same : c ≡ b',' = ground arith in
          rw
            (
              plain_step c [] (outside k found) first,
              split-comma c [] e,
              same,
              comma_step true k found,
              scan-nil,
              split-nil,
              append-nil k,
            )
            refl
      | inr e ↦
          rw
            (
              plain_step c [] (outside k found) first,
              char_step c true k found first e,
              split-other c [] [] [] e split-nil,
              scan-nil,
              not_empty k c,
            )
            refl
    ]
scan-pieces c (d ∷ ds) k found h =
    let (p, ps, shape) = split-shape (d ∷ ds) in
    let first : is_plain c ≡ true = ground arith in
    let rest : all is_plain (d ∷ ds) ≡ true = ground arith in
    elim (Bool-cases (c == b',')) [
      | inl e ↦
          let same : c ≡ b',' = ground arith in
          let ih = scan-pieces d ds [] (found ++ k ∷ []) rest in
          rw
            (
              plain_step c (d ∷ ds) (outside k found) first,
              split-comma c (d ∷ ds) e,
              same,
              comma_step false k found,
              append-nil k,
              ih,
              shape,
            )
            (append_assoc found (k ∷ []) (drop_empty_end (p ∷ ps)))
      | inr e ↦
          rw
            (
              plain_step c (d ∷ ds) (outside k found) first,
              char_step c false k found first e,
              split-other c (d ∷ ds) p ps e shape,
              scan-pieces d ds (k ++ c ∷ []) found rest,
              shape,
              append_assoc k (c ∷ []) p,
            )
            refl
    ]

constraints_of-map : (ts : List Text) → constraints_of ts ≡ map constraint_of ts
unfolding constraints_of
constraints_of-map [] = refl
constraints_of-map (t ∷ ts) =
    rw (constraints_of, get_selector_constraint-eq t, constraints_of-map ts) refl

get_selector_constraints-pieces :
    (selector : Text)
    → all is_plain selector ≡ true
    → get_selector_constraints selector ≡ map constraint_of (pieces selector)
unfolding get_selector_constraints pieces
get_selector_constraints-pieces [] h = unfold scan constraints_of drop_empty_end split_byte in refl
get_selector_constraints-pieces (c ∷ cs) h =
    let (p, ps, shape) = split-shape (c ∷ cs) in
    let found = scan-pieces c cs [] [] h in
    rw (get_selector_constraints, found, constraints_of-map, pieces, shape) refl

all-map :
    (labels : Dict Text) (ps : List Text)
    → all (λ c. matches c labels) (map constraint_of ps)
      ≡ all (λ p. matches (constraint_of p) labels) ps
unfolding all
all-map labels [] = refl
all-map labels (p ∷ ps) = rw (all-map labels ps) refl

is_empty-map : (ps : List Text) → is_empty (map constraint_of ps) ≡ is_empty ps
is_empty-map [] = refl
is_empty-map (p ∷ ps) = refl

-- A selector of ASCII bytes without parentheses matches labels exactly when there is something
-- between its commas, and every piece matches: one that has exactly one `=` as the equality of what
-- stands before and behind it without the white space around it, and any other one as a constraint on the label with an empty key. A
-- comma at the end makes no piece.
pub is_selector_match-pieces :
    (selector : Text) (labels : Dict Text)
    → all is_plain selector ≡ true
    → is_selector_match selector labels ≡ (
        not (is_empty (pieces selector))
        && all (λ p. matches (constraint_of p) labels) (pieces selector))
is_selector_match-pieces [] labels h =
    is_selector_match-all [] labels ∙ (unfold pieces drop_empty_end split_byte in refl)
is_selector_match-pieces (c ∷ cs) labels h =
    is_selector_match-all (c ∷ cs) labels
    ∙ rw (get_selector_constraints-pieces (c ∷ cs) h, is_empty-map, all-map labels) refl
