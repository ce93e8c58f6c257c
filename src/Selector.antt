-- ===== src/Selector.antt =====
-- Label selectors (controller/rancher/selector_util.go).
pub mod Verdicts
pub mod Pieces
use load_balancer_controller.Base.{
  ℕ, zero, suc, ◌+◌, ◌==◌, leb, ltb, take, Bool, true, false, not, ◌&&◌, ◌||◌, Option, some, none,
  List, [], ◌∷◌, ◌++◌, if◌then◌else◌, length, is_empty, is_some, any,
}
use load_balancer_controller.Base.Text.{
  Text, codes, text_eq, equal_fold, split_byte, split_text, trim_space,
}
use load_balancer_controller.Base.Dict.{Dict, lookup}

-- The types that implement `SelectorConstraint`.
pub data Constraint : Type 0 where
  one_of : Text → List Text → Constraint
  not_in : Text → List Text → Constraint
  equals : Text → Text → Constraint
  differs : Text → Text → Constraint
  noop : Text → Constraint

-- A label with the key of the constraint, and a test on its value.
has_label : Text → (Text → Bool) → Dict Text → Bool
unfolding any equal_fold
has_label key p labels = any (λ kv. equal_fold kv.0 key && p kv.1) labels

-- The `IsSelectorMatch` methods.
unfoldable pub matches : Constraint → Dict Text → Bool
unfolding has_label lookup
matches (one_of key values) labels = has_label key (λ l. any (λ v. equal_fold l v) values) labels
matches (not_in key values) labels =
    has_label key (λ l. any (λ v. not (equal_fold l v)) values) labels
matches (equals key value) labels = has_label key (λ l. equal_fold l value) labels
matches (differs key value) labels = has_label key (λ l. not (equal_fold l value)) labels
matches (noop key) labels = is_some (lookup key labels)

pub data Op : Type 0 where
  no_op eq_op notin_op in_op neq_op : Op

abbrev op_text : Op → Text
op_text no_op = []
op_text eq_op = codes "="
op_text notin_op = codes " notin "
op_text in_op = codes " in "
op_text neq_op = codes "!="

-- The variables of the loop of `GetSelectorConstraint`.
pub record Found : Type 0 where
  pub final_op : Op
  pub key : Text
  pub value : Text

-- `exp := strings.Split(selector, op)`, and what it sets when there are two pieces.
take_pieces : Op → List Text → Found → Found
unfolding trim_space
take_pieces op (k ∷ v ∷ []) f = record { final_op = op; key = trim_space k; value = trim_space v }
take_pieces op _ f = f

-- The chain of tests on `finalOp`; `none` goes on with the next operator. The second test of
-- the source is on EQ again, so it never holds, and NEQ has no test.
conclude : Op → Found → Option Constraint
unfolding split_byte
conclude eq_op f = some (equals f.key f.value)
conclude no_op f = some (noop f.key)
conclude in_op f = some (one_of f.key (split_byte b',' f.value))
conclude notin_op f = some (not_in f.key (split_byte b',' f.value))
conclude neq_op f = none

try_ops : Text → List Op → Found → Option Constraint
unfolding take_pieces conclude split_text
try_ops selector [] f = none
try_ops selector (op ∷ ops) f =
    let f' = take_pieces op (split_text (op_text op) selector) f in
    elim (conclude f'.final_op f') [ some c ↦ some c | none ↦ try_ops selector ops f' ]

-- `GetSelectorConstraint`: the loop passes over NOOP, the first of its operators.
unfoldable pub get_selector_constraint : Text → Option Constraint
unfolding try_ops
get_selector_constraint selector =
    try_ops selector (eq_op ∷ notin_op ∷ in_op ∷ neq_op ∷ [])
      (record { final_op = no_op; key = []; value = [] })

-- The variables of the scan: inside parentheses, the constraint so far, those that are finished.
pub record Scan : Type 0 where
  pub in_list : Bool
  pub constraint : Text
  pub found : List Text

-- How `range` reads a string: the bytes of a rune behind its first one. A byte that begins no
-- valid encoding is a rune of its own.
continues : ℕ → Bool
continues d = leb 0x80 d && leb d 0xbf

-- The second byte of three or four, which neither spells a code too long nor a surrogate nor a code
-- above the last one.
continues_after : ℕ → ℕ → Bool
continues_after c d =
    leb (if c == 0xe0 then 0xa0 else if c == 0xf0 then 0x90 else 0x80) d
    && leb d (if c == 0xed then 0x9f else if c == 0xf4 then 0x8f else 0xbf)

two_bytes : Text → ℕ
unfolding continues
two_bytes (d ∷ _) = if continues d then 1 else 0
two_bytes [] = 0

three_bytes : ℕ → Text → ℕ
unfolding continues continues_after
three_bytes c (d ∷ e ∷ _) = if continues_after c d && continues e then 2 else 0
three_bytes c _ = 0

four_bytes : ℕ → Text → ℕ
unfolding continues continues_after
four_bytes c (d ∷ e ∷ f ∷ _) = if continues_after c d && continues e && continues f then 3 else 0
four_bytes c _ = 0

rune_rest : ℕ → Text → ℕ
unfolding two_bytes three_bytes four_bytes
rune_rest c cs =
    if leb 0xc2 c && leb c 0xdf
    then two_bytes cs
    else if leb 0xe0 c && leb c 0xef
    then three_bytes c cs
    else if leb 0xf0 c && leb c 0xf4
    then four_bytes c cs
    else 0

-- `string(char)`: a byte that is no rune becomes U+FFFD.
rune_text : ℕ → Text → Text
unfolding rune_rest take
rune_text c cs =
    if ltb c 0x80
    then c ∷ []
    else if rune_rest c cs == 0
    then 0xef ∷ 0xbf ∷ 0xbd ∷ []
    else c ∷ take (rune_rest c cs) cs

scan_char : Text → Scan → Scan × Bool
unfolding text_eq
scan_char c s =
    if text_eq c (codes "(")
    then (record s { in_list = true }, false)
    else if text_eq c (codes ")")
    then (record s { in_list = false }, false)
    else if text_eq c (codes ",")
    then (if s.in_list then (record s { constraint = s.constraint ++ c }, false) else (s, true))
    else (record s { constraint = s.constraint ++ c }, false)

finish_constraint : Bool → Scan → Scan
finish_constraint false s = s
finish_constraint true s = record s { found = s.found ++ s.constraint ∷ []; constraint = [] }

-- One round of the loop; `last` is `i == len(selector)-1`.
scan_step : Text → Bool → Scan → Scan
unfolding scan_char finish_constraint
scan_step c last s = let (s', finish) = scan_char c s in finish_constraint (last || finish) s'

-- The loop over the runes, with the bytes of the last rune that are still to be passed over. `i` is
-- where a rune begins, so it is the last index only if the rune is a single byte.
unfoldable pub scan : ℕ → Text → Scan → Scan
unfolding scan_step rune_rest rune_text
scan more [] s = s
scan (suc more) (c ∷ cs) s = scan more cs s
scan zero (c ∷ cs) s = scan (rune_rest c cs) cs (scan_step (rune_text c cs) (is_empty cs) s)

constraints_of : List Text → List Constraint
unfolding get_selector_constraint
constraints_of [] = []
constraints_of (t ∷ ts) = elim (get_selector_constraint t) [
  | none ↦ constraints_of ts
  | some c ↦ c ∷ constraints_of ts
]

-- `GetSelectorConstraints`
unfoldable pub get_selector_constraints : Text → List Constraint
unfolding scan constraints_of
get_selector_constraints selector =
    constraints_of (scan 0 selector (record { in_list = false; constraint = []; found = [] })).found

count_matches : List Constraint → Dict Text → ℕ → ℕ
unfolding matches
count_matches [] labels n = n
count_matches (c ∷ cs) labels n = count_matches cs labels (if matches c labels then n + 1 else n)

-- `IsSelectorMatch`; nil labels are the empty map.
unfoldable pub is_selector_match : Text → Dict Text → Bool
unfolding get_selector_constraints count_matches
is_selector_match selector labels =
    let constraints = get_selector_constraints selector in
    if is_empty selector
    then false
    else if is_empty constraints
    then false
    else count_matches constraints labels 0 == length constraints
