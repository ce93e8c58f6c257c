-- ===== src/Metadata/Accessors/Escapes.antt =====
-- The escapes of names in the paths of internal/metadata/client.go: they are read back, have no
-- slash, and spell `..` only for the name `..`.
use load_balancer_controller.Base.{
  ℕ, Bool, true, false, ◌||◌, ◌&&◌, ◌==◌, leb, Option, some, none, [], ◌∷◌, ◌++◌, ◌≡◌, refl, sym,
  ap, ◌∙◌, if◌then◌else◌, ◌/◌, ◌%◌, ◌+◌, ◌*◌, ◌-◌, ◌<◌, any, ltb, arith, inl, inr, Bool-cases,
}
use load_balancer_controller.Base.Text.{
  Text, codes, text_eq, equal_fold, to_lower, to_lower_byte, contains_byte,
}
use mathlib.Core.List.{append-nil}
use load_balancer_controller.Metadata.Accessors.{hex_digit, is_kept, path_escape}

kept-no_slash : (c : ℕ) → is_kept c ≡ true → (c == b'/') ≡ false
unfolding is_kept any
kept-no_slash c h = ground arith

digit-no_slash : (n : ℕ) → (hex_digit n == b'/') ≡ false
digit-no_slash n = ground arith

-- An escaped text has no slash.
pub path_escape-no_slash : (s : Text) → contains_byte b'/' (path_escape s) ≡ false
unfolding path_escape contains_byte
path_escape-no_slash [] = refl
path_escape-no_slash (c ∷ s) = elim (Bool-cases (is_kept c)) [
  | inl e ↦ rw (e, kept-no_slash c e) (path_escape-no_slash s)
  | inr e ↦ rw (e, digit-no_slash (c / 16), digit-no_slash (c % 16)) (path_escape-no_slash s)
]

abbrev hex_value : ℕ → ℕ
hex_value d = if leb d 57 then d - 48 else if leb d 70 then d - 55 else d - 87

abbrev is_hex : ℕ → Bool
is_hex d = (leb 48 d && leb d 57) || (leb 65 d && leb d 70) || (leb 97 d && leb d 102)

abbrev with_byte : ℕ → Option Text → Option Text
with_byte c none = none
with_byte c (some s) = some (c ∷ s)

-- What `url.Parse` makes of the escapes in a path; `none` is an error.
unfoldable pub unescape : Text → Option Text
unescape [] = some []
unescape (c ∷ []) = if c == b'%' then none else some (c ∷ [])
unescape (c ∷ h ∷ []) = if c == b'%' then none else with_byte c (unescape (h ∷ []))
unescape (c ∷ h ∷ l ∷ s) = elim (c == b'%') [
  | true ↦
      if is_hex h && is_hex l then with_byte (hex_value h * 16 + hex_value l) (unescape s) else none
  | false ↦ with_byte c (unescape (h ∷ l ∷ s))
]

unescape-kept :
    (c : ℕ) (s : Text) → (c == b'%') ≡ false → unescape (c ∷ s) ≡ with_byte c (unescape s)
unfolding unescape
unescape-kept c [] h = rw h refl
unescape-kept c (d ∷ []) h = rw h refl
unescape-kept c (d ∷ e ∷ s) h = rw (h, unescape) refl

-- The two digits of a byte are read back.
hex_value-digit : (n : ℕ) → n < 16 → hex_value (hex_digit n) ≡ n
hex_value-digit n h = ground arith

is_hex-digit : (n : ℕ) → n < 16 → is_hex (hex_digit n) ≡ true
is_hex-digit n h = ground arith

kept-no_percent : (c : ℕ) → is_kept c ≡ true → (c == b'%') ≡ false
unfolding is_kept any
kept-no_percent c h = ground arith

unescape-percent :
    (h l : ℕ) (s : Text)
    → is_hex h ≡ true
    → is_hex l ≡ true
    → unescape (b'%' ∷ h ∷ l ∷ s) ≡ with_byte (hex_value h * 16 + hex_value l) (unescape s)
unfolding unescape
unescape-percent h l s p q = rw (p, q) refl

unescape-digits :
    (c : ℕ) (s : Text)
    → ltb c 256 ≡ true
    → unescape (b'%' ∷ hex_digit (c / 16) ∷ hex_digit (c % 16) ∷ s) ≡ with_byte c (unescape s)
unescape-digits c s small =
    let high : c / 16 < 16 = ground arith in
    let low : c % 16 < 16 = omega arith in
    let sum : c / 16 * 16 + c % 16 ≡ c = omega arith in
    let values : hex_value (hex_digit (c / 16)) * 16 + hex_value (hex_digit (c % 16)) ≡ c =
      rw (hex_value-digit (c / 16) high, hex_value-digit (c % 16) low) sum in
    unescape-percent _ _ s (is_hex-digit (c / 16) high) (is_hex-digit (c % 16) low)
    ∙ ap (λ (v : ℕ). with_byte v (unescape s)) values

-- Every byte is below 256.
unfoldable pub is_bytes : Text → Bool
is_bytes [] = true
is_bytes (c ∷ s) = ltb c 256 && is_bytes s

-- What is escaped is read back, in front of any text.
pub unescape-path_escape :
    (s t : Text) {r : Text}
    → is_bytes s ≡ true
    → unescape t ≡ some r
    → unescape (path_escape s ++ t) ≡ some (s ++ r)
unfolding path_escape is_bytes
unescape-path_escape [] t b h = h
unescape-path_escape (c ∷ s) t b h =
    let rest = unescape-path_escape s t (ground arith) h in
    elim (Bool-cases (is_kept c)) [
      | inl e ↦ rw e (unescape-kept c _ (kept-no_percent c e) ∙ ap (with_byte c) rest)
      | inr e ↦ rw e (unescape-digits c _ (ground arith) ∙ ap (with_byte c) rest)
    ]

pub or-last : (b : Bool) → (b || false) ≡ b
or-last true = refl
or-last false = refl

pub escape-end : (s : Text) → text_eq (path_escape s) [] ≡ text_eq s []
unfolding path_escape text_eq
escape-end [] = refl
escape-end (c ∷ s) = elim (Bool-cases (is_kept c)) [ inl e ↦ rw e refl | inr e ↦ rw e refl ]

not_kept-no_dot : (c : ℕ) → is_kept c ≡ false → (c == b'.') ≡ false
unfolding is_kept any
not_kept-no_dot c h = ground arith

-- A dot is escaped to itself, and nothing else to a text that begins with one.
pub escape-dot :
    (s t : Text)
    → ((r : Text) → text_eq (path_escape r) t ≡ text_eq r t)
    → text_eq (path_escape s) (b'.' ∷ t) ≡ text_eq s (b'.' ∷ t)
unfolding path_escape text_eq
escape-dot [] t more = refl
escape-dot (c ∷ s) t more = elim (Bool-cases (is_kept c)) [
  | inl e ↦ rw e (ap (λ (b : Bool). c == b'.' && b) (more s))
  | inr e ↦ rw (e, not_kept-no_dot c e) refl
]

kept-lower : (c : ℕ) → is_kept c ≡ true → (to_lower_byte c == b'%') ≡ false
unfolding is_kept any
kept-lower c h = ground arith

digit-two : (n : ℕ) → (to_lower_byte (hex_digit n) == b'2') ≡ true → n ≡ 2
digit-two n h = ground arith

digit-e : (n : ℕ) → n < 16 → (to_lower_byte (hex_digit n) == b'e') ≡ true → n ≡ 14
digit-e n l h = ground arith

not_kept-spelled :
    (c : ℕ) (b : Bool)
    → is_kept c ≡ false
    → (to_lower_byte (hex_digit (c / 16)) == b'2'
        && ((to_lower_byte (hex_digit (c % 16)) == b'e') && b))
      ≡ false
not_kept-spelled c b h = elim (Bool-cases (to_lower_byte (hex_digit (c / 16)) == b'2')) [
  | inl p ↦ rw p (elim (Bool-cases (to_lower_byte (hex_digit (c % 16)) == b'e')) [
    | inl q ↦
        let two = digit-two (c / 16) p in
        let end = digit-e (c % 16) (omega arith) q in
        let dot : c ≡ 46 = omega arith in absurd (ground (arith, not_kept-no_dot c h))
    | inr q ↦ rw q refl
  ])
  | inr p ↦ rw p refl
]

-- An escaped text does not spell an escaped dot.
pub escape-spelled : (s : Text) → equal_fold (path_escape s) (codes "%2e%2e") ≡ false
unfolding path_escape equal_fold text_eq to_lower
escape-spelled [] = refl
escape-spelled (c ∷ s) = elim (Bool-cases (is_kept c)) [
  | inl e ↦ rw (e, kept-lower c e) refl
  | inr e ↦ rw e (not_kept-spelled c _ e)
]

pub unescape-whole : (s : Text) → is_bytes s ≡ true → unescape (path_escape s) ≡ some s
unfolding unescape
unescape-whole s b =
    sym (ap unescape (append-nil (path_escape s)))
    ∙ unescape-path_escape s [] b refl
    ∙ ap (λ (r : Text). some r) (append-nil s)

pub unescape-plain :
    (p t : Text) {r : Text}
    → contains_byte b'%' p ≡ false
    → unescape t ≡ some r
    → unescape (p ++ t) ≡ some (p ++ r)
unfolding contains_byte
unescape-plain [] t h e = e
unescape-plain (c ∷ p) t h e =
    unescape-kept c (p ++ t) (ground arith) ∙ ap (with_byte c) (unescape-plain p t (ground arith) e)
