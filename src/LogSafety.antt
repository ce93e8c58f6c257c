-- ===== src/LogSafety.antt =====
-- `SanitizeLogText` (utils/log_safety.go), over the runes of a text.
use load_balancer_controller.Base.{
  any-append, ℕ, leb, ltb, ◌==◌, Bool, false, ◌&&◌, ◌||◌, [], ◌∷◌, ◌++◌, ◌≡◌, refl, sym, ap, ◌∙◌,
  inl, inr, arith, if◌then◌else◌, any, Bool-cases, map,
}
use load_balancer_controller.Base.Text.{Text}
use mathlib.Core.List.{append_assoc, append-nil}

-- `unicode.IsControl`: the category Cc.
unfoldable pub is_control : ℕ → Bool
is_control r = ltb r 32 || leb 127 r && leb r 159

-- The function that `strings.Map` applies.
unfoldable pub neutral : ℕ → ℕ
unfolding is_control
neutral r =
    if r == b'\r' || r == b'\n'
    then r
    else if r == 0x85 || r == 0x2028 || r == 0x2029
    then 0xfffd
    else if is_control r
    then 0xfffd
    else r

-- `strings.ReplaceAll(input, r, by)` for one rune.
unfoldable pub replace_rune : ℕ → Text → Text → Text
replace_rune r by [] = []
replace_rune r by (c ∷ s) = (if c == r then by else c ∷ []) ++ replace_rune r by s

unfoldable pub sanitize_log_text : Text → Text
unfolding neutral replace_rune
sanitize_log_text input =
    replace_rune b'\n' (b'\\' ∷ b'n' ∷ [])
      (replace_rune b'\r' (b'\\' ∷ b'r' ∷ []) (map neutral input))

-- A rune that ends a line or steers a terminal.
abbrev pub unsafe_rune : ℕ → Bool
unsafe_rune r = is_control r || r == 0x2028 || r == 0x2029

-- The three passes, rune by rune.
sanitized_rune : ℕ → Text
unfolding neutral
sanitized_rune r =
    if neutral r == b'\r'
    then b'\\' ∷ b'r' ∷ []
    else if neutral r == b'\n'
    then b'\\' ∷ b'n' ∷ []
    else neutral r ∷ []

replace_rune-append :
    (r : ℕ) (by xs ys : Text)
    → replace_rune r by (xs ++ ys) ≡ replace_rune r by xs ++ replace_rune r by ys
unfolding replace_rune
replace_rune-append r by [] ys = refl
replace_rune-append r by (x ∷ xs) ys = rw (replace_rune-append r by xs ys) (
    sym
      (append_assoc (if x == r then by else x ∷ []) (replace_rune r by xs) (replace_rune r by ys)))

one_rune :
    (n : ℕ)
    → replace_rune b'\n' (b'\\' ∷ b'n' ∷ []) (if n == b'\r' then b'\\' ∷ b'r' ∷ [] else n ∷ [])
      ≡ (if n == b'\r' then b'\\' ∷ b'r' ∷ [] else if n == b'\n' then b'\\' ∷ b'n' ∷ [] else n ∷ [])
unfolding replace_rune
one_rune n = elim (Bool-cases (n == b'\r')) [ inl e ↦ rw e refl | inr e ↦ rw e (append-nil _) ]

sanitize_log_text-cons :
    (r : ℕ) (s : Text) → sanitize_log_text (r ∷ s) ≡ sanitized_rune r ++ sanitize_log_text s
unfolding sanitize_log_text sanitized_rune replace_rune
sanitize_log_text-cons r s =
    replace_rune-append b'\n' (b'\\' ∷ b'n' ∷ [])
      (if neutral r == b'\r' then b'\\' ∷ b'r' ∷ [] else neutral r ∷ [])
      (replace_rune b'\r' (b'\\' ∷ b'r' ∷ []) (map neutral s))
    ∙ ap (λ (t : Text). t ++ sanitize_log_text s) (one_rune (neutral r))

sanitized_rune-safe : (r : ℕ) → any unsafe_rune (sanitized_rune r) ≡ false
unfolding sanitized_rune any is_control
sanitized_rune-safe r = ground arith

-- No sanitized text holds a line end or another control character: what is logged stays on one
-- line, whatever the input.
pub sanitize_log_text-safe : (s : Text) → any unsafe_rune (sanitize_log_text s) ≡ false
sanitize_log_text-safe [] = unfold sanitize_log_text any in refl
sanitize_log_text-safe (r ∷ s) =
    rw (sanitize_log_text-cons, any-append) (rw (sanitized_rune-safe, sanitize_log_text-safe s))

sanitized_rune-same : (r : ℕ) → unsafe_rune r ≡ false → sanitized_rune r ≡ r ∷ []
unfolding sanitized_rune is_control
sanitized_rune-same r h = ground arith

-- A text without such characters is logged as it is.
pub sanitize_log_text-same : (s : Text) → any unsafe_rune s ≡ false → sanitize_log_text s ≡ s
unfolding any
sanitize_log_text-same [] h = unfold sanitize_log_text in refl
sanitize_log_text-same (r ∷ s) h =
    sanitize_log_text-cons r s
    ∙ rw (sanitized_rune-same r (ground arith))
        (ap (λ (t : Text). r ∷ t) (sanitize_log_text-same s (ground arith)))
