-- ===== src/Provider/Custom/Sections.antt =====
-- The loop over the custom text against a description of it: each line is tagged with the section
-- that it stands in, and a section is the lines with its tag, in order.
use load_balancer_controller.Base.{
  Bool, true, false, not, ◌&&◌, List, [], ◌∷◌, ◌++◌, ◌≡◌, refl, sym, ap, ◌∙◌, if◌then◌else◌, map,
  keep, any, arith, inl, inr, Bool-cases,
}
use load_balancer_controller.Base.Text.{Text, text_eq, text_eq_iff, trim_space, split_byte}
use load_balancer_controller.Base.Dict.{Dict, lookup, lookup-insert}
use load_balancer_controller.Provider.Custom.Defaults.{conf_to_string, get_default_config}
use load_balancer_controller.Provider.Custom.Parse.{
  Parsed, Line, skip, head, server, value, classify, take_line, parse_lines, parse, values, append,
  server_key, overrides, drop_overridden, default_line, add_sections, add_defaults,
}
use mathlib.Core.List.{append_assoc, append-nil}

module _ {ℓ} {A : Type ℓ} where
  -- The values with the tag `k`, in order.
  unfoldable pub of_section : Text → List (Text × A) → List A
  unfolding text_eq
  of_section k [] = []
  of_section k ((j, v) ∷ rest) = let vs = of_section k rest in if text_eq j k then v ∷ vs else vs

  values-append :
      (k j : Text) (v : A) (m : Dict (List A)) (vs : List A)
      → values k (append j v m) ++ vs ≡ values k m ++ (if text_eq j k then v ∷ vs else vs)
  unfolding values append
  values-append k j v m vs = elim (Bool-cases (text_eq j k)) [
    | inl e ↦ rw (lookup-insert, e, (text_eq_iff j k).0 e) (append_assoc (values k m) (v ∷ []) vs)
    | inr e ↦ rw (lookup-insert, e) refl
  ]

tag_line : Text → Line → List (Text × Text) → List (Text × Text)
unfolding server_key
tag_line key skip rest = rest
tag_line key (head k) rest = rest
tag_line key (server text) rest = (server_key key, text) ∷ rest
tag_line key (value conf) rest = (key, conf) ∷ rest

next_key : Text → Line → Text
next_key key (head k) = k
next_key key _ = key

unfoldable pub tagged : Text → List Text → List (Text × Text)
unfolding tag_line next_key classify
tagged key [] = []
tagged key (conf ∷ rest) = tag_line key (classify conf) (tagged (next_key key (classify conf)) rest)

take_line-values :
    (k : Text) (l : Line) (p : Parsed) (rest : List (Text × Text))
    → values k (take_line l p).custom ++ of_section k rest
      ≡ values k p.custom ++ of_section k (tag_line p.key l rest)
unfolding take_line tag_line of_section
take_line-values k skip p rest = refl
take_line-values k (head j) p rest = refl
take_line-values k (server text) p rest =
    values-append k (server_key p.key) text p.custom (of_section k rest)
take_line-values k (value conf) p rest = values-append k p.key conf p.custom (of_section k rest)

take_line-key : (l : Line) (p : Parsed) → (take_line l p).key ≡ next_key p.key l
unfolding take_line next_key
take_line-key skip p = refl
take_line-key (head j) p = refl
take_line-key (server text) p = refl
take_line-key (value conf) p = refl

values-parse_lines :
    (k : Text) (confs : List Text) (p : Parsed)
    → values k (parse_lines confs p).custom ≡ values k p.custom ++ of_section k (tagged p.key confs)
unfolding parse_lines tagged
values-parse_lines k [] p = unfold of_section in sym (append-nil (values k p.custom))
values-parse_lines k (conf ∷ rest) p =
    let l = classify conf in
    values-parse_lines k rest (take_line l p)
    ∙ rw (take_line-key l p) (take_line-values k l p (tagged (next_key p.key l) rest))

-- What is left of the defaults of a section: those that no value of the section overrides.
is_left : Text → List (Text × Text) → Text × Text → Bool
unfolding any text_eq overrides trim_space
is_left key vs e =
    not (any (λ (v : Text × Text). text_eq key v.0 && overrides v.0 (trim_space v.1) e.0) vs)

cons_value : Text → Line → List (Text × Text) → List (Text × Text)
cons_value key (value conf) rest = (key, conf) ∷ rest
cons_value key _ rest = rest

-- The values, without the server templates.
unfoldable pub tagged_values : Text → List Text → List (Text × Text)
unfolding classify next_key cons_value
tagged_values key [] = []
tagged_values key (conf ∷ rest) =
    cons_value key (classify conf) (tagged_values (next_key key (classify conf)) rest)

unfoldable pub left : List (Text × Text) → Dict (Dict Text) → Dict (Dict Text)
unfolding keep is_left
left vs [] = []
left vs ((k, m) ∷ rest) = (k, keep (is_left k vs) m) ∷ left vs rest

keep-none : (k : Text) (m : Dict Text) → keep (is_left k []) m ≡ m
unfolding keep is_left any
keep-none k [] = refl
keep-none k (e ∷ m) = ap (λ r. e ∷ r) (keep-none k m)

left-none : (ds : Dict (Dict Text)) → left [] ds ≡ ds
unfolding left
left-none [] = refl
left-none ((k, m) ∷ ds) = rw (keep-none k m, left-none ds) refl

keep-overridden :
    (k key conf : Text) (vs : List (Text × Text)) (m : Dict Text)
    → keep (is_left k vs) (
        if text_eq k key
        then keep (λ (e : Text × Text). not (overrides key (trim_space conf) e.0)) m
        else m)
      ≡ keep (is_left k ((key, conf) ∷ vs)) m
unfolding keep is_left any
keep-overridden k key conf vs [] = ground arith
keep-overridden k key conf vs (e ∷ m) = ground (arith, keep-overridden k key conf vs m)

left-drop :
    (key conf : Text) (vs : List (Text × Text)) (ds : Dict (Dict Text))
    → left vs (drop_overridden key (trim_space conf) ds) ≡ left ((key, conf) ∷ vs) ds
unfolding left drop_overridden
left-drop key conf vs [] = refl
left-drop key conf vs ((k, m) ∷ ds) =
    rw (keep-overridden k key conf vs m, left-drop key conf vs ds) refl

take_line-defaults :
    (l : Line) (p : Parsed) (vs : List (Text × Text))
    → left vs (take_line l p).defaults ≡ left (cons_value p.key l vs) p.defaults
unfolding take_line cons_value
take_line-defaults skip p vs = refl
take_line-defaults (head j) p vs = refl
take_line-defaults (server text) p vs = refl
take_line-defaults (value conf) p vs = left-drop p.key conf vs p.defaults

defaults-parse_lines :
    (confs : List Text) (p : Parsed)
    → (parse_lines confs p).defaults ≡ left (tagged_values p.key confs) p.defaults
unfolding parse_lines tagged_values
defaults-parse_lines [] p = sym (left-none p.defaults)
defaults-parse_lines (conf ∷ rest) p =
    let l = classify conf in
    defaults-parse_lines rest (take_line l p)
    ∙ rw (take_line-key l p) (take_line-defaults l p (tagged_values (next_key p.key l) rest))

-- The text that stands for the defaults of a section.
unfoldable pub default_text : Text × Dict Text → Text × Text
unfolding conf_to_string default_line
default_text (k, m) = (k, conf_to_string (map default_line m) true false)

values-add_sections :
    (k : Text) (ds : Dict (Dict Text)) (custom : Dict (List Text))
    → values k (add_sections ds custom) ≡ values k custom ++ of_section k (map default_text ds)
unfolding add_sections default_text of_section
values-add_sections k [] custom = sym (append-nil (values k custom))
values-add_sections k ((j, m) ∷ ds) custom =
    let text = conf_to_string (map default_line m) true false in
    values-add_sections k ds (append j text custom)
    ∙ values-append k j text custom (of_section k (map default_text ds))

-- Every section of the configuration is the custom lines that stand in it, in their order (server
-- templates under the name of the backend and `_$IP`), and behind them, for the three sections
-- with defaults, one text of the defaults that no custom line of the section overrides. No line is
-- lost, and none is in two sections.
pub values-parse :
    (k text : Text)
    → let lines = split_byte 10 text in
      values k (add_defaults (parse text))
      ≡ of_section k (tagged [] lines)
        ++ of_section k (map default_text (left (tagged_values [] lines) get_default_config))
unfolding add_defaults parse values lookup
values-parse k text =
    let lines = split_byte 10 text in
    let start : Parsed = record { key = []; custom = []; defaults = get_default_config } in
    values-add_sections k (parse_lines lines start).defaults (parse_lines lines start).custom
    ∙ rw (values-parse_lines k lines start, defaults-parse_lines lines start) refl
