-- ===== src/Provider/Custom/Parse.antt =====
-- The loop of `BuildCustomConfig` over the lines of the custom text, and the defaults that it adds.
use load_balancer_controller.Base.{
  ℕ, Bool, true, false, not, ◌||◌, ◌==◌, Option, some, none, List, [], ◌∷◌, ◌++◌, if◌then◌else◌,
  is_empty, map, keep, any,
}
use load_balancer_controller.Base.Text.{
  Text, codes, text_eq, equal_fold, has_prefix, trim_space, split_byte,
}
use load_balancer_controller.Base.Dict.{Dict, lookup, insert}
use load_balancer_controller.Provider.Custom.Defaults.{conf_to_string, get_default_config}

abbrev pub blank : ℕ
blank = 32

abbrev server_prefix : Text
server_prefix = codes "server $IP"

keywords : List Text
keywords =
    codes "backend"
    ∷ codes "frontend"
    ∷ codes "global"
    ∷ codes "defaults"
    ∷ codes "listen"
    ∷ codes "userlist"
    ∷ codes "peers"
    ∷ codes "mailers"
    ∷ []

unfoldable pub is_directive : Text → Bool
unfolding any equal_fold keywords
is_directive directive = any (equal_fold directive) keywords

abbrev or_nil {ℓ} : {A : Type ℓ} → Option (List A) → List A
or_nil none = []
or_nil (some xs) = xs

-- `m[k]` and `m[k] = append(m[k], v)` of a map of lists.
module _ {ℓ} {A : Type ℓ} where
  unfoldable pub values : Text → Dict (List A) → List A
  unfolding lookup
  values k m = or_nil (lookup k m)

  unfoldable pub append : Text → A → Dict (List A) → Dict (List A)
  unfolding insert values
  append k v m = insert k (values k m ++ (v ∷ [])) m

cons_first : ℕ → Text × Option Text → Text × Option Text
cons_first c (a, rest) = (c ∷ a, rest)

-- `strings.SplitN(s, " ", 2)`: the text up to the first blank, and the text behind it.
unfoldable pub cut : Text → Text × Option Text
unfolding cons_first
cut [] = ([], none)
cut (c ∷ s) = let rest = cut s in if c == blank then ([], some s) else cons_first c rest

after : Text → Text → Text
after [] s = s
after (c ∷ p) [] = []
after (c ∷ p) (d ∷ s) = after p s

pub record Parsed : Type 0 where
  pub key : Text
  pub custom : Dict (List Text)
  pub defaults : Dict (Dict Text)

key_of : Text × Option Text → Text
unfolding trim_space
key_of (prefix, none) = prefix
key_of (prefix, some rest) = trim_space (trim_space prefix ++ (blank ∷ trim_space rest))

-- The default with the name `k` of the section `key` gives way to the line.
unfoldable pub overrides : Text → Text → Text → Bool
unfolding equal_fold has_prefix
overrides key line k = equal_fold line key || has_prefix line (k ++ (blank ∷ []))

unfoldable pub drop_overridden : Text → Text → Dict (Dict Text) → Dict (Dict Text)
unfolding text_eq keep overrides
drop_overridden key line [] = []
drop_overridden key line ((k, m) ∷ rest) =
    (k, if text_eq k key then keep (λ (e : Text × Text). not (overrides key line e.0)) m else m)
    ∷ drop_overridden key line rest

-- What a line is: nothing, the head of a section, a server template, or a value of the section.
pub data Line : Type 0 where
  skip : Line
  head : Text → Line
  server : Text → Line
  value : Text → Line

-- A line that begins with the server prefix has it at its first occurrence.
unfoldable pub classify : Text → Line
unfolding trim_space cut is_directive has_prefix key_of after
classify conf =
    let line = trim_space conf in
    let prefix = (cut line).0 in
    if is_empty (trim_space prefix)
    then skip
    else if has_prefix line server_prefix
    then server (after server_prefix line)
    else if is_directive prefix
    then head (key_of (cut line))
    else value conf

unfoldable pub server_key : Text → Text
server_key key = key ++ codes "_$IP"

unfoldable pub take_line : Line → Parsed → Parsed
unfolding append drop_overridden trim_space server_key
take_line skip p = p
take_line (head key) p = record p { key = key }
take_line (server text) p = record p { custom = append (server_key p.key) text p.custom }
take_line (value conf) p = record p {
  custom = append p.key conf p.custom;
  defaults = drop_overridden p.key (trim_space conf) p.defaults;
}

unfoldable pub parse_lines : List Text → Parsed → Parsed
unfolding take_line classify
parse_lines [] p = p
parse_lines (conf ∷ rest) p = parse_lines rest (take_line (classify conf) p)

unfoldable pub parse : Text → Parsed
unfolding parse_lines split_byte get_default_config
parse text =
    parse_lines (split_byte 10 text)
      (record { key = []; custom = []; defaults = get_default_config })

unfoldable pub default_line : Text × Text → Text
unfolding trim_space
default_line (k, v) = trim_space (trim_space k ++ (blank ∷ trim_space v))

-- The defaults of a section that are left become one more value of it, sorted.
unfoldable pub add_sections : Dict (Dict Text) → Dict (List Text) → Dict (List Text)
unfolding append default_line conf_to_string
add_sections [] custom = custom
add_sections ((k, m) ∷ rest) custom =
    add_sections rest (append k (conf_to_string (map default_line m) true false) custom)

unfoldable pub add_defaults : Parsed → Dict (List Text)
unfolding add_sections
add_defaults p = add_sections p.defaults p.custom
