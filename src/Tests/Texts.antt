-- ===== src/Tests/Texts.antt =====
-- Selectors and log texts.
use load_balancer_controller.Base.{true, false, not, ◌&&◌, [], ◌∷◌, ◌≡◌, refl, all, is_empty}
use load_balancer_controller.Base.Text.{Text, codes}
use load_balancer_controller.Base.Dict.{Dict}
use load_balancer_controller.Selector.{equals, matches, get_selector_constraints, is_selector_match}
use load_balancer_controller.Selector.Verdicts.{is_selector_match-all}
use load_balancer_controller.Selector.Pieces.{pieces, constraint_of, is_selector_match-pieces}
use load_balancer_controller.LogSafety.{sanitize_log_text}

abbrev labels : Dict Text
labels = (codes "app", codes "web") ∷ []

selectors :
    (is_selector_match (codes "app = WEB") labels ≡ true)
    × (is_selector_match (codes "app = db") labels ≡ false)
    × (is_selector_match (codes "app in (web,db)") labels ≡ false)
unfolding is_selector_match
selectors = (refl, refl, refl)

is_selector_match-all_example :
    let cs = get_selector_constraints (codes "app=web") in
    is_selector_match (codes "app=web") labels
    ≡ (not (is_empty (codes "app=web")) && not (is_empty cs) && all (λ c. matches c labels) cs)
is_selector_match-all_example = is_selector_match-all (codes "app=web") labels

is_selector_match-pieces_example : is_selector_match (codes "app = web,app=WEB,") labels ≡ (
    not (is_empty (pieces (codes "app = web,app=WEB,")))
    && all (λ p. matches (constraint_of p) labels) (pieces (codes "app = web,app=WEB,")))
is_selector_match-pieces_example =
    is_selector_match-pieces (codes "app = web,app=WEB,") labels (unfold all in refl)

two_pieces :
    (pieces (codes "app = web,app=WEB,") ≡ codes "app = web" ∷ codes "app=WEB" ∷ [])
    × (is_selector_match (codes "app = web,app=WEB,") labels ≡ true)
unfolding pieces is_selector_match
two_pieces = (refl, refl)

sanitized : sanitize_log_text (codes "a\nb") ≡ codes "a\\nb"
unfolding sanitize_log_text
sanitized = refl

-- A selector that ends in a rune of two bytes never finishes its last constraint; a byte that is no
-- rune at its end does.
rune_at_end :
    (get_selector_constraints (0x61 ∷ 0x3d ∷ 0xc3 ∷ 0xa9 ∷ []) ≡ [])
    × (get_selector_constraints (0x61 ∷ 0x3d ∷ 0xe9 ∷ [])
        ≡ equals (codes "a") (0xef ∷ 0xbf ∷ 0xbd ∷ []) ∷ [])
unfolding get_selector_constraints
rune_at_end = (refl, refl)

-- In the middle it is kept whole.
rune_inside :
    get_selector_constraints (0xc3 ∷ 0xa9 ∷ 0x3d ∷ 0x62 ∷ [])
    ≡ equals (0xc3 ∷ 0xa9 ∷ []) (codes "b") ∷ []
unfolding get_selector_constraints
rune_inside = refl
