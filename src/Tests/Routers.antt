-- ===== src/Tests/Routers.antt =====
-- An event router: its subscription, its messages, and the handlers of its earlier names, against a
-- control plane that counts the names that it is asked for.
use load_balancer_controller.Base.{
  ℕ, suc, true, false, not, ◌&&◌, ◌||◌, some, none, List, [], ◌∷◌, ◌≡◌, refl, is_empty, any,
}
use load_balancer_controller.Base.Text.{Text, codes, text_eq}
use load_balancer_controller.Base.Dict.{Dict, lookup}
use load_balancer_controller.Base.Outcome.{ok}
use load_balancer_controller.Events.Listener.{
  Address, subscription, make_handlers, wait_for_transition, reached, closings, pong, tick,
}
use load_balancer_controller.Events.Registration.{Api, remove_external_handlers}
use load_balancer_controller.Events.Registration.Names.{
  targets, is_distinct, remove_all, remove_external_handlers-targets,
}

abbrev counting : Api ℕ ℕ
counting = record {
  active = λ name s. (ok [], suc s);
  by_id = λ id s. (ok none, s);
  deactivate = λ h s. (ok h, s);
  remove = λ h s. (ok h, s);
  create = λ h s. (ok (record { id = codes "1"; actions = []; transitioning = [] }), s);
  wait = λ id s. (ok true, s);
}

abbrev names : List Text
names = codes "old" ∷ codes "" ∷ codes "me" ∷ codes "older" ∷ codes "old" ∷ []

two_names : remove_external_handlers ℕ ℕ counting (codes "me") names 0 ≡ (ok true, 2)
unfolding remove_external_handlers
two_names = refl

remove_external_handlers-targets_example :
    (remove_external_handlers ℕ ℕ counting (codes "me") names 0
      ≡ remove_all ℕ ℕ counting (targets (codes "me") [] names) 0)
    × (is_distinct (targets (codes "me") [] names) ≡ true)
    × (any (text_eq (codes "old")) (targets (codes "me") [] names)
        ≡ any (text_eq (codes "old")) names
          && not (is_empty (codes "old") || text_eq (codes "old") (codes "me")))
remove_external_handlers-targets_example =
    remove_external_handlers-targets ℕ ℕ counting (codes "me") names 0 (codes "old")

abbrev api_address : Address
api_address = record {
  scheme = codes "https";
  host = codes "lb";
  path = codes "/v2-beta/";
  raw_query = codes "a=b";
  fragment = [];
}

subscribed :
    subscription api_address
    ≡ some (record {
      scheme = codes "wss";
      host = codes "lb";
      path = codes "/v2-beta/subscribe";
      raw_query = [];
      fragment = [];
    })
unfolding subscription
subscribed = refl

abbrev handlers : Dict ℕ
handlers = (codes "ping", 7) ∷ []

ping_kept : lookup (codes "ping") (make_handlers (codes ";handler=x") handlers) ≡ some 7
unfolding make_handlers lookup
ping_kept = refl

waited : wait_for_transition {E = ℕ} ((250, ok false) ∷ (500, ok true) ∷ []) ≡ some reached
unfolding wait_for_transition
waited = refl

closed_once : closings 10000 0 (pong 4000 ∷ tick 9000 ∷ tick 15000 ∷ []) ≡ 15000 ∷ []
unfolding closings
closed_once = refl
