-- ===== src/Config/Order.antt =====
-- The `Less` methods of config/config.go.
use load_balancer_controller.Base.{
  ◌≡◌, arith, Bool, true, false, not, ◌&&◌, ◌||◌, if◌then◌else◌, is_empty,
}
use load_balancer_controller.Base.Text.{equal_fold, text_gt, pos, int_lt, int_eq}
use load_balancer_controller.Config.{BackendService, Endpoint, FrontendService, eq_rule_comparator}

-- `FrontendServices.Less`
unfoldable pub frontend_less : FrontendService → FrontendService → Bool
frontend_less a b = text_gt a.name b.name

-- `Endpoints.Less`
unfoldable pub endpoint_less : Endpoint → Endpoint → Bool
endpoint_less a b = text_gt a.ip b.ip

-- The part of `BackendServices.Less` below the priorities.
unfoldable pub host_path_less : BackendService → BackendService → Bool
unfolding equal_fold
host_path_less a b =
    let eq1 = equal_fold a.rule_comparator eq_rule_comparator in
    let eq2 = equal_fold b.rule_comparator eq_rule_comparator in
    if not (is_empty a.host)
    then (if eq1
        then (if not (is_empty a.path) then true else is_empty b.host || not eq2)
        else is_empty b.host || not eq2 && not (is_empty a.path) && is_empty b.path)
    else if not (is_empty a.path)
    then is_empty b.host
    else false

-- `BackendServices.Less`
unfoldable pub backend_less : BackendService → BackendService → Bool
unfolding host_path_less int_lt int_eq
backend_less a b =
    if int_lt (pos 0) a.priority
    then (if int_eq b.priority (pos 0) then true else int_lt a.priority b.priority)
    else if int_lt (pos 0) b.priority
    then false
    else host_path_less a b

-- Of two rules without a negative priority, one at least with a positive one, each is never before
-- the other at the same time.
pub backend_less-asym :
    (a b : BackendService)
    → int_lt a.priority (pos 0) ≡ false
    → int_lt b.priority (pos 0) ≡ false
    → int_eq a.priority (pos 0) && int_eq b.priority (pos 0) ≡ false
    → backend_less a b ≡ true
    → backend_less b a ≡ false
unfolding backend_less int_lt int_eq
backend_less-asym a b p q r h = ground arith

-- A rule without a negative priority is before itself exactly if it has the priority zero and a
-- path, and no host or one that is compared for equality: for such rules the order is not strict.
pub backend_less-same :
    (a : BackendService)
    → int_lt a.priority (pos 0) ≡ false
    → backend_less a a ≡ (
        int_eq a.priority (pos 0)
        && not (is_empty a.path)
        && (is_empty a.host || equal_fold a.rule_comparator eq_rule_comparator))
unfolding backend_less host_path_less int_lt int_eq
backend_less-same a h = ground arith
