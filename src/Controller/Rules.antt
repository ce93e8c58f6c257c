-- ===== src/Controller/Rules.antt =====
-- `processSelector`: the rules of the load balancer, with each rule that has a selector replaced by
-- rules for the services that it selects.
use load_balancer_controller.Base.{
  ℕ, Bool, true, false, not, ◌&&◌, ◌||◌, Option, some, none, List, [], ◌∷◌, ◌++◌, ◌≡◌, refl,
  if◌then◌else◌, is_empty, map,
}
use load_balancer_controller.Base.Text.{Text, codes, to_lower, equal_fold, ℤ, pos, int_eq}
use load_balancer_controller.Base.Dict.{Dict, lookup}
use load_balancer_controller.Base.Outcome.{Outcome, ok, err, ◌>>=◌}
use load_balancer_controller.Metadata.{
  Metadata, Service, PortRule, LbConfig, Failure, get_services_from_region_environment,
  get_services_in_local_region,
}
use load_balancer_controller.Selector.{is_selector_match}
use load_balancer_controller.Controller.Links.{get_service_name}
pub mod Derived

-- `GetRegionServices`: a region without an environment gives the local services.
unfoldable pub get_region_services :
    Metadata → List Service → Text → Text → Outcome Failure (List Service)
unfolding get_services_from_region_environment get_services_in_local_region
get_region_services md local region env =
    if not (is_empty region) && not (is_empty env)
    then get_services_from_region_environment md region env
    else if not (is_empty env)
    then get_services_in_local_region md env
    else ok local

-- What the rules of one selecting rule share; the fields that the literals leave out are zero.
abbrev pub selected_rule : PortRule → Text → PortRule
selected_rule lb name = record {
  backend_name = [];
  hostname = [];
  path = [];
  priority = pos 0;
  protocol = lb.protocol;
  selector = [];
  service = name;
  source_port = lb.source_port;
  target_port = pos 0;
  container = [];
  region = [];
  environment = [];
  weight = lb.weight;
}

-- A rule for a rule of the selected service; a load balancer's host and path may be skipped.
unfoldable pub rule_of_target : Bool → PortRule → Text → Service → PortRule → PortRule
unfolding equal_fold
rule_of_target skip lb name svc rule =
    let skipped = skip && equal_fold svc.kind (codes "loadBalancerService") in
    record (selected_rule lb name) {
      target_port = rule.target_port;
      backend_name = rule.backend_name;
      hostname = if skipped then [] else rule.hostname;
      path = if skipped then [] else rule.path;
    }

-- The rule for a selected service without rules.
abbrev pub rule_of_port : PortRule → Text → PortRule
rule_of_port lb name = record (selected_rule lb name) {
  path = lb.path;
  hostname = lb.hostname;
  target_port = lb.target_port;
  backend_name = lb.backend_name;
}

-- The part of the inner loop for a service that matches.
unfoldable pub rules_of_service : Bool → PortRule → Text → Text → Service → List PortRule
unfolding rule_of_target get_service_name int_eq
rules_of_service skip lb region env svc =
    let name = get_service_name svc.name svc.stack_name region env in
    if is_empty svc.lb_config.port_rules
    then (if int_eq lb.target_port (pos 0) then [] else rule_of_port lb name ∷ [])
    else map (rule_of_target skip lb name svc) svc.lb_config.port_rules

unfoldable pub rules_of_services : Bool → PortRule → Text → Text → List Service → List PortRule
unfolding rules_of_service is_selector_match
rules_of_services skip lb region env [] = []
rules_of_services skip lb region env (svc ∷ svcs) =
    let rest = rules_of_services skip lb region env svcs in
    if not (is_selector_match lb.selector svc.labels)
    then rest
    else rules_of_service skip lb region env svc ++ rest

-- Services that cannot be read leave the rule without effect.
selected_or_none : Bool → PortRule → Text → Text → Outcome Failure (List Service) → List PortRule
unfolding rules_of_services
selected_or_none skip lb region env (err e) = []
selected_or_none skip lb region env (ok svcs) = rules_of_services skip lb region env svcs

-- One round of the outer loop.
unfoldable pub expand_rule : Metadata → Bool → List Service → PortRule → List PortRule
unfolding selected_or_none get_region_services to_lower
expand_rule md skip local lb =
    let region = to_lower lb.region in
    let env = to_lower lb.environment in
    if is_empty lb.selector
    then lb ∷ []
    else selected_or_none skip lb region env (get_region_services md local region env)

unfoldable pub expand_rules : Metadata → Bool → List Service → List PortRule → List PortRule
unfolding expand_rule
expand_rules md skip local [] = []
expand_rules md skip local (lb ∷ lbs) =
    expand_rule md skip local lb ++ expand_rules md skip local lbs

unfoldable pub process_selector : Metadata → Bool → List PortRule → Outcome Failure (List PortRule)
unfolding expand_rules
process_selector md skip rules = md.services >>= λ local. ok (expand_rules md skip local rules)

-- `CollectLBMetadata`: the label decides whether the routing of selected load balancers is skipped.
label_or_empty : Option Text → Text
label_or_empty none = []
label_or_empty (some v) = v

unfoldable pub collect_lb_metadata : Metadata → Service → Outcome Failure LbConfig
unfolding process_selector label_or_empty lookup equal_fold
collect_lb_metadata md svc =
    let label =
      label_or_empty (lookup (codes "io.rancher.lb_service.skip_target_lb_rules") svc.labels) in
    process_selector md (equal_fold label (codes "true")) svc.lb_config.port_rules >>= λ rules.
    ok (record (svc.lb_config) { port_rules = rules })
