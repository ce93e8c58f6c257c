-- ===== src/Controller/Rules/Derived.antt =====
-- Where the rules come from that `processSelector` leaves.
use load_balancer_controller.Base.{
  Bool, true, false, ◌∙◌, List, [], ◌∷◌, ◌≡◌, refl, is_empty, map, inl, inr, arith, All, All-append,
  Bool-cases,
}
use load_balancer_controller.Base.Text.{Text, to_lower, pos, int_eq}
use load_balancer_controller.Base.Outcome.{Outcome, ok, err, bind-eq-ok}
use load_balancer_controller.Metadata.{
  Metadata, Service, PortRule, Failure, get_services_from_region_environment,
  get_services_in_local_region,
}
use load_balancer_controller.Selector.{is_selector_match}
use load_balancer_controller.Controller.Links.{get_service_name}
use load_balancer_controller.Controller.Rules.{
  rule_of_target, rules_of_service, rules_of_services, selected_or_none, expand_rule, expand_rules,
  process_selector, get_region_services,
}
use mathlib.Core.List.{Memᴰ}

-- The services that a selecting rule looks at, as the metadata lists them: those of its environment
-- in its region, those of its environment in the local region, or the local ones.
pub data Listed (md : Metadata) (region env : Text) (svc : Service) : Type 0 where
  in_region :
      (svcs : List Service)
      → is_empty region ≡ false
      → is_empty env ≡ false
      → get_services_from_region_environment md region env ≡ ok svcs
      → Memᴰ svc svcs
      → Listed md region env svc
  in_environment :
      (svcs : List Service)
      → is_empty region ≡ true
      → is_empty env ≡ false
      → get_services_in_local_region md env ≡ ok svcs
      → Memᴰ svc svcs
      → Listed md region env svc
  in_stack :
      (svcs : List Service)
      → is_empty env ≡ true
      → md.services ≡ ok svcs
      → Memᴰ svc svcs
      → Listed md region env svc

-- A rule that was given, without a selector, or one that a given rule made for a listed service
-- that its selector matches: with the source port, the protocol and the weight of the given rule.
pub data Derived (md : Metadata) (rules : List PortRule) (r : PortRule) : Type 0 where
  given : Memᴰ r rules → r.selector ≡ [] → Derived md rules r
  selected :
      (lb : PortRule) (svc : Service)
      → Memᴰ lb rules
      → Listed md (to_lower lb.region) (to_lower lb.environment) svc
      → is_selector_match lb.selector svc.labels ≡ true
      → r.service
        ≡ get_service_name svc.name svc.stack_name (to_lower lb.region) (to_lower lb.environment)
      → r.source_port ≡ lb.source_port
      → r.protocol ≡ lb.protocol
      → r.weight ≡ lb.weight
      → r.selector ≡ []
      → Derived md rules r

Derived-tail :
    {md : Metadata} {rules : List PortRule} (x : PortRule) {r : PortRule}
    → Derived md rules r
    → Derived md (x ∷ rules) r
Derived-tail x (given m e) = given (Memᴰ.tail m) e
Derived-tail x (selected lb svc m l a b c d e f) = selected lb svc (Memᴰ.tail m) l a b c d e f

All-tail :
    (md : Metadata) (rules : List PortRule) (x : PortRule) (rs : List PortRule)
    → All (Derived md rules) rs
    → All (Derived md (x ∷ rules)) rs
All-tail md rules x [] a = tt
All-tail md rules x (r ∷ rs) a = (Derived-tail x a.0, All-tail md rules x rs a.1)

module _ (md : Metadata) (skip : Bool) (lb : PortRule) (rules : List PortRule) where
  abbrev region : Text
  region = to_lower lb.region

  abbrev env : Text
  env = to_lower lb.environment

  targets-Derived :
      (svc : Service) (rs : List PortRule)
      → Listed md region env svc
      → is_selector_match lb.selector svc.labels ≡ true
      → All (Derived md (lb ∷ rules)) (
          map (rule_of_target skip lb (get_service_name svc.name svc.stack_name region env) svc) rs)
  unfolding rule_of_target
  targets-Derived svc [] l h = tt
  targets-Derived svc (r ∷ rs) l h =
      (selected lb svc (Memᴰ.head refl) l h refl refl refl refl refl, targets-Derived svc rs l h)

  rules_of_service-Derived :
      (svc : Service)
      → Listed md region env svc
      → is_selector_match lb.selector svc.labels ≡ true
      → All (Derived md (lb ∷ rules)) (rules_of_service skip lb region env svc)
  unfolding rules_of_service
  rules_of_service-Derived svc l h = elim (Bool-cases (is_empty svc.lb_config.port_rules)) [
    | inl e ↦ rw e (elim (Bool-cases (int_eq lb.target_port (pos 0))) [
      | inl f ↦ rw f tt
      | inr f ↦ rw f (selected lb svc (Memᴰ.head refl) l h refl refl refl refl refl, tt)
    ])
    | inr e ↦ rw e (targets-Derived svc svc.lb_config.port_rules l h)
  ]

  rules_of_services-Derived :
      (svcs : List Service)
      → ((svc : Service) → Memᴰ svc svcs → Listed md region env svc)
      → All (Derived md (lb ∷ rules)) (rules_of_services skip lb region env svcs)
  unfolding rules_of_services
  rules_of_services-Derived [] l = tt
  rules_of_services-Derived (svc ∷ svcs) l =
      let rest = rules_of_services-Derived svcs (λ s m. l s (Memᴰ.tail m)) in
      elim (Bool-cases (is_selector_match lb.selector svc.labels)) [
        | inl e ↦ rw e (
            All-append (Derived md (lb ∷ rules)) _ _
              (rules_of_service-Derived svc (l svc (Memᴰ.head refl)) e) rest)
        | inr e ↦ rw e rest
      ]

  selected_or_none-Derived :
      (r : Outcome Failure (List Service))
      → ((svcs : List Service) (svc : Service)
          → r ≡ ok svcs
          → Memᴰ svc svcs
          → Listed md region env svc)
      → All (Derived md (lb ∷ rules)) (selected_or_none skip lb region env r)
  unfolding selected_or_none
  selected_or_none-Derived (err e) l = tt
  selected_or_none-Derived (ok svcs) l = rules_of_services-Derived svcs (λ s m. l svcs s refl m)

-- The services that a rule is given are listed.
get_region_services-Listed :
    (md : Metadata) (local : List Service) (place area : Text)
    → md.services ≡ ok local
    → (svcs : List Service) (svc : Service) → get_region_services md local place area ≡ ok svcs
    → Memᴰ svc svcs
    → Listed md place area svc
unfolding get_region_services
get_region_services-Listed md local place area here svcs svc h m =
    elim (Bool-cases (is_empty area)) [
      | inl e ↦ elim (Bool-cases (is_empty place)) [
        | inl f ↦ in_stack svcs e (here ∙ (rw (f, e) at h)) m
        | inr f ↦ in_stack svcs e (here ∙ (rw (f, e) at h)) m
      ]
      | inr e ↦ elim (Bool-cases (is_empty place)) [
        | inl f ↦ in_environment svcs f e (rw (f, e) at h) m
        | inr f ↦ in_region svcs f e (rw (f, e) at h) m
      ]
    ]

expand_rules-Derived :
    (md : Metadata) (skip : Bool) (local : List Service) (rules : List PortRule)
    → md.services ≡ ok local
    → All (Derived md rules) (expand_rules md skip local rules)
unfolding expand_rules expand_rule
expand_rules-Derived md skip local [] here = tt
expand_rules-Derived md skip local (lb ∷ lbs) here =
    let rest = All-tail md lbs lb _ (expand_rules-Derived md skip local lbs here) in
    elim (Bool-cases (is_empty lb.selector)) [
      | inl e ↦ rw e (given (Memᴰ.head refl) (ground arith), rest)
      | inr e ↦ rw e (
          All-append (Derived md (lb ∷ lbs)) _ _
            (selected_or_none-Derived md skip lb lbs _
              (get_region_services-Listed md local _ _ here))
            rest)
    ]

-- After `processSelector` no rule has a selector: each was given without one, or was made by a
-- given rule for a service that the metadata lists for the rule's region and environment, and whose
-- labels the rule's selector matches, with the source port, the protocol and the weight of that
-- rule.
pub process_selector-Derived :
    (md : Metadata) (skip : Bool) (rules : List PortRule) {out : List PortRule}
    → process_selector md skip rules ≡ ok out
    → All (Derived md rules) out
unfolding process_selector
process_selector-Derived md skip rules {out} h =
    let (local, here, e) =
      bind-eq-ok md.services (λ local. ok (expand_rules md skip local rules)) h in
    let same : expand_rules md skip local rules ≡ out = cc e in
    rw (← same) (expand_rules-Derived md skip local rules here)
