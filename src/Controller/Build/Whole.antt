-- ===== src/Controller/Build/Whole.antt =====
-- The loop of `BuildConfigFromMetadata` with the lookups of each rule, the sorted result, and
-- `GetLBConfigs`.
use load_balancer_controller.Base.{
  ℕ, zero, suc, Bool, true, false, not, ◌&&◌, ◌||◌, Option, some, none, List, [], ◌∷◌, ◌++◌, ◌≡◌,
  refl, if◌then◌else◌, is_empty, is_some, map,
}
use load_balancer_controller.Base.Text.{Text, codes, text_eq, equal_fold, ℤ, pos, int_lt}
use load_balancer_controller.Base.Dict.{Dict, lookup}
use load_balancer_controller.Base.Outcome.{Outcome, ok, err, ◌>>=◌}
use load_balancer_controller.Config
use load_balancer_controller.Config.{
  Endpoint, BackendService, FrontendService, Certificate, StickinessPolicy, LoadBalancerConfig,
}
use load_balancer_controller.Config.Order.{backend_less, frontend_less}
use load_balancer_controller.Metadata.{
  Metadata, Host, Service, Container, PortRule, LbConfig, LbStickinessPolicy, Failure,
  invalid_label, first,
}
use load_balancer_controller.Controller.Sorting.{sort}
use load_balancer_controller.Controller.Links.{get_service}
use load_balancer_controller.Controller.Endpoints.{
  Locality, is_active_service, get_container_endpoint, get_service_endpoints,
}
use load_balancer_controller.Controller.Rules.{collect_lb_metadata}
use load_balancer_controller.Controller.Build.{Tables, Frontend, add_rule, get_health_check}
pub mod Loop

-- `GetContainer`: the first container of the environment with the name. Where the code gives an
-- empty container, which is in no state, there is `none`.
unfoldable pub get_container : Metadata → Text → Text → Outcome Failure (Option Container)
unfolding first equal_fold
get_container md env_uuid name = md.containers >>= λ cs.
    ok (first (λ c. equal_fold c.environment_uuid env_uuid && equal_fold c.name name) cs)

-- What a rule brings: its endpoints and health check, or nothing (`continue`). The outer `none` is
-- an end of the fuel of `getServiceEndpoints`.
abbrev pub Target : Type 0
Target = Option (Outcome Failure (Option (List Endpoint × Config.HealthCheck)))

-- What the certificate fetcher and the provider do.
pub record Services : Type 0 where
  pub fetch_default : Outcome Failure (List (Option Certificate))
  pub fetch_certs : Outcome Failure (List Certificate)
  pub custom : LoadBalancerConfig → Text → Outcome Failure LoadBalancerConfig

with_check : Config.HealthCheck → Option (Outcome Failure (List Endpoint)) → Target
with_check hc none = none
with_check hc (some (err e)) = some (err e)
with_check hc (some (ok eps)) = some (ok (some (eps, hc)))

module _ (hash_ip : Text → Text) (fuel : ℕ) (md : Metadata) (l : Locality) where
  service_target : Outcome Failure Service → ℤ → Target
  unfolding with_check get_service_endpoints is_active_service get_health_check
  service_target (err e) port = some (err e)
  service_target (ok svc) port =
      if not (is_active_service svc)
      then some (ok none)
      else with_check (get_health_check svc.health_check)
          (get_service_endpoints hash_ip fuel md svc port l)

  endpoint_target : Container → Option (Endpoint × Bool) → Target
  unfolding get_health_check
  endpoint_target c none = some (ok none)
  endpoint_target c (some (ep, contingency)) =
      some (ok (some (ep ∷ [], get_health_check c.health_check)))

  container_target : Outcome Failure (Option Container) → ℤ → Target
  unfolding endpoint_target get_container_endpoint
  container_target (err e) port = some (err e)
  container_target (ok none) port = some (ok none)
  container_target (ok (some c)) port = endpoint_target c (get_container_endpoint hash_ip c port l)

  unfoldable pub rule_target : Text → PortRule → Target
  unfolding service_target container_target get_service get_container
  rule_target env_uuid rule =
      if not (is_empty rule.service)
      then service_target (get_service md rule.service) rule.target_port
      else container_target (get_container md env_uuid rule.container) rule.target_port

  -- A failure ends the loop; a rule without a target leaves the tables alone.
  after_target : PortRule → Target → Tables → Option (Outcome Failure Tables)
  unfolding add_rule
  after_target rule none t = none
  after_target rule (some (err e)) t = some (err e)
  after_target rule (some (ok none)) t = some (ok t)
  after_target rule (some (ok (some (eps, hc)))) t = some (ok (add_rule rule eps (some hc) t))

  -- One round of the loop.
  unfoldable pub build_rule : Text → PortRule → Tables → Option (Outcome Failure Tables)
  unfolding after_target rule_target int_lt
  build_rule env_uuid rule t =
      if int_lt rule.source_port (pos 1)
      then some (ok t)
      else after_target rule (rule_target env_uuid rule) t

  then_rules :
      (Tables → Option (Outcome Failure Tables))
      → Option (Outcome Failure Tables)
      → Option (Outcome Failure Tables)
  then_rules go none = none
  then_rules go (some (err e)) = some (err e)
  then_rules go (some (ok t)) = go t

  unfoldable pub build_rules : Text → List PortRule → Tables → Option (Outcome Failure Tables)
  unfolding then_rules build_rule
  build_rules env_uuid [] t = some (ok t)
  build_rules env_uuid (rule ∷ rules) t =
      then_rules (λ t'. build_rules env_uuid rules t') (build_rule env_uuid rule t)

  backends_of : Dict BackendService → List Text → List BackendService
  unfolding lookup
  backends_of m [] = []
  backends_of m (k ∷ ks) =
      let rest = backends_of m ks in elim (lookup k m) [ none ↦ rest | some be ↦ be ∷ rest ]

  frontend_service : Dict BackendService → Frontend → FrontendService
  unfolding sort backends_of backend_less
  frontend_service m f = record {
    name = f.name;
    port = f.port;
    backend_services = sort backend_less (backends_of m f.backends);
    protocol = f.protocol;
    config = [];
    accept_proxy = false;
  }

  unfoldable pub frontends_of : Tables → List FrontendService
  unfolding frontend_service sort frontend_less
  frontends_of t =
      sort frontend_less (map (λ (e : Text × Frontend). frontend_service t.all_be e.1) t.frontends)

  default_of : List (Option Certificate) → Option Certificate
  default_of [] = none
  default_of (c ∷ cs) = c

  default_list : Option Certificate → List Certificate
  default_list none = []
  default_list (some c) = c ∷ []

  unfoldable pub policy_of : LbStickinessPolicy → StickinessPolicy
  policy_of p = record {
    name = p.name;
    cookie = p.cookie;
    domain = p.domain;
    indirect = p.indirect;
    nocache = p.nocache;
    postonly = p.postonly;
    mode = p.mode;
  }

  -- The configuration before the custom text.
  unfoldable pub plain_config :
      Text → LbConfig → Option Certificate → List Certificate → Tables → LoadBalancerConfig
  unfolding frontends_of default_list policy_of
  plain_config name meta def certs t = record {
    default_cert = def;
    certs = default_list def ++ certs;
    name = name;
    frontend_services = frontends_of t;
    config = [];
    stickiness_policy = some (policy_of meta.stickiness_policy);
  }

  unfoldable pub assemble :
      Services
      → Text
      → LbConfig
      → Option Certificate
      → List Certificate
      → Option (Outcome Failure Tables)
      → Option (Outcome Failure LoadBalancerConfig)
  unfolding plain_config
  assemble s name meta def certs none = none
  assemble s name meta def certs (some (err e)) = some (err e)
  assemble s name meta def certs (some (ok t)) =
      some (s.custom (plain_config name meta def certs t) meta.config)

  unfoldable pub with_certs :
      Services
      → Text
      → Text
      → LbConfig
      → Outcome Failure (List (Option Certificate))
      → Outcome Failure (List Certificate)
      → Option (Outcome Failure LoadBalancerConfig)
  unfolding assemble default_of build_rules
  with_certs s name env_uuid meta (err e) certs = some (err e)
  with_certs s name env_uuid meta (ok defs) (err e) = some (err e)
  with_certs s name env_uuid meta (ok defs) (ok certs) =
      assemble s name meta (default_of defs) certs (
        build_rules env_uuid meta.port_rules (record { frontends = []; all_be = []; all_eps = [] }))

  -- `BuildConfigFromMetadata`, for metadata that is not nil.
  unfoldable pub build_config :
      Services → Text → Text → LbConfig → Option (Outcome Failure LoadBalancerConfig)
  unfolding with_certs
  build_config s name env_uuid meta = with_certs s name env_uuid meta s.fetch_default s.fetch_certs

-- The label `io.rancher.lb_service.target`.
locality : Metadata → Option Text → Outcome Failure Locality
unfolding text_eq
locality md none = ok (record { preference = codes "any"; self_host = [] })
locality md (some val) = md.self_host >>= λ h.
    if not (text_eq val (codes "any"))
      && not (text_eq val (codes "only-local"))
      && not (text_eq val (codes "prefer-local"))
    then err (invalid_label val)
    else ok (record { preference = val; self_host = h.uuid })

unfoldable pub build_for :
    (Text → Text)
    → ℕ
    → Metadata
    → Services
    → Service
    → LbConfig
    → Outcome Failure Locality
    → Option (Outcome Failure LoadBalancerConfig)
unfolding build_config
build_for hash_ip fuel md s svc meta (err e) = some (err e)
build_for hash_ip fuel md s svc meta (ok l) =
    build_config hash_ip fuel md l s svc.name svc.environment_uuid meta

unfoldable pub configs_for :
    (Text → Text)
    → ℕ
    → Metadata
    → Services
    → Service
    → Outcome Failure LbConfig
    → Option (Outcome Failure LoadBalancerConfig)
unfolding build_for locality lookup
configs_for hash_ip fuel md s svc (err e) = some (err e)
configs_for hash_ip fuel md s svc (ok meta) =
    build_for hash_ip fuel md s svc meta
      (locality md (lookup (codes "io.rancher.lb_service.target") svc.labels))

-- `GetLBConfigs`; the list that it returns has one configuration.
unfoldable pub get_lb_configs :
    (Text → Text) → ℕ → Metadata → Services → Option (Outcome Failure LoadBalancerConfig)
unfolding configs_for collect_lb_metadata
get_lb_configs hash_ip fuel md s = elim md.self_service [
  | err e ↦ some (err e)
  | ok svc ↦ configs_for hash_ip fuel md s svc (collect_lb_metadata md svc)
]
