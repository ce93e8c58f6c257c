-- ===== src/Controller/Build.antt =====
-- `BuildConfigFromMetadata`: the loop over the rules that fills the maps of frontends and backends,
-- and the configuration that it ends in. The provider's `ProcessCustomConfig` and the certificate
-- fetcher are parameters, and so is the hash of an address.
use load_balancer_controller.Base.{
  ℕ, zero, suc, ltb, leb, Bool, true, false, not, ◌&&◌, ◌||◌, ◌==◌, Option, some, none, List, [],
  ◌∷◌, ◌++◌, ◌≡◌, refl, if◌then◌else◌, is_empty, is_some, map, length,
}
use load_balancer_controller.Base.Text.{
  Text, codes, to_lower, equal_fold, has_prefix, has_suffix, ℤ, pos, int_eq, int_lt, itoa_int,
}
use load_balancer_controller.Base.Dict.{Dict, lookup, insert}
use load_balancer_controller.Base.Outcome.{Outcome, ok, err, ◌>>=◌}
use load_balancer_controller.Config
use load_balancer_controller.Config.{
  Endpoint, BackendService, FrontendService, Certificate, StickinessPolicy, LoadBalancerConfig,
  http_proto, https_proto, sni_proto, eq_rule_comparator, beg_rule_comparator, end_rule_comparator,
}
use load_balancer_controller.Config.Order.{backend_less, frontend_less}
use load_balancer_controller.Metadata
use load_balancer_controller.Metadata.{
  Metadata, Service, Container, PortRule, LbConfig, LbStickinessPolicy, Failure,
}
use load_balancer_controller.Controller.Sorting.{sort}
use load_balancer_controller.Controller.Links.{get_service}
use load_balancer_controller.Controller.Endpoints.{
  Locality, is_active_service, get_container_endpoint, get_service_endpoints,
}
use mathlib.Core.List.{reverse}
pub mod Whole
pub mod Merged

-- `FormulateBackendName`: each run of bytes that are not alphanumeric becomes one "_".
abbrev is_alnum : ℕ → Bool
is_alnum c = leb 48 c && leb c 57 || leb 65 c && leb c 90 || leb 97 c && leb c 122

squeeze : Bool → Text → Text
squeeze in_run [] = []
squeeze in_run (c ∷ s) =
    let rest = squeeze (not (is_alnum c)) s in
    if is_alnum c then c ∷ rest else if in_run then rest else b'_' ∷ rest

-- The key of a backend, `fmt.Sprintf("%v_%s_%s", …)`.
unfoldable pub path_uuid : ℤ → Text → Text → Text
unfolding itoa_int
path_uuid port hostname path = itoa_int port ++ (b'_' ∷ (hostname ++ (b'_' ∷ path)))

unfoldable pub formulate_backend_name : ℤ → Text → Text → Text
unfolding squeeze path_uuid
formulate_backend_name port hostname path = squeeze false (path_uuid port hostname path)

-- The host, the comparator and the path that a rule stands for.
pub record Match : Type 0 where
  pub hostname : Text
  pub comparator : Text
  pub path : Text

abbrev drop_last : Text → Text
drop_last [] = []
drop_last (c ∷ []) = []
drop_last (c ∷ d ∷ s) = c ∷ drop_last (d ∷ s)

abbrev drop_first : Text → Text
drop_first [] = []
drop_first (c ∷ s) = s

unfoldable pub by_name : PortRule → Bool
unfolding equal_fold
by_name rule =
    equal_fold rule.protocol https_proto
    || equal_fold rule.protocol http_proto
    || equal_fold rule.protocol sni_proto

wildcard : Text → Text → Match
unfolding has_prefix has_suffix
wildcard hostname path =
    if ltb 2 (length hostname) && has_prefix hostname (codes "*")
    then record { hostname = drop_first hostname; comparator = end_rule_comparator; path = path }
    else if ltb 2 (length hostname) && has_suffix hostname (codes "*")
    then record { hostname = drop_last hostname; comparator = beg_rule_comparator; path = path }
    else record { hostname = hostname; comparator = eq_rule_comparator; path = path }

unfoldable pub match_of : PortRule → Match
unfolding wildcard by_name
match_of rule = if by_name rule then wildcard rule.hostname rule.path else wildcard [] []

-- A health check in the types of the configuration.
unfoldable pub get_health_check : Metadata.HealthCheck → Config.HealthCheck
get_health_check h = record {
  response_timeout = h.response_timeout;
  interval = h.interval;
  healthy_threshold = h.healthy_threshold;
  unhealthy_threshold = h.unhealthy_threshold;
  request_line = h.request_line;
  port = h.port;
}

-- A frontend of `frontendsMap`; a pointer to a backend is its key in `allBe`.
pub record Frontend : Type 0 where
  pub name : Text
  pub port : ℤ
  pub protocol : Text
  pub backends : List Text

-- `frontendsMap`, `allBe` and `allEps`.
pub record Tables : Type 0 where
  pub frontends : Dict Frontend
  pub all_be : Dict BackendService
  pub all_eps : Dict (Dict Text)

unfoldable pub weigh : ℤ → Endpoint → Endpoint
weigh weight ep = if ep.stopping then ep else record ep { weight = weight }

ips_of : Dict Text → List Endpoint → Dict Text
unfolding insert
ips_of m [] = m
ips_of m (ep ∷ eps) = ips_of (insert ep.ip ep.ip m) eps

-- The loop over the endpoints of a rule whose backend is there: the addresses, the endpoints.
unfoldable pub merge_endpoints :
    ℤ → List Endpoint → Dict Text × List Endpoint → Dict Text × List Endpoint
unfolding insert lookup weigh
merge_endpoints weight [] r = r
merge_endpoints weight (ep ∷ eps) (seen, there) = merge_endpoints weight eps (
    if is_some (lookup ep.ip seen)
    then (seen, there)
    else (insert ep.ip ep.ip seen, there ++ weigh weight ep ∷ []))

seen_or_new : Option (Dict Text) → Dict Text
seen_or_new none = []
seen_or_new (some m) = m

unfoldable pub frontend_of : PortRule → Tables → Frontend
unfolding lookup itoa_int
frontend_of rule t = elim (lookup (itoa_int rule.source_port) t.frontends) [
  | none ↦ record {
    name = itoa_int rule.source_port;
    port = rule.source_port;
    protocol = rule.protocol;
    backends = [];
  }
  | some f ↦ f
]

new_backend : PortRule → Match → List Endpoint → Option Config.HealthCheck → BackendService
unfolding formulate_backend_name weigh
new_backend rule m eps hc = record {
  uuid =
      if is_empty rule.backend_name
      then formulate_backend_name rule.source_port m.hostname m.path
      else rule.backend_name;
  endpoints = map (weigh rule.weight) eps;
  path = m.path;
  host = m.hostname;
  rule_comparator = m.comparator;
  algorithm = [];
  port = rule.target_port;
  protocol = rule.protocol;
  config = [];
  health_check = hc;
  priority = rule.priority;
  send_proxy = false;
}

-- A rule whose backend is there, and one whose backend is new.
merge_rule : PortRule → Text → BackendService → List Endpoint → Tables → Tables
unfolding merge_endpoints seen_or_new insert lookup
merge_rule rule key be eps t =
    let (seen, there) =
      merge_endpoints rule.weight eps (seen_or_new (lookup key t.all_eps), be.endpoints) in
    record t {
      all_be = insert key (record be { endpoints = there }) t.all_be;
      all_eps = insert key seen t.all_eps;
    }

create_rule : PortRule → Text → Match → List Endpoint → Option Config.HealthCheck → Tables → Tables
unfolding new_backend insert ips_of
create_rule rule key m eps hc t = record t {
  all_be = insert key (new_backend rule m eps hc) t.all_be;
  all_eps = insert key (ips_of [] eps) t.all_eps;
}

store_rule :
    PortRule
    → Text
    → Match
    → List Endpoint
    → Option Config.HealthCheck
    → Option BackendService
    → Tables
    → Tables × List Text
unfolding merge_rule create_rule
store_rule rule key m eps hc (some be) t = (merge_rule rule key be eps t, [])
store_rule rule key m eps hc none t = (create_rule rule key m eps hc t, key ∷ [])

-- The part of the loop behind the endpoints.
unfoldable pub add_rule : PortRule → List Endpoint → Option Config.HealthCheck → Tables → Tables
unfolding store_rule match_of path_uuid frontend_of insert lookup itoa_int
add_rule rule eps hc t =
    let m = match_of rule in
    let key = path_uuid rule.source_port m.hostname m.path in
    let f = frontend_of rule t in
    let (t', added) = store_rule rule key m eps hc (lookup key t.all_be) t in
    record t' {
      frontends =
          insert (itoa_int rule.source_port) (record f { backends = f.backends ++ added })
            t'.frontends;
    }
