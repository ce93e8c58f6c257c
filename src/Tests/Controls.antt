-- ===== src/Tests/Controls.antt =====
-- The controller on a small metadata service: a stack "s" with a web service of two containers,
-- one of them stopping, and a DNS service that links to it.
use load_balancer_controller.Base.{
  ℕ, suc, ◌<◌, Bool, true, false, not, ◌&&◌, Option, some, none, List, [], ◌∷◌, ◌≡◌, refl, sym,
  arith, All, if◌then◌else◌, is_empty, is_some,
}
use load_balancer_controller.Base.Text.{
  Text, codes, text_eq, equal_fold, contains_byte, split_byte, ℤ, pos,
}
use load_balancer_controller.Base.Outcome.{Outcome, ok, err}
use load_balancer_controller.Config.{LoadBalancerConfig}
use load_balancer_controller.Metadata.{
  Metadata, HealthCheck, Service, Container, PortRule, LbConfig, Failure, unreachable,
  get_service_from_region_environment, get_service_in_local_region,
}
use load_balancer_controller.TaskQueue.{new_task_queue}
use load_balancer_controller.Controller.Links.{
  get_service, get_service_name, by_pieces, get_service-get_service_name,
}
use load_balancer_controller.Controller.Endpoints.{
  Locality, get_regular_service_endpoints, get_service_endpoints,
}
use load_balancer_controller.Controller.Endpoints.Local.{
  serving, on_host, get_regular_service_endpoints-serving,
}
use load_balancer_controller.Controller.Endpoints.Aliases.{is_dns, get_service_endpoints-returns}
use load_balancer_controller.Controller.Rules.{process_selector}
use load_balancer_controller.Controller.Rules.Derived.{Derived, process_selector-Derived}
use load_balancer_controller.Controller.Build.{Tables}
use load_balancer_controller.Controller.Build.Merged.{IsMerged}
use load_balancer_controller.Controller.Build.Whole.{build_rules, get_lb_configs}
use load_balancer_controller.Provider.Custom.{build_custom_config}
use load_balancer_controller.Base.{length}
use load_balancer_controller.Controller.Build.Whole.Loop.{build_rules-IsMerged}
use load_balancer_controller.Controller.Sync
use load_balancer_controller.Controller.Sync.{sync, stop, round, rounds}
use load_balancer_controller.Controller.Sync.Backoff.{
  Refused, Fails, AllFail, rising, failures-backoff,
}
use load_balancer_controller.Startup.{handle_sigterm, handle_sigterm-fails}
use mathlib.Core.List.{Memᴰ}

abbrev check : HealthCheck
check = record {
  healthy_threshold = pos 2;
  interval = pos 2000;
  port = pos 80;
  request_line = [];
  response_timeout = pos 2000;
  unhealthy_threshold = pos 3;
}

abbrev container : Text → Text → Text → Container
container ip host state = record {
  environment_uuid = codes "e";
  health_check = check;
  host_uuid = host;
  name = ip;
  primary_ip = ip;
  service_name = codes "web";
  stack_name = codes "s";
  state = state;
}

abbrev rule : Text → Text → ℤ → PortRule
rule service selector weight = record {
  backend_name = [];
  hostname = [];
  path = [];
  priority = pos 0;
  protocol = codes "http";
  selector = selector;
  service = service;
  source_port = pos 80;
  target_port = pos 8080;
  container = [];
  region = [];
  environment = [];
  weight = weight;
}

abbrev pub no_rules : LbConfig
no_rules = record {
  certs = [];
  config = [];
  default_cert = [];
  port_rules = [];
  stickiness_policy = record {
    cookie = [];
    domain = [];
    indirect = false;
    mode = [];
    name = [];
    nocache = false;
    postonly = false;
  };
}

abbrev web : Service
web = record {
  containers =
      container (codes "10.0.0.1") (codes "h1") (codes "running")
      ∷ container (codes "10.0.0.2") (codes "h2") (codes "stopping")
      ∷ [];
  environment_uuid = codes "e";
  external_ips = [];
  health_check = check;
  hostname = [];
  kind = codes "service";
  labels = (codes "app", codes "web") ∷ [];
  lb_config = no_rules;
  links = [];
  name = codes "web";
  stack_name = codes "s";
  state = codes "active";
}

abbrev alias : Service
alias = record web {
  kind = codes "dnsService";
  links = (codes "s/web", codes "w") ∷ [];
  name = codes "alias";
}

abbrev metadata : Metadata
metadata = record {
  region_name = err unreachable;
  self_host = err unreachable;
  self_service = err unreachable;
  services = ok (web ∷ []);
  environments = err unreachable;
  containers = ok [];
  hosts = ok [];
  stack_service = λ stack name. ok web;
}

abbrev same_name : Text → Text
same_name ip = ip

abbrev nearby : Locality
nearby = record { preference = codes "prefer-local"; self_host = codes "h2" }

get_service-get_service_name_example :
    get_service metadata (get_service_name (codes "web") (codes "s") [] []) ≡ (
      if not (is_empty (codes ""))
      then get_service_from_region_environment metadata [] [] (codes "s") (codes "web")
      else if not (is_empty (codes ""))
      then get_service_in_local_region metadata [] (codes "s") (codes "web")
      else ok web)
get_service-get_service_name_example =
    get_service-get_service_name metadata (codes "web") (codes "s") [] []
      (unfold contains_byte in refl) (unfold contains_byte in refl) (unfold contains_byte in refl)
      (unfold contains_byte in refl)

get_regular_service_endpoints-serving_example :
    let near_by = serving same_name (pos 80) (on_host nearby) web.containers in
    let everywhere = serving same_name (pos 80) (λ c. true) web.containers in
    get_regular_service_endpoints same_name web (pos 80) nearby ≡ (
      if text_eq nearby.preference (codes "any")
      then everywhere
      else if text_eq nearby.preference (codes "prefer-local") && is_empty near_by
      then everywhere
      else near_by)
get_regular_service_endpoints-serving_example =
    get_regular_service_endpoints-serving same_name (pos 80) web nearby

-- Every link leads to the web service, if anywhere.
abbrev rank : Service → ℕ
rank svc = if is_dns svc then 1 else 0

by_pieces-web : (ps : List Text) {s : Service} → by_pieces metadata ps ≡ ok s → s ≡ web
unfolding by_pieces get_service_from_region_environment get_service_in_local_region
by_pieces-web [] h = absurd (cc h)
by_pieces-web (a ∷ []) h = absurd (cc h)
by_pieces-web (a ∷ b ∷ []) h = sym (cc h)
by_pieces-web (a ∷ b ∷ c ∷ []) h = absurd (cc h)
by_pieces-web (a ∷ b ∷ c ∷ d ∷ []) h = absurd (cc h)
by_pieces-web (a ∷ b ∷ c ∷ d ∷ e ∷ ps) h = sym (cc h)

down :
    (svc s : Service) (link name : Text)
    → is_dns svc ≡ true
    → Memᴰ (link, name) svc.links
    → get_service metadata link ≡ ok s
    → rank s < rank svc
unfolding get_service equal_fold
down svc s link name dns m h = rw (by_pieces-web (split_byte b'/' link) h, dns) (omega arith)

get_service_endpoints-returns_example :
    is_some (get_service_endpoints same_name 2 metadata alias (pos 80) nearby) ≡ true
get_service_endpoints-returns_example =
    get_service_endpoints-returns same_name metadata (pos 80) nearby rank down 2 alias
      (unfold equal_fold in omega arith)

-- A metadata service in which every link leads to a DNS service that links to itself.
abbrev circle : Service
circle = record alias { links = (codes "s/alias", codes "a") ∷ [] }

abbrev circular : Metadata
circular = record metadata { stack_service = λ stack name. ok circle }

abbrev selecting : List PortRule
selecting = rule [] (codes "app=web") (pos 7) ∷ []

abbrev selected : List PortRule
selected = rule (codes "s/web") [] (pos 7) ∷ []

process_selector-Derived_example : All (Derived metadata selecting) selected
process_selector-Derived_example =
    process_selector-Derived metadata false selecting {out = selected}
      (unfold process_selector in refl)

-- Two rules for one backend.
abbrev built : Option (Outcome Failure Tables)
unfolding build_rules
built =
    build_rules same_name 2 metadata nearby (codes "e")
      (rule (codes "s/web") [] (pos 7) ∷ rule (codes "s/web") [] (pos 9) ∷ [])
      (record { frontends = []; all_be = []; all_eps = [] })

abbrev table_of : Option (Outcome Failure Tables) → Tables
table_of (some (ok t)) = t
table_of _ = record { frontends = []; all_be = []; all_eps = [] }

build_rules-IsMerged_example : IsMerged (table_of built)
unfolding built
build_rules-IsMerged_example =
    build_rules-IsMerged same_name 2 metadata nearby (codes "e")
      (rule (codes "s/web") [] (pos 7) ∷ rule (codes "s/web") [] (pos 9) ∷ []) {t = table_of built}
      refl

abbrev plain : LoadBalancerConfig
plain = record {
  default_cert = none;
  certs = [];
  name = [];
  frontend_services = [];
  config = [];
  stickiness_policy = none;
}

abbrev apply : LoadBalancerConfig → ℕ → Bool × ℕ
apply cfg n = (false, suc n)

abbrev controller : Sync.Controller ℕ apply
controller = record {
  shutdown = false;
  stop_closed = false;
  backoff = pos 0;
  queue = new_task_queue;
  provider = 0;
}

-- Two syncs that fail: the metadata is out of reach, then the provider refuses a configuration.
abbrev failing : List (Outcome Failure (List LoadBalancerConfig))
failing = err unreachable ∷ ok (plain ∷ []) ∷ []

failing_fails : AllFail ℕ apply (codes "lb") failing controller
unfolding round sync
failing_fails = (
  Fails.unbuilt unreachable refl,
  (Fails.refused (plain ∷ []) refl (Refused.at_first refl refl), tt),
)

failures-backoff_example :
    let out = rounds ℕ apply (codes "lb") failing controller in
    (out.0 ≡ rising 0 2) × (out.1.backoff ≡ pos 10)
failures-backoff_example =
    failures-backoff ℕ apply (codes "lb") failing controller 0 refl refl (omega arith) failing_fails

-- The waits are five and ten seconds, in nanoseconds.
waits : rising 0 2 ≡ some (pos 5000000000) ∷ some (pos 10000000000) ∷ []
waits = refl

handle_sigterm-fails_example :
    ((handle_sigterm ℕ apply (ok tt) controller).0 ≡ 1)
    × ((handle_sigterm ℕ apply (ok tt) controller).1.shutdown ≡ true)
handle_sigterm-fails_example = handle_sigterm-fails ℕ apply (ok tt) controller

-- A balancer with one rule of weight 7, and a custom text that gives its servers another one.
abbrev balancer : Service
balancer = record web {
  lb_config = record no_rules {
    port_rules = rule (codes "s/web") [] (pos 7) ∷ [];
    config = codes "backend b\n  server $IP weight 3";
  };
}

abbrev served : Metadata
served = record metadata { self_service = ok balancer }

abbrev given : Option (Outcome Failure LoadBalancerConfig)
unfolding get_lb_configs build_custom_config
given = get_lb_configs same_name 2 served (record {
  fetch_default = ok [];
  fetch_certs = ok [];
  custom = λ cfg text. ok (build_custom_config cfg text);
})

abbrev config_of : Option (Outcome Failure LoadBalancerConfig) → LoadBalancerConfig
config_of (some (ok cfg)) = cfg
config_of _ = plain

one_frontend : length (config_of given).frontend_services ≡ 1
unfolding given get_lb_configs
one_frontend = refl
